-- ===== src/Refactor/Hosts/Local.antt =====
-- Which addresses count as the proxy's own.
use mitm_proxy.Base.{◌≡◌, refl, inl, inr, Bool, false, ◌||◌, not, ◌&&◌, List, [], ◌∷◌, arith}
use mitm_proxy.Text.{Bytes, bytes, bytes_eq, bytes_eq_iff}
use mitm_proxy.Http.Error.{ok, err, Result-cases}
use mitm_proxy.Net.Interfaces.{Addr, ipv4, other_addr, Interface}
use mitm_proxy.Refactor.Hosts.{member, add, add_addrs, add_interfaces, with_local_names, local_ips}

member-add : (k j : Bytes) (s : List Bytes) → member k (add j s) ≡ bytes_eq j k || member k s
unfolding add member
member-add k j s = ground (arith, bytes_eq_iff j k)

member-nil : (k : Bytes) → member k [] ≡ false
unfolding member
member-nil k = refl

-- The reports, read as sets: an IPv4 address of an interface that is up and no loopback.
unfoldable pub has_addr : Bytes → List Addr → Bool
has_addr k [] = false
has_addr k (ipv4 a ∷ rest) = bytes_eq a k || has_addr k rest
has_addr k (other_addr ∷ rest) = has_addr k rest

abbrev addrs_of : Interface → List Addr
addrs_of i = elim i.addrs [ ok a ↦ a | err e ↦ [] ]

unfoldable pub has_outside : Bytes → List Interface → Bool
has_outside k [] = false
has_outside k (i ∷ rest) =
    ((i.is_up && not i.is_loopback) && has_addr k (addrs_of i)) || has_outside k rest

member-add_addrs :
    (k : Bytes) (addrs : List Addr) (ips : List Bytes)
    → member k (add_addrs addrs ips) ≡ has_addr k addrs || member k ips
unfolding add_addrs has_addr
member-add_addrs k [] ips = refl
member-add_addrs k (ipv4 a ∷ rest) ips =
    ground (arith, member-add_addrs k rest (add a ips), member-add k a ips)
member-add_addrs k (other_addr ∷ rest) ips = member-add_addrs k rest ips

member-add_interfaces :
    (k : Bytes) (list : List Interface) (ips found : List Bytes)
    → add_interfaces list ips ≡ ok found
    → member k found ≡ has_outside k list || member k ips
unfolding add_interfaces has_outside
member-add_interfaces k [] ips found h = ground arith
member-add_interfaces k (i ∷ rest) ips found h = elim (Result-cases i.addrs) [
  | inl (addrs, e) ↦
      let taken = add_addrs addrs ips in
      rw e (
        ground (
          arith,
          e,
          member-add_interfaces k rest taken found,
          member-add_interfaces k rest ips found,
          member-add_addrs k addrs ips,
        ))
  | inr (f, e) ↦ rw e (ground (arith, e, member-add_interfaces k rest ips found))
]

member-with_local_names :
    (k : Bytes) (ips found : List Bytes)
    → with_local_names ips ≡ ok found
    → member k found
      ≡ (bytes_eq (bytes "localhost") k || bytes_eq (bytes "127.0.0.1") k) || member k ips
unfolding with_local_names
member-with_local_names k [] found h = cc
member-with_local_names k (a ∷ ips) found h =
    let named = add (bytes "localhost") (a ∷ ips) in
    ground
      (arith, member-add k (bytes "127.0.0.1") named, member-add k (bytes "localhost") (a ∷ ips))

-- The set holds the two local names and every IPv4 address of an interface that is up and not the
-- loopback, and nothing else.
pub member-local_ips :
    (list : List Interface) (found : List Bytes) (k : Bytes)
    → local_ips (ok list) ≡ ok found
    → member k found
      ≡ (bytes_eq (bytes "localhost") k || bytes_eq (bytes "127.0.0.1") k) || has_outside k list
unfolding local_ips
member-local_ips list found k h = elim (Result-cases (add_interfaces list [])) [
  | inl (ips, e) ↦ ground (
    arith,
    e,
    member-with_local_names k ips found,
    member-add_interfaces k list [] ips e,
    member-nil k,
  )
  | inr (f, e) ↦ ground (arith, e)
]
