-- ===== src/Core/Local/Same.antt =====
-- The two versions agree on WebSocket requests and on the local addresses.
use mitm_proxy.Base.{
  ◌≡◌, refl, ap, ◌∙◌, Bool, true, false, not, ◌||◌, ◌&&◌, List, [], ◌∷◌, arith, Option, none, some,
  if◌then◌else◌,
}
use mitm_proxy.Text.{Bytes, bytes, is_empty, to_lower, equal_fold, contains}
use mitm_proxy.Http.Error.{Result, ok, err, ◌>>=◌}
use mitm_proxy.Http.Header.{get}
use mitm_proxy.Http.Message.{Request}
use mitm_proxy.Net.Interfaces.{Addr, ipv4, other_addr, Interface}
use mitm_proxy.Core.Local as First
use mitm_proxy.Refactor.Hosts as Second

same_tests :
    (a b c d : Bool)
    → (if not a || not b then false else if c || d then false else true)
      ≡ (if not a || not b then false else not c && not d)
same_tests a b c d = ground arith

add_addresses_lem :
    (l : List Addr) (ips : List Bytes) → First.add_addresses l ips ≡ Second.add_addrs l ips
unfolding First.add_addresses Second.add_addrs
add_addresses_lem [] ips = refl
add_addresses_lem (ipv4 a ∷ l) ips = add_addresses_lem l (Second.add a ips)
add_addresses_lem (other_addr ∷ l) ips = add_addresses_lem l ips

-- The results without the texts of the errors.
abbrev pub value {ℓ} : {A : Type ℓ} → Result A → Option A
value (ok a) = some a
value (err e) = none

taken_lem :
    (addrs : Result (List Addr)) (f g : List Addr → Result (List Bytes))
    → ((l : List Addr) → value (f l) ≡ value (g l))
    → value (addrs >>= f) ≡ value (addrs >>= g)
taken_lem (ok l) f g h = h l
taken_lem (err e) f g h = refl

if_lem {ℓ} :
    {A B : Type ℓ} (f : A → B) (b : Bool) (x y u v : A)
    → f x ≡ f u
    → f y ≡ f v
    → f (if b then x else y) ≡ f (if b then u else v)
if_lem f true x y u v h k = h
if_lem f false x y u v h k = k

add_each_lem :
    (l : List Interface) (ips : List Bytes)
    → value (First.add_each l ips) ≡ value (Second.add_interfaces l ips)
unfolding First.add_each Second.add_interfaces
add_each_lem [] ips = refl
add_each_lem (i ∷ l) ips =
    if_lem value (not i.is_up || i.is_loopback) _ _ _ _ (add_each_lem l ips) (
      taken_lem i.addrs (λ a. First.add_each l (First.add_addresses a ips))
        (λ a. Second.add_interfaces l (Second.add_addrs a ips))
        (λ a.
          add_each_lem l (First.add_addresses a ips)
          ∙ ap (λ s. value (Second.add_interfaces l s)) (add_addresses_lem a ips)))

named_lem : (l : List Bytes) → value (First.named l) ≡ value (Second.with_local_names l)
unfolding First.named Second.with_local_names
named_lem [] = refl
named_lem (a ∷ l) = refl

named_each_lem :
    (r s : Result (List Bytes))
    → value r ≡ value s
    → value (r >>= First.named) ≡ value (s >>= Second.with_local_names)
named_each_lem (ok l) (ok m) h =
    let same : l ≡ m = cc in ap (λ s. value (First.named s)) same ∙ named_lem m
named_each_lem (ok l) (err e) h = cc
named_each_lem (err e) (ok m) h = cc
named_each_lem (err e) (err f) h = refl

-- The two versions take the same requests for WebSocket requests, and the same set for the local
-- addresses; where there is none, or an interface cannot be read, both return an error.
pub versions_agree :
    (r : Request) (interfaces : Result (List Interface))
    → (First.is_web_socket_request r ≡ Second.is_web_socket_request r)
      × (value (First.get_local_ips interfaces) ≡ value (Second.local_ips interfaces))
unfolding First.is_web_socket_request Second.is_web_socket_request First.get_local_ips
    Second.local_ips
versions_agree r (ok l) = (
  same_tests (contains (to_lower (get r.header (bytes "Connection"))) (bytes "upgrade"))
      (equal_fold (get r.header (bytes "Upgrade")) (bytes "websocket"))
      (is_empty (get r.header (bytes "Sec-WebSocket-Key")))
      (is_empty (get r.header (bytes "Sec-WebSocket-Version"))),
  named_each_lem (First.add_each l []) (Second.add_interfaces l []) (add_each_lem l []),
)
versions_agree r (err e) = (
  same_tests (contains (to_lower (get r.header (bytes "Connection"))) (bytes "upgrade"))
      (equal_fold (get r.header (bytes "Upgrade")) (bytes "websocket"))
      (is_empty (get r.header (bytes "Sec-WebSocket-Key")))
      (is_empty (get r.header (bytes "Sec-WebSocket-Version"))),
  refl,
)
