-- ===== src/Net/Address.antt =====
-- net.SplitHostPort and net.JoinHostPort. The proxy looks at no address error more closely than
-- whether there is one, so all are none.
use mitm_proxy.Base.{
  ℕ, ◌≡◌, refl, ◌∙◌, Bool, false, not, ◌&&◌, ◌||◌, [], ◌∷◌, ◌++◌, Option, none, some, arith, ◌==◌,
  if◌then◌else◌,
}
use mitm_proxy.Text.{Bytes, bytes}

-- Whether a byte stands in a text.
unfoldable pub holds : ℕ → Bytes → Bool
holds c [] = false
holds c (d ∷ s) = d == c || holds c s

-- The text in front of the first such byte, and behind it.
unfoldable pub cut : ℕ → Bytes → Option (Bytes × Bytes)
cut c [] = none
cut c (d ∷ s) =
    let later : Option (Bytes × Bytes) = elim (cut c s) [
      | none ↦ none
      | some (a, b) ↦ some (d ∷ a, b)
    ] in
    if d == c then some ([], s) else later

-- The port behind `]`: a colon and no further colon or bracket.
unfoldable pub port_behind : Bytes → Option Bytes
port_behind [] = none
port_behind (c ∷ port) =
    if c == b':' && not (holds b':' port) && not (holds b']' port) then some port else none

-- `[host]:port` without its first byte; no second `[` may stand in it.
unfoldable pub split_bracketed : Bytes → Option (Bytes × Bytes)
split_bracketed s = elim (cut b']' s) [
  | none ↦ none
  | some (host, rest) ↦ elim (port_behind rest) [
    | none ↦ none
    | some port ↦ if holds b'[' s then none else some (host, port)
  ]
]

-- `host:port` with one colon and no bracket.
unfoldable pub split_plain : Bytes → Option (Bytes × Bytes)
split_plain s = elim (cut b':' s) [
  | none ↦ none
  | some (host, port) ↦
      if holds b':' port || holds b'[' s || holds b']' s then none else some (host, port)
]

unfoldable pub split_host_port : Bytes → Option (Bytes × Bytes)
split_host_port [] = none
split_host_port (c ∷ s) = if c == b'[' then split_bracketed s else split_plain (c ∷ s)

unfoldable pub join_host_port : Bytes → Bytes → Bytes
join_host_port host port =
    if holds b':' host then b'[' ∷ (host ++ (b']' ∷ b':' ∷ port)) else host ++ (b':' ∷ port)

-- A text of letters, digits, dots and dashes, as far as an address cares.
abbrev pub IsName : Bytes → Type 0
IsName s = (holds b':' s ≡ false) × (holds b'[' s ≡ false) × (holds b']' s ≡ false)

pub holds-cons : (c d : ℕ) (s : Bytes) → holds c (d ∷ s) ≡ (d == c) || holds c s
unfolding holds
holds-cons c d s = refl

pub holds-append :
    (c d : ℕ) (s t : Bytes) → holds c (s ++ d ∷ t) ≡ holds c s || ((d == c) || holds c t)
unfolding holds
holds-append c d [] t = refl
holds-append c d (e ∷ s) t = ground (arith, holds-append c d s t)

cut-append : (c : ℕ) (s t : Bytes) → holds c s ≡ false → cut c (s ++ c ∷ t) ≡ some (s, t)
unfolding holds cut
cut-append c [] t h = ground arith
cut-append c (d ∷ s) t h = ground (arith, cut-append c s t)

cut_lacking : (c : ℕ) (s : Bytes) → holds c s ≡ false → cut c s ≡ none
unfolding holds cut
cut_lacking c [] h = refl
cut_lacking c (d ∷ s) h = ground (arith, cut_lacking c s)

split_plain-append :
    (host port : Bytes)
    → IsName host
    → IsName port
    → split_plain (host ++ b':' ∷ port) ≡ some (host, port)
unfolding split_plain
split_plain-append host port h p = ground (
  arith,
  cut-append b':' host port,
  holds-append b'[' b':' host port,
  holds-append b']' b':' host port,
)

-- A name with a port behind it is split there.
pub split_host_port-append :
    (host port : Bytes)
    → IsName host
    → IsName port
    → split_host_port (host ++ b':' ∷ port) ≡ some (host, port)
unfolding split_host_port
split_host_port-append [] port h p = split_plain-append [] port h p
split_host_port-append (c ∷ host) port h p =
    ground (arith, split_plain-append (c ∷ host) port h p, holds-cons b'[' c host)

-- A name alone has no port.
pub split_host_port_name : (host : Bytes) → IsName host → split_host_port host ≡ none
unfolding split_host_port split_plain
split_host_port_name [] h = refl
split_host_port_name (c ∷ host) h =
    ground (arith, cut_lacking b':' (c ∷ host), holds-cons b'[' c host)

-- A literal in brackets has no port, and in two pairs of brackets it is no address.
pub split_host_port_bracketed :
    (h : Bytes) → holds b']' h ≡ false → split_host_port (b'[' ∷ (h ++ b']' ∷ [])) ≡ none
unfolding split_host_port split_bracketed port_behind
split_host_port_bracketed h b = rw (cut-append b']' h [] b, split_bracketed)

pub split_host_port_doubled :
    (h port : Bytes)
    → holds b']' h ≡ false
    → split_host_port (b'[' ∷ b'[' ∷ (h ++ b']' ∷ b']' ∷ b':' ∷ port)) ≡ none
unfolding split_host_port split_bracketed port_behind
split_host_port_doubled h port b =
    rw (
      cut-append b']' (b'[' ∷ h) (b']' ∷ b':' ∷ port) (holds-cons b']' b'[' h ∙ b),
      split_bracketed,
    )

pub join_host_port_name :
    (host port : Bytes) → IsName host → join_host_port host port ≡ host ++ b':' ∷ port
unfolding join_host_port
join_host_port_name host port h = rw (h.0)

v6 : split_host_port (bytes "[::1]:80") ≡ some (bytes "::1", bytes "80")
unfolding split_host_port split_bracketed port_behind cut holds bytes
v6 = refl
