-- ===== src/Text/Search.antt =====
-- What strings.LastIndex finds, and how a slice at that place cuts the text.
use mitm_proxy.Base.{
  ℕ, zero, suc, ◌≤◌, ◌≡◌, ◌≢◌, ap, refl, true, [], ◌∷◌, ◌++◌, none, some, arith, Option-cases, take,
  drop, length, inl, inr,
}
use mitm_proxy.Text.{Bytes, has_prefix, last_index}

has_prefix-append : (p s : Bytes) → has_prefix (p ++ s) p ≡ true
unfolding has_prefix
has_prefix-append [] s = refl
has_prefix-append (c ∷ p) s = ground (arith, has_prefix-append p s)

has_prefix-split : (s p : Bytes) → has_prefix s p ≡ true → (rest : Bytes) × (s ≡ p ++ rest)
unfolding has_prefix
has_prefix-split s [] h = (s, refl)
has_prefix-split [] (b ∷ p) h = cc
has_prefix-split (a ∷ s) (b ∷ p) h =
    let (rest, e) = has_prefix-split s p (ground arith) in (rest, ground arith)

-- A found place splits the text in front of an occurrence of the pattern.
pub last_index-splits :
    (s p : Bytes) (i : ℕ)
    → last_index s p ≡ some i
    → (rest : Bytes) × (s ≡ take i s ++ (p ++ rest)) × (drop i s ≡ p ++ rest)
unfolding last_index take drop
last_index-splits [] [] i h = let k : i ≡ zero = ground arith in ([], rw k refl, rw k refl)
last_index-splits [] (b ∷ p) i h = cc
last_index-splits (c ∷ s) p i h = elim (Option-cases (last_index s p)) [
  | inr (j, e) ↦
      let (rest, f, g) = last_index-splits s p j e in
      let k : i ≡ suc j = ground arith in (rest, rw k (ap (◌∷◌ c) f), rw k g)
  | inl e ↦
      let here : has_prefix (c ∷ s) p ≡ true = ground arith in
      let k : i ≡ zero = ground arith in
      let (rest, f) = has_prefix-split (c ∷ s) p here in (rest, rw k f, rw k f)
]

-- The pattern does not occur in a text.
abbrev pub Free : Bytes → Bytes → Type 0
Free p s = (front rest : Bytes) → s ≢ front ++ (p ++ rest)

-- `none` means that the pattern does not occur.
pub last_index-none : (s p : Bytes) → last_index s p ≡ none → Free p s
unfolding last_index
last_index-none [] [] h front rest e = ground arith
last_index-none [] (b ∷ p) h [] rest e = cc
last_index-none [] (b ∷ p) h (x ∷ front) rest e = cc
last_index-none (c ∷ s) p h [] rest e =
    let found : has_prefix (c ∷ s) p ≡ true = rw e (has_prefix-append p rest) in ground arith
last_index-none (c ∷ s) p h (x ∷ front) rest e = last_index-none s p (ground arith) front rest (cc)

-- The pattern stands nowhere behind the place found.
pub last_index-last :
    (s p : Bytes) (i : ℕ)
    → last_index s p ≡ some i
    → (front rest : Bytes) → s ≡ front ++ (p ++ rest)
    → length front ≤ i
unfolding last_index
last_index-last s p i h [] rest e = omega arith
last_index-last [] p i h (x ∷ front) rest e = cc
last_index-last (c ∷ s) p i h (x ∷ front) rest e =
    let e' : s ≡ front ++ (p ++ rest) = cc in
    elim (Option-cases (last_index s p)) [
      | inr (j, f) ↦
          let k : i ≡ suc j = ground arith in omega (arith, last_index-last s p j f front rest e')
      | inl f ↦ absurd (last_index-none s p f front rest e')
    ]
