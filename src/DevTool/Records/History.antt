-- ===== src/DevTool/Records/History.antt =====
-- What the history holds.
use mitm_proxy.Base.{
  ℕ, zero, suc, ◌-◌, ◌≤◌, ◌≡◌, refl, ap, sym, ◌∙◌, List, [], ◌∷◌, ◌++◌, append_assoc, append-nil,
  Option, some, arith, ltb, length, length-append, length-drop, drop, drop_all, drop-drop,
  Bool-cases, inl, inr,
}
use mitm_proxy.Http.Chunked.{◌>>=◌}
use mitm_proxy.DevTool.Rules.{ℤ, pos}
use mitm_proxy.DevTool.Records.{RequestRecord, limited, add_record}

-- The records are added one after the other.
unfoldable pub add_all : ℤ → List RequestRecord → List RequestRecord → Option (List RequestRecord)
add_all max [] l = some l
add_all max (r ∷ rs) l = do next ← add_record max r l; add_all max rs next

-- The last `m` elements, or all where there are fewer.
abbrev pub last {ℓ} : {A : Type ℓ} → ℕ → List A → List A
last m l = drop (length l - m) l

drop-append_le {ℓ} :
    {A : Type ℓ} (k : ℕ) (l r : List A) → k ≤ length l → drop k l ++ r ≡ drop k (l ++ r)
unfolding drop
drop-append_le zero l r h = refl
drop-append_le (suc k) [] r h = absurd (omega arith)
drop-append_le (suc k) (x ∷ l) r h = drop-append_le k l r (omega arith)

limited_lem : (m : ℕ) (l : List RequestRecord) → limited (pos m) l ≡ some (last m l)
unfolding limited
limited_lem m l = elim (Bool-cases (ltb m (length l))) [
  | inl h ↦ rw h refl
  | inr h ↦
      let none_left : length l - m ≡ 0 = ground arith in rw (h, none_left) (unfold drop in refl)
]

last-last {ℓ} :
    {A : Type ℓ} (m : ℕ) (l : List A) (x : A)
    → last m (last m l ++ (x ∷ [])) ≡ last m (l ++ (x ∷ []))
last-last m l x =
    let k = length l - m in
    let n = length (drop k l ++ (x ∷ [])) - m in
    ap (drop n) (drop-append_le k l (x ∷ []) (omega arith))
    ∙ drop-drop n k (l ++ (x ∷ []))
    ∙ ap (λ i. drop i (l ++ (x ∷ [])))
        (omega
          (arith, length-append (drop k l) (x ∷ []), length-drop k l, length-append l (x ∷ [])))

add_all-last_from :
    (m : ℕ) (rs l : List RequestRecord) → add_all (pos m) rs (last m l) ≡ some (last m (l ++ rs))
unfolding add_all add_record
add_all-last_from m [] l = rw (append-nil l) refl
add_all-last_from m (r ∷ rs) l =
    rw (limited_lem m (last m l ++ (r ∷ [])), last-last m l r)
      (add_all-last_from m rs (l ++ (r ∷ []))
        ∙ ap (λ s. some (last m s)) (append_assoc l (r ∷ []) rs))

-- From an empty history on, with a limit of at least 0 that is not changed, the history holds the
-- records that were added last, up to the limit, in their order; and so it never exceeds the limit.
pub add_all-last :
    (m : ℕ) (rs : List RequestRecord)
    → (add_all (pos m) rs [] ≡ some (last m rs)) × (length (last m rs) ≤ m)
add_all-last m rs = (
  ap (add_all (pos m) rs) (sym (drop_all (0 - m) [] (omega arith))) ∙ add_all-last_from m rs [],
  omega (arith, length-drop (length rs - m) rs),
)
