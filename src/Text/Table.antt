-- ===== src/Text/Table.antt =====
-- A Go map with string keys, as an association list.
use mitm_proxy.Base.{◌≡◌, refl, List, [], ◌∷◌, Option, none, some, arith, if◌then◌else◌}
use mitm_proxy.Text.{Bytes, bytes_eq, bytes_eq_iff, bytes_eq_refl}

abbrev pub Table {ℓ} : Type ℓ → Type ℓ
Table V = List (Bytes × V)

module _ {ℓ} {V : Type ℓ} where
  unfoldable pub find : Bytes → Table V → Option V
  unfolding bytes_eq
  find k [] = none
  find k ((j, v) ∷ m) = if bytes_eq j k then some v else find k m

  unfoldable pub store : Bytes → V → Table V → Table V
  unfolding bytes_eq
  store k v [] = (k, v) ∷ []
  store k v ((j, w) ∷ m) = if bytes_eq j k then (k, v) ∷ m else (j, w) ∷ store k v m

  pub find-store :
      (k j : Bytes) (v : V) (m : Table V)
      → find j (store k v m) ≡ (if bytes_eq k j then some v else find j m)
  unfolding find store
  find-store k j v [] = refl
  find-store k j v ((i, w) ∷ m) =
      ground (arith, bytes_eq_iff k j, bytes_eq_iff i k, bytes_eq_iff i j, find-store k j v m)

  pub find-store_self : (k : Bytes) (v : V) (m : Table V) → find k (store k v m) ≡ some v
  find-store_self k v m = rw (find-store k k v m, bytes_eq_refl k)

module _ {ℓ} {V : Type ℓ} where
  unfoldable pub delete : Bytes → Table V → Table V
  unfolding bytes_eq
  delete k [] = []
  delete k ((j, v) ∷ m) = let rest = delete k m in if bytes_eq j k then rest else (j, v) ∷ rest

  pub find-delete :
      (k j : Bytes) (m : Table V) → find j (delete k m) ≡ (if bytes_eq k j then none else find j m)
  unfolding find delete
  find-delete k j [] = ground arith
  find-delete k j ((i, v) ∷ m) =
      ground (arith, bytes_eq_iff k j, bytes_eq_iff i k, bytes_eq_iff i j, find-delete k j m)
