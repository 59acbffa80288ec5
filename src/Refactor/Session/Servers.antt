-- ===== src/Refactor/Session/Servers.antt =====
-- The table of upstream connections: lookups behind updates, and the connections that it holds.
use mitm_proxy.Base.{ℕ, ◌+◌, ◌≡◌, refl, List, [], ◌∷◌, none, some, arith, ◌==◌, if◌then◌else◌}
use mitm_proxy.Text.{Bytes, bytes_eq, bytes_eq_iff, bytes_eq_refl}
use mitm_proxy.Net.Upstream.{count}
use mitm_proxy.Refactor.Server.{ServerConn}
use mitm_proxy.Refactor.Session.{Servers, lookup, put, delete}

-- No host has two entries.
abbrev pub Distinct : Servers → Type 0
Distinct [] = Unit
Distinct ((k, s) ∷ m) = (lookup k m ≡ none) × Distinct m

unfoldable pub raws : Servers → List ℕ
raws [] = []
raws ((k, s) ∷ m) = s.raw ∷ raws m

abbrev pub one_if : ℕ → ℕ → ℕ
one_if c k = if c == k then 1 else 0

pub lookup-put :
    (k j : Bytes) (s : ServerConn) (m : Servers)
    → lookup j (put k s m) ≡ (if bytes_eq k j then some s else lookup j m)
unfolding lookup put
lookup-put k j s [] = refl
lookup-put k j s ((i, t) ∷ m) =
    ground (arith, bytes_eq_iff k j, bytes_eq_iff i k, bytes_eq_iff i j, lookup-put k j s m)

pub lookup-delete :
    (k j : Bytes) (m : Servers)
    → lookup j (delete k m) ≡ (if bytes_eq k j then none else lookup j m)
unfolding lookup delete
lookup-delete k j [] = ground arith
lookup-delete k j ((i, t) ∷ m) =
    ground (arith, bytes_eq_iff k j, bytes_eq_iff i k, bytes_eq_iff i j, lookup-delete k j m)

pub lookup-delete_self : (k : Bytes) (m : Servers) → lookup k (delete k m) ≡ none
lookup-delete_self k m = rw (lookup-delete k k m, bytes_eq_refl k)

pub delete_absent : (k : Bytes) (m : Servers) → lookup k m ≡ none → delete k m ≡ m
unfolding lookup delete
delete_absent k [] h = refl
delete_absent k ((i, t) ∷ m) h = ground (arith, delete_absent k m)

pub put-Distinct : (k : Bytes) (s : ServerConn) (m : Servers) → Distinct m → Distinct (put k s m)
unfolding put
put-Distinct k s [] d = (unfold lookup in refl, tt)
put-Distinct k s ((i, t) ∷ m) d =
    ground (arith, bytes_eq_iff i k, bytes_eq_iff k i, lookup-put k i s m, put-Distinct k s m d.1)

pub delete-Distinct : (k : Bytes) (m : Servers) → Distinct m → Distinct (delete k m)
unfolding delete
delete-Distinct k [] d = tt
delete-Distinct k ((i, t) ∷ m) d =
    ground (arith, bytes_eq_iff i k, bytes_eq_iff k i, lookup-delete k i m, delete-Distinct k m d.1)

pub count-put :
    (c : ℕ) (k : Bytes) (s : ServerConn) (m : Servers)
    → lookup k m ≡ none
    → count c (raws (put k s m)) ≡ count c (raws m) + one_if s.raw c
unfolding count raws put lookup
count-put c k s [] h = ground arith
count-put c k s ((i, t) ∷ m) h = ground (arith, count-put c k s m)

pub count-delete :
    (c : ℕ) (k : Bytes) (s : ServerConn) (m : Servers)
    → Distinct m
    → lookup k m ≡ some s
    → count c (raws (delete k m)) + one_if s.raw c ≡ count c (raws m)
unfolding count raws delete lookup
count-delete c k s [] d h = cc
count-delete c k s ((i, t) ∷ m) d h =
    ground (arith, bytes_eq_iff i k, count-delete c k s m d.1, delete_absent k m)
