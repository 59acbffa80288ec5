-- ===== src/Http/Header/Laws.antt =====
-- `Get` after `Set` and after `Del`.
use mitm_proxy.Base.{◌≡◌, refl, false, List, [], ◌∷◌, arith, if◌then◌else◌}
use mitm_proxy.Text.{Bytes, bytes_eq, bytes_eq_iff, bytes_eq_refl}
use mitm_proxy.Http.Header.{Header, canonical, values, get, put, set, remove, del}

pub values-put :
    (h : Header) (k j : Bytes) (vs : List Bytes)
    → values (put h k vs) j ≡ (if bytes_eq k j then vs else values h j)
unfolding values put
values-put [] k j vs = refl
values-put ((i, us) ∷ h) k j vs =
    ground (arith, bytes_eq_iff k j, bytes_eq_iff i k, bytes_eq_iff i j, values-put h k j vs)

values-remove :
    (h : Header) (k j : Bytes) → values (remove h k) j ≡ (if bytes_eq k j then [] else values h j)
unfolding values remove
values-remove [] k j = ground arith
values-remove ((i, us) ∷ h) k j =
    ground (arith, bytes_eq_iff k j, bytes_eq_iff i k, bytes_eq_iff i j, values-remove h k j)

pub get-set :
    (h : Header) (k j v : Bytes)
    → get (set h k v) j ≡ (if bytes_eq (canonical k) (canonical j) then v else get h j)
unfolding get set
get-set h k j v = ground (arith, values-put h (canonical k) (canonical j) (v ∷ []))

pub get-del :
    (h : Header) (k j : Bytes)
    → get (del h k) j ≡ (if bytes_eq (canonical k) (canonical j) then [] else get h j)
unfolding get del
get-del h k j = ground (arith, values-remove h (canonical k) (canonical j))

pub get-set_self : (h : Header) (k v : Bytes) → get (set h k v) k ≡ v
get-set_self h k v = rw (get-set h k k v, bytes_eq_refl (canonical k))

pub get-set_ne :
    (h : Header) (k j v : Bytes)
    → bytes_eq (canonical k) (canonical j) ≡ false
    → get (set h k v) j ≡ get h j
get-set_ne h k j v e = rw (get-set h k j v, e)

pub get-nil : (k : Bytes) → get [] k ≡ []
unfolding get
get-nil k = refl

pub get-del_ne :
    (h : Header) (k j : Bytes)
    → bytes_eq (canonical k) (canonical j) ≡ false
    → get (del h k) j ≡ get h j
get-del_ne h k j e = rw (get-del h k j, e)
