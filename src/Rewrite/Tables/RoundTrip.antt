-- ===== src/Rewrite/Tables/RoundTrip.antt =====
-- Headers through a Lua table and back.
use mitm_proxy.Base.{
  ◌≡◌, ◌≢◌, refl, ap, sym, ◌∙◌, List, [], ◌∷◌, ◌++◌, append_assoc, append-nil, arith, All,
  All-append,
}
use mitm_proxy.Text.{Bytes, bytes_eq_iff}
use mitm_proxy.Http.Header.{Header, canonical, put, set}
use mitm_proxy.Rewrite.Tables.{
  text_key, value_of, go_headers_to_lua, texts, put_values, add_entry, add_entries,
  lua_table_to_go_headers, items,
}

-- The name is in its canonical form, stands nowhere else, and has some value.
abbrev pub IsEntry : Bytes × List Bytes → Type 0
IsEntry e = (canonical e.0 ≡ e.0) × (e.1 ≢ [])

abbrev pub Absent : Bytes → Header → Type 0
Absent k h = All (λ e. e.0 ≢ k) h

abbrev pub IsHeader : Header → Type 0
IsHeader [] = Unit {0}
IsHeader (e ∷ h) = IsEntry e × Absent e.0 h × IsHeader h

put-Absent :
    (h : Header) (k : Bytes) (vs : List Bytes) → Absent k h → put h k vs ≡ h ++ ((k, vs) ∷ [])
unfolding put
put-Absent [] k vs a = refl
put-Absent ((j, us) ∷ h) k vs (n, a) = ground (arith, bytes_eq_iff j k, put-Absent h k vs a)

texts-items : (l : List Bytes) → texts (items l) ≡ l
unfolding texts items
texts-items [] = refl
texts-items (s ∷ l) = rw (texts-items l) refl

add_entry-value_of :
    (h : Header) (k : Bytes) (vs : List Bytes)
    → IsEntry (k, vs)
    → add_entry h (text_key k, value_of vs) ≡ put h k vs
unfolding add_entry value_of set put_values items texts
add_entry-value_of h k [] (c, n) = absurd (n refl)
add_entry-value_of h k (s ∷ []) (c, n) = rw c refl
add_entry-value_of h k (s ∷ t ∷ l) (c, n) = rw (c, texts-items l) refl

-- The entries that are there and those that are added have no name in common.
abbrev Apart : Header → Header → Type 0
Apart acc h = All (λ e. Absent e.0 acc) h

Apart-snoc :
    (acc h : Header) (k : Bytes) (vs : List Bytes)
    → Absent k h
    → Apart acc h
    → Apart (acc ++ ((k, vs) ∷ [])) h
Apart-snoc acc [] k vs a p = tt
Apart-snoc acc ((j, us) ∷ h) k vs (n, a) (p, q) = (
  All-append (λ e. e.0 ≢ j) acc ((k, vs) ∷ []) p ((λ e. n (sym e)), tt),
  Apart-snoc acc h k vs a q,
)

add_entries-go_headers_to_lua :
    (acc h : Header) → IsHeader h → Apart acc h → add_entries acc (go_headers_to_lua h) ≡ acc ++ h
unfolding add_entries go_headers_to_lua
add_entries-go_headers_to_lua acc [] i p = sym (append-nil acc)
add_entries-go_headers_to_lua acc ((k, vs) ∷ h) (i, a, j) (p, q) =
    ap (λ b. add_entries b (go_headers_to_lua h))
      (add_entry-value_of acc k vs i ∙ put-Absent acc k vs p)
    ∙ add_entries-go_headers_to_lua (acc ++ ((k, vs) ∷ [])) h j (Apart-snoc acc h k vs a q)
    ∙ append_assoc acc ((k, vs) ∷ []) h

Apart-nil : (h : Header) → Apart [] h
Apart-nil [] = tt
Apart-nil (e ∷ h) = (tt, Apart-nil h)

-- A header whose names are canonical and distinct, each with some value, comes back from the Lua
-- table that is made of it as it was, where the script leaves the table alone.
pub lua_table_to_go_headers-go_headers_to_lua :
    (h : Header) → IsHeader h → lua_table_to_go_headers (go_headers_to_lua h) ≡ h
unfolding lua_table_to_go_headers
lua_table_to_go_headers-go_headers_to_lua h i = add_entries-go_headers_to_lua [] h i (Apart-nil h)
