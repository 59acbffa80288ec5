-- ===== src/Rewrite/Tables.antt =====
-- examples/rewrite_by_lua_v2/internal/lua.go: headers as Lua tables, and calls that return a string.
pub mod RoundTrip
use mitm_proxy.Base.{Bool, true, false, List, [], ◌∷◌, ◌++◌, Option, none, some, if◌then◌else◌}
use mitm_proxy.Text.{Bytes, bytes}
use mitm_proxy.Http.Error.{GoError, other, Result, ok, err}
use mitm_proxy.Http.Header.{Header, canonical, put, set, del}

pub data Key : Type 0 where
  text_key : Bytes → Key
  other_key : Key

-- An element of a table that stands in a table.
pub data Item : Type 0 where
  text_item : Bytes → Item
  other_item : Item

pub data LuaValue : Type 0 where
  nil other_value : LuaValue
  bool : Bool → LuaValue
  text : Bytes → LuaValue
  table : List Item → LuaValue

-- The entries in the order in which ForEach takes them.
abbrev pub LuaTable : Type 0
LuaTable = List (Key × LuaValue)

unfoldable pub items : List Bytes → List Item
items [] = []
items (s ∷ l) = text_item s ∷ items l

unfoldable pub value_of : List Bytes → LuaValue
unfolding items
value_of (s ∷ []) = text s
value_of [] = table []
value_of (s ∷ t ∷ l) = table (items (s ∷ t ∷ l))

-- `GoHeadersToLua`
unfoldable pub go_headers_to_lua : Header → LuaTable
go_headers_to_lua [] = []
go_headers_to_lua ((k, vs) ∷ h) = (text_key k, value_of vs) ∷ go_headers_to_lua h

unfoldable pub texts : List Item → List Bytes
texts [] = []
texts (text_item s ∷ l) = s ∷ texts l
texts (other_item ∷ l) = texts l

unfoldable pub put_values : Header → Bytes → List Bytes → Header
put_values h key [] = del h key
put_values h key (v ∷ vs) = put h (canonical key) (v ∷ vs)

-- The callback of ForEach.
unfoldable pub add_entry : Header → Key × LuaValue → Header
add_entry h (other_key, v) = h
add_entry h (text_key key, nil) = del h key
add_entry h (text_key key, bool true) = h
add_entry h (text_key key, bool false) = del h key
add_entry h (text_key key, text s) = set h key s
add_entry h (text_key key, table l) = put_values h key (texts l)
add_entry h (text_key key, other_value) = h

unfoldable pub add_entries : Header → LuaTable → Header
add_entries h [] = h
add_entries h (e ∷ t) = add_entries (add_entry h e) t

-- `LuaTableToGoHeaders`
unfoldable pub lua_table_to_go_headers : LuaTable → Header
lua_table_to_go_headers t = add_entries [] t

-- What a call leaves, read as a string.
unfoldable pub text_of : LuaValue → Bytes
text_of nil = []
text_of other_value = []
text_of (bool b) = []
text_of (text s) = s
text_of (table l) = []

-- `CallLuaString`, where the global of that name is missing (none) or returns; `quote` is `%q`.
unfoldable pub call_lua_string :
    (Bytes → Bytes) → Bytes → Option (Bytes → Result LuaValue) → Bytes → Result Bytes
call_lua_string quote name none arg =
    err (other (bytes "lua function " ++ (quote name ++ bytes " not found")))
call_lua_string quote name (some fn) arg = elim (fn arg) [ err e ↦ err e | ok v ↦ ok (text_of v) ]
