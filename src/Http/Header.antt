-- ===== src/Http/Header.antt =====
-- http.Header: values under canonical names, as an association list.
pub mod Laws
use mitm_proxy.Base.{
  ℕ, ◌≡◌, refl, Bool, true, false, ◌&&◌, ◌||◌, List, [], ◌∷◌, ◌==◌, leb, if◌then◌else◌, map, ◌++◌,
  not,
}
use mathlib.Core.List.{reverse}
use mitm_proxy.Text.{Bytes, bytes, bytes_eq, upper_byte, lower_byte, is_empty, crlf}

abbrev pub Header : Type 0
Header = List (Bytes × List Bytes)

member : ℕ → Bytes → Bool
member c [] = false
member c (d ∷ s) = (c == d) || member c s

-- a byte that may stand in a header's name
valid_byte : ℕ → Bool
unfolding member bytes
valid_byte c =
    (leb b'0' c && leb c b'9')
    || (leb b'a' c && leb c b'z')
    || (leb b'A' c && leb c b'Z')
    || member c (bytes "!#$%&'*+-.^_`|~")

all_valid : Bytes → Bool
unfolding valid_byte
all_valid [] = true
all_valid (c ∷ s) = valid_byte c && all_valid s

-- the argument is true where a capital is due
capitalised : Bool → Bytes → Bytes
unfolding upper_byte lower_byte
capitalised upper [] = []
capitalised upper (c ∷ s) =
    (if upper then upper_byte c else lower_byte c) ∷ capitalised (c == b'-') s

-- textproto.CanonicalMIMEHeaderKey
unfoldable pub canonical : Bytes → Bytes
unfolding all_valid capitalised
canonical s = if all_valid s then capitalised true s else s

unfoldable pub values : Header → Bytes → List Bytes
unfolding bytes_eq
values [] k = []
values ((j, vs) ∷ h) k = if bytes_eq j k then vs else values h k

abbrev first : List Bytes → Bytes
first [] = []
first (v ∷ vs) = v

-- `h.Get(k)`
unfoldable pub get : Header → Bytes → Bytes
unfolding values canonical
get h k = first (values h (canonical k))

unfoldable pub put : Header → Bytes → List Bytes → Header
unfolding bytes_eq
put [] k vs = (k, vs) ∷ []
put ((j, us) ∷ h) k vs = if bytes_eq j k then (k, vs) ∷ h else (j, us) ∷ put h k vs

-- `h.Set(k, v)`
unfoldable pub set : Header → Bytes → Bytes → Header
unfolding put canonical
set h k v = put h (canonical k) (v ∷ [])

unfoldable pub remove : Header → Bytes → Header
unfolding bytes_eq
remove [] k = []
remove ((j, vs) ∷ h) k = if bytes_eq j k then remove h k else (j, vs) ∷ remove h k

-- `h.Del(k)`
unfoldable pub del : Header → Bytes → Header
unfolding remove canonical
del h k = remove h (canonical k)

same_name : canonical (bytes "content-TYPE") ≡ bytes "Content-Type"
unfolding canonical bytes
same_name = refl

-- keys in the order of their bytes
key_le : Bytes → Bytes → Bool
key_le [] t = true
key_le (a ∷ s) [] = false
key_le (a ∷ s) (b ∷ t) = if a == b then key_le s t else leb a b

place : Bytes × List Bytes → Header → Header
unfolding key_le
place e [] = e ∷ []
place (k, vs) ((j, us) ∷ h) =
    if key_le k j then (k, vs) ∷ (j, us) ∷ h else (j, us) ∷ place (k, vs) h

sorted : Header → Header
unfolding place
sorted [] = []
sorted (e ∷ h) = place e (sorted h)

is_space : ℕ → Bool
is_space c = c == 32 || c == 9 || c == 10 || c == 13

trim_left : Bytes → Bytes
unfolding is_space
trim_left [] = []
trim_left (c ∷ s) = if is_space c then trim_left s else c ∷ s

-- textproto.TrimString behind the replacement of line ends by spaces
clean : Bytes → Bytes
unfolding trim_left
clean v =
    reverse (trim_left (reverse (trim_left (map (λ c. if c == 10 || c == 13 then 32 else c) v))))

value_pieces : Bytes → List Bytes → List Bytes
unfolding clean
value_pieces k [] = []
value_pieces k (v ∷ vs) = k ∷ bytes ": " ∷ clean v ∷ crlf ∷ value_pieces k vs

pieces_of : Header → List Bytes
unfolding value_pieces all_valid
pieces_of [] = []
pieces_of ((k, vs) ∷ h) =
    (if not (is_empty k) && all_valid k then value_pieces k vs else []) ++ pieces_of h

-- The strings that `h.Write(w)` writes, one after the other, until one write fails.
unfoldable pub header_pieces : Header → List Bytes
unfolding pieces_of sorted
header_pieces h = pieces_of (sorted h)
