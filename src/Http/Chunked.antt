-- ===== src/Http/Chunked.antt =====
-- How an HTTP/1.1 reader takes a body off a stream: by its length, or chunk by chunk.
-- This is the receiving side of RFC 9112, which the proxy's writers are held against.
pub mod Laws
use mitm_proxy.Base.{
  ℕ, zero, suc, Bool, true, false, ◌&&◌, List, [], ◌∷◌, ◌++◌, Option, none, some, leb, ◌==◌,
  if◌then◌else◌, take, drop, length, ◌≡◌, refl,
}
use mitm_proxy.Text.{Bytes, bytes, bytes_eq}
use mitm_proxy.Text.Numeral.{read_decimal, read_hex}
use mitm_proxy.Http.Header.{Header, get}

infixl 5 ◌>>=◌
abbrev pub ◌>>=◌ {ℓ κ} : {A : Type ℓ} {B : Type κ} → Option A → (A → Option B) → Option B
none >>= f = none
some a >>= f = f a

-- The line feed behind a carriage return.
unfoldable pub line_feed : Bytes → Option Bytes
line_feed [] = none
line_feed (c ∷ s) = if c == 10 then some s else none

-- The text in front of the first CR LF, and the text behind it.
unfoldable pub read_line : Bytes → Option (Bytes × Bytes)
unfolding line_feed
read_line [] = none
read_line (c ∷ s) =
    let longer : Option (Bytes × Bytes) = (do (line, rest) ← read_line s; some (c ∷ line, rest)) in
    if c == 13 then (do rest ← line_feed s; some ([], rest)) else longer

unfoldable pub end_line : Bytes → Option Bytes
unfolding line_feed
end_line [] = none
end_line (c ∷ s) = if c == 13 then line_feed s else none

unfoldable pub split_at : ℕ → Bytes → Option (Bytes × Bytes)
unfolding take drop
split_at n s = if leb n (length s) then some (take n s, drop n s) else none

-- The content of a chunked body, and the text behind it; one round for each chunk.
unfoldable pub dechunk : ℕ → Bytes → Option (Bytes × Bytes)
unfolding read_line end_line split_at
dechunk zero s = none
dechunk (suc f) s = do
  (line, rest) ← read_line s
  n ← read_hex line
  if n == 0 then (do tail ← end_line rest; some ([], tail)) else (do
    (chunk, behind) ← split_at n rest
    next ← end_line behind
    (content, tail) ← dechunk f next
    some (chunk ++ content, tail))

-- The body that the headers announce at the front of the stream, and what follows it. `none` where
-- they announce no length or the stream breaks the format.
unfoldable pub read_body : ℕ → Header → Bytes → Option (Bytes × Bytes)
unfolding dechunk split_at
read_body f h s =
    if bytes_eq (get h (bytes "Transfer-Encoding")) (bytes "chunked")
    then dechunk f s
    else (do n ← read_decimal (get h (bytes "Content-Length")); split_at n s)

two_chunks :
    dechunk 3 (bytes "2\r\nab\r\n1\r\nc\r\n0\r\n\r\nHTTP") ≡ some (bytes "abc", bytes "HTTP")
unfolding dechunk bytes read_hex
two_chunks = refl
