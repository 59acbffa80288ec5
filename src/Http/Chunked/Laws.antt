-- ===== src/Http/Chunked/Laws.antt =====
-- One chunk, and the last chunk, as the reader takes them.
use mitm_proxy.Base.{
  ℕ, suc, ◌≡◌, ◌≢◌, refl, [], ◌∷◌, ◌++◌, append_assoc, some, arith, length, length-append,
  take-append, drop-append,
}
use mitm_proxy.Text.{Bytes, bytes, crlf}
use mitm_proxy.Text.Numeral.{hex, read_hex, read_hex-hex, hex-Digits, Digits}
use mitm_proxy.Http.Chunked.{read_line, end_line, split_at, dechunk}

pub read_line-append :
    (line rest : Bytes) → Digits line → read_line (line ++ (crlf ++ rest)) ≡ some (line, rest)
unfolding read_line
read_line-append [] rest h = refl
read_line-append (c ∷ line) rest (g, h) = ground (arith, read_line-append line rest h)

pub split_at-append : (s t : Bytes) → split_at (length s) (s ++ t) ≡ some (s, t)
unfolding split_at
split_at-append s t = ground (arith, take-append s t, drop-append s t, length-append s t)

pub end_line-append : (s : Bytes) → end_line (crlf ++ s) ≡ some s
unfolding end_line
end_line-append s = refl

length-ne-zero : (s : Bytes) → s ≢ [] → length s ≢ 0
length-ne-zero [] h = absurd (h refl)
length-ne-zero (c ∷ s) h = omega arith

-- A nonempty chunk is read whole, and reading goes on behind it.
pub dechunk_chunk :
    (f : ℕ) (chunk s content tail : Bytes)
    → chunk ≢ []
    → dechunk f s ≡ some (content, tail)
    → dechunk (suc f) ((hex (length chunk) ++ crlf) ++ (chunk ++ (crlf ++ s)))
      ≡ some (chunk ++ content, tail)
unfolding dechunk
dechunk_chunk f chunk s content tail h e =
    let size = length chunk in
    let behind = chunk ++ (crlf ++ s) in
    rw (append_assoc (hex size) crlf behind) (
      rw (read_line-append (hex size) behind (hex-Digits size), dechunk)
        (rw (read_hex-hex size) (
          ground
            (arith, length-ne-zero chunk h, split_at-append chunk (crlf ++ s), end_line-append s))))

-- The empty chunk ends the body.
pub dechunk_last :
    (f : ℕ) (tail : Bytes) → dechunk (suc f) (bytes "0\r\n\r\n" ++ tail) ≡ some ([], tail)
unfolding dechunk bytes read_hex
dechunk_last f tail = refl
