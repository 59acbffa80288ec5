-- ===== src/Text/Base64.antt =====
-- base64.StdEncoding, with a reader to hold it against.
use mitm_proxy.Base.{
  ℕ, ◌+◌, ◌-◌, ◌*◌, ◌/◌, ◌%◌, ◌<◌, ◌≡◌, refl, [], ◌∷◌, false, ap, arith, ltb, leb, ◌==◌,
  if◌then◌else◌, ◌&&◌, All,
}
use mitm_proxy.Text.{Bytes, bytes}

pub sextet : ℕ → ℕ
sextet n =
    if ltb n 26
    then b'A' + n
    else if ltb n 52
    then b'a' + (n - 26)
    else if ltb n 62
    then b'0' + (n - 52)
    else if n == 62
    then b'+'
    else b'/'

unsextet : ℕ → ℕ
unsextet c =
    if leb b'A' c && leb c b'Z'
    then c - b'A'
    else if leb b'a' c && leb c b'z'
    then c - b'a' + 26
    else if leb b'0' c && leb c b'9'
    then c - b'0' + 52
    else if c == b'+'
    then 62
    else 63

unsextet-sextet : (n : ℕ) → n < 64 → unsextet (sextet n) ≡ n
unfolding sextet unsextet
unsextet-sextet n h = ground arith

sextet-ne-pad : (n : ℕ) → n < 64 → (sextet n == b'=') ≡ false
unfolding sextet
sextet-ne-pad n h = ground arith

-- base64.StdEncoding.EncodeToString
unfoldable pub encode : Bytes → Bytes
encode [] = []
encode (a ∷ []) = sextet (a / 4) ∷ sextet (a % 4 * 16) ∷ b'=' ∷ b'=' ∷ []
encode (a ∷ b ∷ []) =
    sextet (a / 4) ∷ sextet (a % 4 * 16 + b / 16) ∷ sextet (b % 16 * 4) ∷ b'=' ∷ []
encode (a ∷ b ∷ c ∷ s) =
    sextet (a / 4)
    ∷ sextet (a % 4 * 16 + b / 16)
    ∷ sextet (b % 16 * 4 + c / 64)
    ∷ sextet (c % 64)
    ∷ encode s

-- The bytes that four sextets spell.
first_byte : ℕ → ℕ → ℕ
first_byte x y = unsextet x * 4 + unsextet y / 16

second_byte : ℕ → ℕ → ℕ
second_byte y z = unsextet y % 16 * 16 + unsextet z / 4

third_byte : ℕ → ℕ → ℕ
third_byte z w = unsextet z % 4 * 64 + unsextet w

pub decode : Bytes → Bytes
decode (x ∷ y ∷ z ∷ w ∷ s) =
    let rest = decode s in
    if z == b'='
    then first_byte x y ∷ []
    else if w == b'='
    then first_byte x y ∷ second_byte y z ∷ []
    else first_byte x y ∷ second_byte y z ∷ third_byte z w ∷ rest
decode s = []

first_lem : (a m : ℕ) → a < 256 → m < 16 → first_byte (sextet (a / 4)) (sextet (a % 4 * 16 + m)) ≡ a
unfolding first_byte
first_lem a m h k =
    rw (unsextet-sextet (a / 4) (omega arith), unsextet-sextet (a % 4 * 16 + m) (omega arith))
      (omega arith)

second_lem :
    (a b m : ℕ)
    → b < 256
    → m < 4
    → second_byte (sextet (a % 4 * 16 + b / 16)) (sextet (b % 16 * 4 + m)) ≡ b
unfolding second_byte
second_lem a b m h k =
    rw
      (
        unsextet-sextet (a % 4 * 16 + b / 16) (omega arith),
        unsextet-sextet (b % 16 * 4 + m) (omega arith),
      )
      (omega arith)

third_lem : (b c : ℕ) → c < 256 → third_byte (sextet (b % 16 * 4 + c / 64)) (sextet (c % 64)) ≡ c
unfolding third_byte
third_lem b c h =
    rw (unsextet-sextet (b % 16 * 4 + c / 64) (omega arith), unsextet-sextet (c % 64) (omega arith))
      (omega arith)

-- Every string of bytes is read back from its encoding.
pub decode-encode : (s : Bytes) → All (λ c. c < 256) s → decode (encode s) ≡ s
unfolding decode encode
decode-encode [] h = refl
decode-encode (a ∷ []) h =
    let pad : a % 4 * 16 ≡ a % 4 * 16 + 0 = omega arith in
    ap (λ t. t ∷ []) (rw pad (first_lem a 0 (omega arith) (omega arith)))
decode-encode (a ∷ b ∷ []) h =
    let pad : b % 16 * 4 ≡ b % 16 * 4 + 0 = omega arith in
    rw pad (ground (arith, sextet-ne-pad (b % 16 * 4 + 0), first_lem a (b / 16), second_lem a b 0))
decode-encode (a ∷ b ∷ c ∷ s) h = ground (
  arith,
  sextet-ne-pad (b % 16 * 4 + c / 64),
  sextet-ne-pad (c % 64),
  first_lem a (b / 16),
  second_lem a b (c / 64),
  third_lem b c,
  decode-encode s,
)

padded : encode (bytes "user:pw") ≡ bytes "dXNlcjpwdw=="
unfolding encode sextet bytes
padded = refl
