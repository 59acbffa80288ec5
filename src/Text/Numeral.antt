-- ===== src/Text/Numeral.antt =====
-- The numerals that package fmt prints for `%d` and `%x`, and their readers.
use mitm_proxy.Base.{
  ℕ, zero, suc, ◌+◌, ◌-◌, ◌*◌, ◌/◌, ◌%◌, ◌≤◌, ◌<◌, ◌≡◌, ◌≢◌, refl, ◌&&◌, [], ◌∷◌, Option, none,
  some, arith, ltb, leb, ◌==◌, if◌then◌else◌, All,
}
use native.Mathlib.Nat.{mod-lt, div-add-mod', div-lt_self}
use mitm_proxy.Text.{Bytes, bytes}

digit : ℕ → ℕ
digit d = if ltb d 10 then b'0' + d else b'a' + (d - 10)

digit_value : ℕ → Option ℕ
digit_value c =
    if leb b'0' c && leb c b'9'
    then some (c - b'0')
    else if leb b'a' c && leb c b'f'
    then some (c - b'a' + 10)
    else none

digit_value-digit : (d : ℕ) → d < 16 → digit_value (digit d) ≡ some d
unfolding digit digit_value
digit_value-digit d h = ground arith

-- The digits of `n` in the base, in front of `out`; `n + 1` rounds are enough.
numeral : ℕ → ℕ → ℕ → Bytes → Bytes
numeral base zero n out = out
numeral base (suc f) n out =
    let more = numeral base f (n / base) (digit (n % base) ∷ out) in
    if n / base == 0 then digit (n % base) ∷ out else more

-- Reads digits of the base behind the value `acc`; `none` on any other byte.
read : ℕ → Bytes → ℕ → Option ℕ
read base [] acc = some acc
read base (c ∷ s) acc = elim (digit_value c) [
  | none ↦ none
  | some d ↦ if ltb d base then read base s (acc * base + d) else none
]

read-digit :
    (base d : ℕ) (out : Bytes) (acc : ℕ)
    → d < base
    → base ≤ 16
    → read base (digit d ∷ out) acc ≡ read base out (acc * base + d)
unfolding read
read-digit base d out acc h k = ground (arith, digit_value-digit d)

module _ (base : ℕ) (low : 2 ≤ base) (high : base ≤ 16) where
  read-last :
      (n : ℕ) (out : Bytes) → read base (digit (n % base) ∷ out) (n / base) ≡ read base out n
  read-last n out =
      rw (
        read-digit base (n % base) out (n / base) (mod-lt n (omega arith)) high,
        div-add-mod' n base,
      )

  read-first :
      (n : ℕ) (out : Bytes) → n / base ≡ 0 → read base (digit (n % base) ∷ out) 0 ≡ read base out n
  read-first n out e = rw (← e) (read-last n out)

  shrinks : (f n : ℕ) → n < suc f → n / base ≢ 0 → n / base < f
  shrinks f n h k =
      let positive : 0 < n = grind (arith, div-add-mod' n base) in
      omega (arith, div-lt_self {k = base} positive (omega arith))

  read-numeral :
      (f n : ℕ) (out : Bytes) → n < f → read base (numeral base f n out) 0 ≡ read base out n
  unfolding numeral
  read-numeral zero n out h = absurd (omega arith)
  read-numeral (suc f) n out h = ground (
    arith,
    read-first n out,
    shrinks f n,
    read-numeral f (n / base) (digit (n % base) ∷ out),
    read-last n out,
  )

-- strings of digits hold no byte below '0', a carriage return among them
abbrev pub Digits : Bytes → Type 0
Digits = All (λ c. b'0' ≤ c)

digit-ge : (d : ℕ) → b'0' ≤ digit d
unfolding digit
digit-ge d = ground arith

numeral-Digits : (base f n : ℕ) (out : Bytes) → Digits out → Digits (numeral base f n out)
unfolding numeral
numeral-Digits base zero n out h = h
numeral-Digits base (suc f) n out h =
    ground (arith, digit-ge (n % base), numeral-Digits base f (n / base) (digit (n % base) ∷ out))

numeral-ne-nil : (base f n : ℕ) (out : Bytes) → out ≢ [] → numeral base f n out ≢ []
unfolding numeral
numeral-ne-nil base zero n out h = h
numeral-ne-nil base (suc f) n out h =
    ground (arith, numeral-ne-nil base f (n / base) (digit (n % base) ∷ out))

print-ne-nil : (base f n : ℕ) → numeral base (suc f) n [] ≢ []
unfolding numeral
print-ne-nil base f n = ground (arith, numeral-ne-nil base f (n / base) (digit (n % base) ∷ []))

-- fmt's `%d`
unfoldable pub decimal : ℕ → Bytes
unfolding numeral digit
decimal n = numeral 10 (suc n) n []

-- fmt's `%x`
unfoldable pub hex : ℕ → Bytes
unfolding numeral digit
hex n = numeral 16 (suc n) n []

read_number : ℕ → Bytes → Option ℕ
read_number base [] = none
read_number base (c ∷ s) = read base (c ∷ s) 0

unfoldable pub read_decimal : Bytes → Option ℕ
unfolding read_number read digit_value
read_decimal = read_number 10

unfoldable pub read_hex : Bytes → Option ℕ
unfolding read_number read digit_value
read_hex = read_number 16

read_number-ne-nil : (base : ℕ) (s : Bytes) → s ≢ [] → read_number base s ≡ read base s 0
unfolding read_number
read_number-ne-nil base [] h = absurd (h refl)
read_number-ne-nil base (c ∷ s) h = refl

module _ (base : ℕ) (low : 2 ≤ base) (high : base ≤ 16) where
  read_number-numeral : (n : ℕ) → read_number base (numeral base (suc n) n []) ≡ some n
  read_number-numeral n =
      rw
        (
          read_number-ne-nil base _ (print-ne-nil base n n),
          read-numeral base low high (suc n) n [] (omega arith),
        )
        (unfold read in refl)

pub read_decimal-decimal : (n : ℕ) → read_decimal (decimal n) ≡ some n
unfolding read_decimal decimal
read_decimal-decimal = read_number-numeral 10 (omega arith) (omega arith)

pub read_hex-hex : (n : ℕ) → read_hex (hex n) ≡ some n
unfolding read_hex hex
read_hex-hex = read_number-numeral 16 (omega arith) (omega arith)

pub decimal-Digits : (n : ℕ) → Digits (decimal n)
unfolding decimal
decimal-Digits n = numeral-Digits 10 (suc n) n [] tt

pub hex-Digits : (n : ℕ) → Digits (hex n)
unfolding hex
hex-Digits n = numeral-Digits 16 (suc n) n [] tt

pub decimal-ne-nil : (n : ℕ) → decimal n ≢ []
unfolding decimal
decimal-ne-nil n = print-ne-nil 10 n n

hex_example : hex 3072 ≡ bytes "c00"
unfolding hex bytes
hex_example = refl

decimal_example : decimal 1024 ≡ bytes "1024"
unfolding decimal bytes
decimal_example = refl
