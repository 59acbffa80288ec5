-- ===== src/Http/Error.antt =====
-- Go's error values: the sentinels that the proxy compares with, and errors that carry a message.
use mitm_proxy.Base.{Bool, true, false, ◌++◌, ◌≡◌, refl, ◌⊎◌, inl, inr}
use mitm_proxy.Text.{Bytes, bytes}

-- `wrap m e` is fmt.Errorf with `%w`: errors.Is and errors.As look through it.
pub data GoError : Type 0 where
  eof : GoError
  net_closed : GoError
  timeout : Bytes → GoError
  other : Bytes → GoError
  wrap : Bytes → GoError → GoError

-- `err.Error()`
pub error_text : GoError → Bytes
unfolding bytes
error_text eof = bytes "EOF"
error_text net_closed = bytes "use of closed network connection"
error_text (timeout m) = m
error_text (other m) = m
error_text (wrap m e) = m ++ error_text e

-- errors.Is(err, io.EOF)
unfoldable pub is_eof : GoError → Bool
is_eof eof = true
is_eof net_closed = false
is_eof (timeout m) = false
is_eof (other m) = false
is_eof (wrap m e) = is_eof e

-- errors.Is(err, net.ErrClosed)
unfoldable pub is_net_closed : GoError → Bool
is_net_closed eof = false
is_net_closed net_closed = true
is_net_closed (timeout m) = false
is_net_closed (other m) = false
is_net_closed (wrap m e) = is_net_closed e

-- errors.As(err, &netErr) && netErr.Timeout()
unfoldable pub is_timeout : GoError → Bool
is_timeout eof = false
is_timeout net_closed = false
is_timeout (timeout m) = true
is_timeout (other m) = false
is_timeout (wrap m e) = is_timeout e

-- The result `(value, err)` of a Go function.
pub data Result {ℓ} (A : Type ℓ) : Type ℓ where
  ok : A → Result A
  err : GoError → Result A

infixl 5 ◌>>=◌ ◌>>◌
abbrev pub ◌>>=◌ {ℓ κ} : {A : Type ℓ} {B : Type κ} → Result A → (A → Result B) → Result B
ok a >>= f = f a
err e >>= f = err e

abbrev pub ◌>>◌ {ℓ κ} : {A : Type ℓ} {B : Type κ} → Result A → Result B → Result B
m >> k = m >>= λ _. k

-- `if err != nil { return fmt.Errorf("…: %w", err) }`
abbrev pub wrapped {ℓ} : {A : Type ℓ} → Bytes → Result A → Result A
wrapped m (ok a) = ok a
wrapped m (err e) = err (wrap m e)

pub Result-cases {ℓ} :
    {A : Type ℓ} (r : Result A) → ((a : A) × (r ≡ ok a)) ⊎ ((e : GoError) × (r ≡ err e))
Result-cases (ok a) = inl (a, refl)
Result-cases (err e) = inr (e, refl)
