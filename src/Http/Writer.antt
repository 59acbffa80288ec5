-- ===== src/Http/Writer.antt =====
-- io.Writer as an interface: the operation with its documented contract.
use mitm_proxy.Base.{
  ℕ, ◌-◌, ap, ◌∙◌, ◌≡◌, refl, Option, none, some, ◌++◌, arith, leb, if◌then◌else◌, [], length, take,
  take_all,
}
use mitm_proxy.Text.{Bytes}
use mitm_proxy.Http.Error.{GoError, other}

-- What `Write` returns, with the writer as it leaves it.
pub record Wrote (W : Type 0) : Type 0 where
  pub after : W
  pub count : ℕ
  pub fault : Option GoError

-- `sent` is everything that the writer has taken so far. A write takes the first `count` bytes,
-- and a short write returns an error.
pub record Writer (W : Type 0) : Type 0 where
  pub write : W → Bytes → Wrote W
  pub sent : W → Bytes
  pub takes : (w : W) (p : Bytes) → sent (write w p).after ≡ sent w ++ take (write w p).count p
  pub short_fails : (w : W) (p : Bytes) → (write w p).fault ≡ none → (write w p).count ≡ length p

-- A connection that takes a limited number of bytes, for the examples.
pub record Pipe : Type 0 where
  pub taken : Bytes
  pub room : ℕ

unfoldable pub pipe_write : Pipe → Bytes → Wrote Pipe
unfolding take
pipe_write c p =
    if leb (length p) c.room
    then record {
      after = record { taken = c.taken ++ p; room = c.room - length p };
      count = length p;
      fault = none;
    }
    else record {
      after = record { taken = c.taken ++ take c.room p; room = 0 };
      count = c.room;
      fault = some (other []);
    }

pub pipe_takes :
    (c : Pipe) (p : Bytes) → (pipe_write c p).after.taken ≡ c.taken ++ take (pipe_write c p).count p
unfolding pipe_write
pipe_takes c p = ground (arith, take_all (length p) p)

pub pipe_short_fails :
    (c : Pipe) (p : Bytes) → (pipe_write c p).fault ≡ none → (pipe_write c p).count ≡ length p
unfolding pipe_write
pipe_short_fails c p h = ground arith

unfoldable pub pipe : Writer Pipe
unfolding pipe_write
pipe = record {
  write = pipe_write;
  sent = λ c. c.taken;
  takes = pipe_takes;
  short_fails = pipe_short_fails;
}

-- No write fails, as with a buffer in memory.
abbrev pub IsReliable : {W : Type 0} → Writer W → Type 0
IsReliable {W} out = (w : W) (p : Bytes) → (out.write w p).fault ≡ none

pub sent-write :
    {W : Type 0} (out : Writer W)
    → IsReliable out
    → (w : W) (p : Bytes) → out.sent (out.write w p).after ≡ out.sent w ++ p
sent-write out safe w p =
    out.takes w p
    ∙ ap (◌++◌ (out.sent w))
        (rw (out.short_fails w p (safe w p)) (take_all (length p) p (omega arith)))

unfoldable pub buffer_write : Bytes → Bytes → Wrote Bytes
buffer_write b p = record { after = b ++ p; count = length p; fault = none }

pub buffer_takes : (b p : Bytes) → (buffer_write b p).after ≡ b ++ take (buffer_write b p).count p
unfolding buffer_write
buffer_takes b p = rw (take_all (length p) p (omega arith))

pub buffer_short_fails :
    (b p : Bytes) → (buffer_write b p).fault ≡ none → (buffer_write b p).count ≡ length p
unfolding buffer_write
buffer_short_fails b p h = refl

-- A buffer in memory, for the examples.
unfoldable pub buffer : Writer Bytes
unfolding buffer_write
buffer = record {
  write = buffer_write;
  sent = λ b. b;
  takes = buffer_takes;
  short_fails = buffer_short_fails;
}
