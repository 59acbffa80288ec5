-- ===== src/DevTool/Body/Callbacks.antt =====
-- The callbacks of a tracked body, and its channel.
use mitm_proxy.Base.{
  ℕ, ◌+◌, ◌≡◌, refl, ap, ◌∙◌, true, false, not, List, [], ◌∷◌, ◌++◌, arith, ◌==◌, subst, sym,
  branch, Bool-cases, inl, inr, if◌then◌else◌,
}
use mitm_proxy.Text.{Bytes}
use mitm_proxy.DevTool.Body.{
  StreamTrackingBody, new_stream_tracking_body, close_once, mark_done, copied, on_read_done,
  mark_read_done, call_next, Event, copy_ends, asks, marks, call, step, run, called,
}

-- How often `k` stands in the list.
unfoldable pub count : ℕ → List ℕ → ℕ
count k [] = 0
count k (j ∷ l) = (if j == k then 1 else 0) + count k l

count-append : (k : ℕ) (l m : List ℕ) → count k (l ++ m) ≡ count k l + count k m
unfolding count
count-append k [] m = omega arith
count-append k (j ∷ l) m = omega (arith, count-append k l m)

-- The callbacks that were registered.
unfoldable pub asked : List Event → List ℕ
asked [] = []
asked (asks k ∷ es) = k ∷ asked es
asked (copy_ends buf ∷ es) = asked es
asked (marks ∷ es) = asked es
asked (call ∷ es) = asked es

-- The calls that were made or are still to come are those that were asked for, the channel is closed
-- when the body is done and then only once, and no callback waits behind that.
pub record IsKept (s : StreamTrackingBody) (n : ℕ → ℕ) : Type 0 where
  pub calls : (k : ℕ) → count k s.ran + count k s.due + count k s.read_done_callbacks ≡ n k
  pub opened : s.is_read_done ≡ false → (s.once ≡ false) × (s.closes ≡ 0)
  pub closed :
      s.is_read_done ≡ true → (s.once ≡ true) × (s.closes ≡ 1) × (s.read_done_callbacks ≡ [])

new-IsKept : IsKept new_stream_tracking_body (λ k. 0)
unfolding new_stream_tracking_body count
new-IsKept = record { calls = λ k. refl; opened = λ e. (refl, refl); closed = λ e. cc }

close_once_used : (s : StreamTrackingBody) → s.once ≡ true → close_once s ≡ s
unfolding close_once
close_once_used s h = rw h refl

close_once_fresh :
    (s : StreamTrackingBody)
    → s.once ≡ false
    → close_once s ≡ record s { once = true; closes = s.closes + 1 }
unfolding close_once
close_once_fresh s h = rw h refl

-- The callbacks are moved on, and none is lost.
moved :
    (s : StreamTrackingBody) (n k : ℕ)
    → count k s.ran + count k s.due + count k s.read_done_callbacks ≡ n
    → count k s.ran + count k (s.due ++ s.read_done_callbacks) + count k [] ≡ n
moved s n k h = unfold count in omega (arith, h, count-append k s.due s.read_done_callbacks)

mark_done-IsKept : (s : StreamTrackingBody) (n : ℕ → ℕ) → IsKept s n → IsKept (mark_done s) n
unfolding mark_done
mark_done-IsKept s n kept =
    let s' : StreamTrackingBody = record s {
      is_read_done = true;
      due = s.due ++ s.read_done_callbacks;
      read_done_callbacks = [];
    } in
    elim (Bool-cases s.is_read_done) [
      | inl e ↦
          let (used, once, _) = kept.closed e in
          subst (λ t. IsKept t n) (sym (close_once_used s' used))
            (record {
              calls = λ k. moved s (n k) k (kept.calls k);
              opened = λ f. cc;
              closed = λ f. (used, once, refl);
            })
      | inr e ↦
          let (fresh, never) = kept.opened e in
          subst (λ t. IsKept t n) (sym (close_once_fresh s' fresh))
            (record {
              calls = λ k. moved s (n k) k (kept.calls k);
              opened = λ f. cc;
              closed = λ f. (refl, omega (arith, never), refl);
            })
    ]

same-IsKept :
    (s : StreamTrackingBody) (n m : ℕ → ℕ) → ((k : ℕ) → n k ≡ m k) → IsKept s n → IsKept s m
same-IsKept s n m h kept = record {
  calls = λ k. kept.calls k ∙ h k;
  opened = kept.opened;
  closed = kept.closed;
}

copied-IsKept :
    (buf : Bytes) (s : StreamTrackingBody) (n : ℕ → ℕ) → IsKept s n → IsKept (copied buf s) n
unfolding copied
copied-IsKept buf s n kept =
    branch (λ t. IsKept t n) s.copying
      (λ e.
        mark_done-IsKept (record s { content = buf; copying = false }) n
          (record { calls = kept.calls; opened = kept.opened; closed = kept.closed }))
      (λ e. kept)

mark_read_done-IsKept :
    (s : StreamTrackingBody) (n : ℕ → ℕ) → IsKept s n → IsKept (mark_read_done s) n
unfolding mark_read_done
mark_read_done-IsKept s n kept =
    branch (λ t. IsKept t n) (not s.is_read_done) (λ e. mark_done-IsKept s n kept) (λ e. kept)

-- `j` is one of the calls that are counted.
abbrev once_more : ℕ → ℕ → ℕ
once_more j k = if j == k then 1 else 0

on_read_done-IsKept :
    (j : ℕ) (s : StreamTrackingBody) (n : ℕ → ℕ)
    → IsKept s n
    → IsKept (on_read_done j s) (λ k. n k + once_more j k)
unfolding on_read_done count
on_read_done-IsKept j s n kept =
    branch (λ t. IsKept t (λ k. n k + once_more j k)) s.is_read_done
      (λ e. record {
        calls = λ k. omega (arith, kept.calls k);
        opened = kept.opened;
        closed = kept.closed;
      })
      (λ e. record {
        calls = λ k. omega (arith, kept.calls k, count-append k s.read_done_callbacks (j ∷ []));
        opened = kept.opened;
        closed = λ f. cc;
      })

called-IsKept :
    (l : List ℕ) (s : StreamTrackingBody) (n : ℕ → ℕ)
    → s.due ≡ l
    → IsKept s n
    → IsKept (called l s) n
unfolding called count
called-IsKept [] s n e kept = kept
called-IsKept (j ∷ l) s n e kept = record {
  calls = λ k. omega (arith, kept.calls k, ap (count k) e);
  opened = kept.opened;
  closed = kept.closed;
}

-- What an event adds to the calls that were asked for.
abbrev added : Event → ℕ → ℕ
added (asks j) k = once_more j k
added _ k = 0

step-IsKept :
    (e : Event) (s : StreamTrackingBody) (n : ℕ → ℕ)
    → IsKept s n
    → IsKept (step e s) (λ k. n k + added e k)
unfolding step call_next
step-IsKept (copy_ends buf) s n kept =
    same-IsKept (copied buf s) n (λ k. n k + 0) (λ k. omega arith) (copied-IsKept buf s n kept)
step-IsKept (asks k) s n kept = on_read_done-IsKept k s n kept
step-IsKept marks s n kept =
    same-IsKept (mark_read_done s) n (λ k. n k + 0) (λ k. omega arith)
      (mark_read_done-IsKept s n kept)
step-IsKept call s n kept =
    same-IsKept (called s.due s) n (λ k. n k + 0) (λ k. omega arith)
      (called-IsKept s.due s n refl kept)

count-asked :
    (e : Event) (es : List Event) (k : ℕ)
    → count k (asked (e ∷ es)) ≡ added e k + count k (asked es)
unfolding asked count
count-asked (asks j) es k = refl
count-asked (copy_ends buf) es k = omega arith
count-asked marks es k = omega arith
count-asked call es k = omega arith

run-IsKept :
    (es : List Event) (s : StreamTrackingBody) (n : ℕ → ℕ)
    → IsKept s n
    → IsKept (run es s) (λ k. n k + count k (asked es))
unfolding run
run-IsKept [] s n kept =
    same-IsKept s n (λ k. n k + count k (asked [])) (λ k. unfold asked count in omega arith) kept
run-IsKept (e ∷ es) s n kept =
    same-IsKept (run es (step e s)) (λ k. n k + added e k + count k (asked es))
      (λ k. n k + count k (asked (e ∷ es))) (λ k. omega (arith, count-asked e es k))
      (run-IsKept es (step e s) (λ k. n k + added e k) (step-IsKept e s n kept))

-- Whatever the copy, the waits and the callers of OnReadDone do, in any order: each callback has been
-- called, is about to be called or waits as often as it was registered, all together; and the channel
-- is open while the body is not done, and behind that has been closed once, with no callback waiting.
pub run-IsKept_new :
    (es : List Event) → IsKept (run es new_stream_tracking_body) (λ k. count k (asked es))
run-IsKept_new es =
    same-IsKept (run es new_stream_tracking_body) (λ k. 0 + count k (asked es))
      (λ k. count k (asked es)) (λ k. omega arith)
      (run-IsKept es new_stream_tracking_body (λ k. 0) new-IsKept)
