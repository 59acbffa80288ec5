-- ===== src/Examples/FakeNet.antt =====
-- A network in memory: every dial succeeds, and the connections below `good` give no response.
use mitm_proxy.Base.{
  ℕ, suc, ◌+◌, ◌-◌, ◌<◌, ◌≡◌, ◌≢◌, refl, List, [], ◌∷◌, Option, none, some, arith, ltb, ◌==◌,
  if◌then◌else◌, length,
}
use mitm_proxy.Text.{Bytes}
use mitm_proxy.Http.Error.{GoError, eof, other, Result, ok, err}
use mitm_proxy.Http.Message.{Request, Response, string_reader, drained}
use mitm_proxy.Net.Upstream.{Link, SentRequest, Upstream, Lifetimes, BodyRules, count}

pub record FakeNet : Type 0 where
  pub live : List ℕ
  pub next : ℕ
  pub good : ℕ

pub answer : Response
answer = record {
  status_code = 200;
  status = [];
  header = [];
  content_length = none;
  body = string_reader [];
}

unfoldable pub dial : FakeNet → Bytes → Result ℕ × FakeNet
dial n addr = (ok n.next, record n { live = n.next ∷ n.live; next = suc n.next })

unfoldable pub short : Option ℕ → ℕ → Option GoError
short none have = none
short (some size) have = if ltb have size then some (other []) else none

unfoldable pub send_request : FakeNet → Link → Request → SentRequest FakeNet
send_request n l req = record {
  fault = short req.content_length (length req.body.content);
  after = n;
  left = drained req.body;
}

unfoldable pub receive : FakeNet → Link → Result Response × FakeNet
receive n l = (if ltb l.raw n.good then err eof else ok answer, n)

unfoldable pub erase : ℕ → List ℕ → List ℕ
erase k [] = []
erase k (j ∷ l) = if j == k then l else j ∷ erase k l

unfoldable pub fake : Upstream FakeNet
unfolding dial send_request short receive erase
fake = record {
  dial = dial;
  send = λ n l p. (none, n);
  send_request = send_request;
  receive = receive;
  handshake = λ n l host. (none, n);
  close = λ n l. record n { live = erase l.raw n.live };
}

pub count-erase :
    (c k : ℕ) (l : List ℕ) → count k (erase c l) ≡ count k l - (if c == k then 1 else 0)
unfolding count erase
count-erase c k [] = ground arith
count-erase c k (j ∷ l) = ground (arith, count-erase c k l)

pub dial_ok :
    (n n' : FakeNet) (addr : Bytes) (c k : ℕ)
    → dial n addr ≡ (ok c, n')
    → count k n'.live ≡ count k n.live + (if c == k then 1 else 0)
unfolding dial count
dial_ok n n' addr c k h = ground arith

unfoldable pub fake-Lifetimes : Lifetimes fake
unfolding fake
fake-Lifetimes = record {
  live = λ n. n.live;
  live-dial_ok = dial_ok;
  live-dial_err = λ n n' addr e h. cc;
  live-send = λ n l p. refl;
  live-send_request = λ n l req. refl;
  live-receive = λ n l. refl;
  live-handshake = λ n l host. refl;
  live-close = λ n l k. count-erase l.raw k n.live;
}

short-ne-none : (o : Option ℕ) (size have : ℕ) → o ≡ some size → have < size → short o have ≢ none
unfolding short
short-ne-none none size have e h k = cc
short-ne-none (some n) size have e h k = ground arith

pub fake-BodyRules : BodyRules fake
unfolding fake
fake-BodyRules = record {
  body_read = λ n l req h. refl;
  short_body_fails = λ n l req size e h. short-ne-none req.content_length size _ e h;
}
