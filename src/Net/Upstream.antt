-- ===== src/Net/Upstream.antt =====
-- The network as the proxy sees it: connections by number, and what the operations on them return.
-- `N` is the state of the network; the laws are those of package net and of http.Request.Write.
use mitm_proxy.Base.{
  ℕ, ◌+◌, ◌-◌, ◌<◌, ◌≡◌, ◌≢◌, Bool, List, [], ◌∷◌, Option, none, some, ◌==◌, if◌then◌else◌, length,
}
use mitm_proxy.Text.{Bytes}
use mitm_proxy.Http.Error.{GoError, Result, ok, err}
use mitm_proxy.Http.Message.{Stream, Request, Response}

-- A connection, and whether it is used through its TLS layer.
pub record Link : Type 0 where
  pub raw : ℕ
  pub is_tls : Bool

-- What `req.Write(conn)` returns, and what is left of the body.
pub record SentRequest (N : Type 0) : Type 0 where
  pub fault : Option GoError
  pub after : N
  pub left : Stream

pub record Upstream (N : Type 0) : Type 0 where
  pub dial : N → Bytes → Result ℕ × N
  pub send : N → Link → Bytes → Option GoError × N
  pub send_request : N → Link → Request → SentRequest N
  pub receive : N → Link → Result Response × N
  pub handshake : N → Link → Bytes → Option GoError × N
  pub close : N → Link → N

unfoldable pub count : ℕ → List ℕ → ℕ
count k [] = 0
count k (j ∷ l) = (if j == k then 1 else 0) + count k l

-- `live` lists the connections that are open. Only dialling opens one and only closing closes one.
pub record Lifetimes {N : Type 0} (up : Upstream N) : Type 0 where
  pub live : N → List ℕ
  pub live-dial_ok :
      (n n' : N) (addr : Bytes) (c k : ℕ)
      → up.dial n addr ≡ (ok c, n')
      → count k (live n') ≡ count k (live n) + (if c == k then 1 else 0)
  pub live-dial_err :
      (n n' : N) (addr : Bytes) (e : GoError) → up.dial n addr ≡ (err e, n') → live n' ≡ live n
  pub live-send : (n : N) (l : Link) (p : Bytes) → live (up.send n l p).1 ≡ live n
  pub live-send_request :
      (n : N) (l : Link) (req : Request) → live (up.send_request n l req).after ≡ live n
  pub live-receive : (n : N) (l : Link) → live (up.receive n l).1 ≡ live n
  pub live-handshake : (n : N) (l : Link) (host : Bytes) → live (up.handshake n l host).1 ≡ live n
  pub live-close :
      (n : N) (l : Link) (k : ℕ)
      → count k (live (up.close n l)) ≡ count k (live n) - (if l.raw == k then 1 else 0)

-- http.Request.Write reads the body to its end, and fails where the body is shorter than the
-- request's content length.
pub record BodyRules {N : Type 0} (up : Upstream N) : Type 0 where
  pub body_read :
      (n : N) (l : Link) (req : Request)
      → (up.send_request n l req).fault ≡ none
      → (up.send_request n l req).left.content ≡ []
  pub short_body_fails :
      (n : N) (l : Link) (req : Request) (size : ℕ)
      → req.content_length ≡ some size
      → length req.body.content < size
      → (up.send_request n l req).fault ≢ none
