-- ===== src/Http/Message.antt =====
-- http.Request and http.Response, as far as the proxy reads and writes them.
use mitm_proxy.Base.{ℕ, Option, none, some, []}
use mitm_proxy.Text.{Bytes}
use mitm_proxy.Http.Error.{GoError, Result, ok, err}
use mitm_proxy.Http.Header.{Header}

-- What a reader still gives: bytes, then the end (none) or an error.
pub record Stream : Type 0 where
  pub content : Bytes
  pub fault : Option GoError

-- strings.NewReader(s)
abbrev pub string_reader : Bytes → Stream
string_reader s = record { content = s; fault = none }

-- io.ReadAll(r)
abbrev pub read_all : Stream → Result Bytes
read_all s = elim s.fault [ none ↦ ok s.content | some e ↦ err e ]

-- `r` after it was read to its end.
abbrev pub drained : Stream → Stream
drained s = record s { content = [] }

-- A content length of -1 is none.
pub record Request : Type 0 where
  pub method : Bytes
  pub host : Bytes
  pub scheme : Bytes
  pub path : Bytes
  pub header : Header
  pub content_length : Option ℕ
  pub body : Stream

pub record Response : Type 0 where
  pub status_code : ℕ
  pub status : Bytes
  pub header : Header
  pub content_length : Option ℕ
  pub body : Stream

-- A decompressor of package gzip or zlib: the reader that it makes of a body, and what is left of
-- the body when that reader has been used.
pub record Codec : Type 0 where
  pub opened : Stream → Result Stream
  pub left : Stream → Stream
