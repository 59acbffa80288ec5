-- ===== src/Refactor/Proxy.antt =====
-- core_refactor/proxy.go: the upstream proxy that a request is sent through.
use mitm_proxy.Base.{
  Bool, false, ◌&&◌, [], ◌∷◌, ◌++◌, Option, none, some, if◌then◌else◌, All, All-append, drop, ◌<◌,
  ◌≡◌, arith,
}
use mitm_proxy.Text.{Bytes, bytes, is_empty}
use mitm_proxy.Text.Base64.{encode, decode, decode-encode}
use mitm_proxy.Http.Error.{Result, ok, wrapped, ◌>>=◌}
use mitm_proxy.Http.Message.{Request}

pub record Proxy : Type 0 where
  pub scheme : Bytes
  pub host : Bytes
  pub username : Bytes
  pub password : Bytes

abbrev pub no_proxy : Proxy
no_proxy = record { scheme = []; host = []; username = []; password = [] }

unfoldable pub direct_proxy : Request → Proxy
direct_proxy req = no_proxy

unfoldable pub is_direct : Proxy → Bool
is_direct p = is_empty p.host

unfoldable pub basic_auth : Proxy → Bytes
basic_auth p =
    if is_empty p.username && is_empty p.password
    then []
    else bytes "Basic " ++ encode (p.username ++ (b':' ∷ p.password))

unfoldable pub address : Proxy → Bytes
address p = if is_empty p.host then [] else p.host

-- What url.Parse gives of an address; the user part may be missing, and so may a password in it.
pub record Url : Type 0 where
  pub scheme : Bytes
  pub host : Bytes
  pub user : Option (Bytes × Option Bytes)

abbrev password_of : Option Bytes → Bytes
password_of none = []
password_of (some p) = p

unfoldable pub with_user : Option (Bytes × Option Bytes) → Proxy → Proxy
with_user none p = p
with_user (some (name, password)) p = record p { username = name; password = password_of password }

-- `url_parse` stands for url.Parse.
unfoldable pub parse_proxy_url : (Bytes → Result Url) → Bytes → Result Proxy
unfolding with_user
parse_proxy_url url_parse s = if is_empty s then ok no_proxy else (do
  u ← wrapped (bytes "parse proxy url: ") (url_parse s)
  ok (with_user u.user (record { scheme = u.scheme; host = u.host; username = []; password = [] })))

abbrev IsBytes : Bytes → Type 0
IsBytes = All (λ c. c < 256)

-- What a proxy reads out of the header: the text behind the word Basic.
pub credentials : Bytes → Bytes
credentials h = decode (drop 6 h)

-- The proxy gets the user name and the password back, joined by a colon; with neither there is no
-- header.
pub credentials-basic_auth :
    (p : Proxy)
    → IsBytes p.username
    → IsBytes p.password
    → (is_empty p.username && is_empty p.password) ≡ false
    → credentials (basic_auth p) ≡ p.username ++ (b':' ∷ p.password)
unfolding basic_auth credentials drop bytes
credentials-basic_auth p u w h = rw h (
    decode-encode (p.username ++ (b':' ∷ p.password))
      (All-append (λ c. c < 256) p.username (b':' ∷ p.password) u (omega arith, w)))
