-- ===== src/Examples/Signing.antt =====
-- Certificates of a certificate library in memory.
use mitm_proxy.Base.{◌+◌, ◌≡◌, refl, suc, ℕ, [], ◌++◌, none, some, if◌then◌else◌}
use mitm_proxy.Text.{Bytes, bytes, bytes_eq}
use mitm_proxy.Text.Table.{find, store}
use mitm_proxy.Http.Error.{ok}
use mitm_proxy.Net.Certificates.{Template, CertLib, TlsCertificate}
use mitm_proxy.Refactor.Ca.{load_ca, Ca, with_hosts, template, signed, with_key, issue, keep}
use mitm_proxy.Refactor.Ca.Calls.{
  unused, started, returned, set_call, World, looked, signed_stage, move,
}
use mitm_proxy.Core.Certificates as First
use mitm_proxy.Core.Certificates.Loading.{value, pair, load_ca-load_ca}
use mitm_proxy.Refactor.Client.{RawConn}

-- Keys are numbers, a signature is the name that is signed, and one text is an address.
unfoldable pub paper : CertLib Bytes Bytes ℕ ℕ
paper = record {
  read_file = λ path. ok path;
  quote = λ s. s;
  pem_decode = λ s. some (record { kind = bytes "PRIVATE KEY"; content = s });
  parse_certificate = ok;
  parse_pkcs8 = ok;
  parse_ec = ok;
  parse_pkcs1 = ok;
  generate_key = λ r. (ok r, suc r);
  now = λ r. (7200, r);
  unix_nano = λ t. t;
  a_year_after = λ t. t + 31536000;
  parse_ip = λ s. if bytes_eq s (bytes "::1") then some s else none;
  create_certificate = λ r t ca priv key. (ok t.common_name, r);
}

abbrev pub root : Ca Bytes Bytes ℕ
root = record { cert = bytes "root"; key = bytes "key"; cache = [] }

abbrev asking : World Bytes Bytes ℕ ℕ
asking = record {
  ca = root;
  source = 3;
  calls = λ n. record { name = []; hosts = []; stage = unused };
}

-- Two calls for one name, both of which look into the cache before either stores.
abbrev both_asked : World Bytes Bytes ℕ ℕ
both_asked = record asking {
  calls =
      set_call 1 (record { name = bytes "a.com"; hosts = []; stage = started })
        (set_call 0 (record { name = bytes "a.com"; hosts = []; stage = started }) asking.calls);
}

abbrev looking : ℕ → World Bytes Bytes ℕ ℕ → World Bytes Bytes ℕ ℕ
looking n w = move paper n (looked paper (find (w.calls n).name w.ca.cache)) w

abbrev signing : ℕ → World Bytes Bytes ℕ ℕ → World Bytes Bytes ℕ ℕ
signing n w =
    let made = issue paper w.ca.cert w.ca.key (w.calls n).name (w.calls n).hosts w.source in
    move paper n (signed_stage paper made.0) (record w { source = made.1 })

abbrev storing : ℕ → TlsCertificate ℕ → World Bytes Bytes ℕ ℕ → World Bytes Bytes ℕ ℕ
storing n t w =
    move paper n (returned (ok t)) (record w { ca = keep paper (w.calls n).name t w.ca })

abbrev leaf : ℕ → TlsCertificate ℕ
leaf k = record { certificate = bytes "a.com"; private_key = k }

abbrev both_stored : World Bytes Bytes ℕ ℕ
both_stored =
    storing 1 (leaf 4)
      (storing 0 (leaf 3) (signing 1 (signing 0 (looking 1 (looking 0 both_asked)))))

-- They return different certificates, and the cache has that of the later store.
two_certificates :
    ((both_stored.calls 0).stage ≡ returned (ok (leaf 3)))
    × ((both_stored.calls 1).stage ≡ returned (ok (leaf 4)))
    × (find (bytes "a.com") both_stored.ca.cache ≡ some (leaf 4))
unfolding set_call move looked signed_stage find issue with_key signed template with_hosts paper
    bytes keep store bytes_eq
two_certificates = (refl, refl, refl)

abbrev blank : Template
blank = (template paper (bytes "a.com") 0).0

load_ca-load_ca_example :
    value (First.load_ca paper (bytes "c") (bytes "k"))
    ≡ pair (load_ca paper (bytes "c") (bytes "k"))
load_ca-load_ca_example = load_ca-load_ca paper (bytes "c") (bytes "k")

-- A connection on which every write and handshake succeeds.
abbrev pub willing : RawConn ℕ Bytes
willing = record { write = λ w p. (none, w ++ p); server_handshake = λ w c. (none, w) }
