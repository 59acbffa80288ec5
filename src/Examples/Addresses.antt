-- ===== src/Examples/Addresses.antt =====
-- Hosts, ports and local addresses.
use mitm_proxy.Base.{◌≡◌, refl, ◌||◌, true, false, List, [], ◌∷◌, ◌++◌, some, arith}
use mitm_proxy.Text.{Bytes, bytes, bytes_eq}
use mitm_proxy.Http.Error.{ok}
use mitm_proxy.Http.Message.{Request, string_reader}
use mitm_proxy.Net.Interfaces.{ipv4, other_addr, Interface}
use mitm_proxy.Refactor.Hosts.{member, add, add_addrs, add_interfaces, with_local_names, local_ips}
use mitm_proxy.Refactor.Hosts.Local.{has_outside, member-local_ips}
use mitm_proxy.Refactor.Proxy.{Proxy, basic_auth, credentials, credentials-basic_auth}

abbrev get_from : Bytes → Request
get_from host = record {
  method = bytes "GET";
  host = host;
  scheme = bytes "https";
  path = bytes "/";
  header = [];
  content_length = some 0;
  body = string_reader [];
}

abbrev ports : List Interface
ports =
    record { is_up = true; is_loopback = true; addrs = ok (ipv4 (bytes "127.0.0.1") ∷ []) }
    ∷ record {
      is_up = true;
      is_loopback = false;
      addrs = ok (other_addr ∷ ipv4 (bytes "10.0.0.7") ∷ []);
    }
    ∷ []

member-local_ips_example :
    member (bytes "10.0.0.7") (bytes "127.0.0.1" ∷ bytes "localhost" ∷ bytes "10.0.0.7" ∷ [])
    ≡ (bytes_eq (bytes "localhost") (bytes "10.0.0.7")
        || bytes_eq (bytes "127.0.0.1") (bytes "10.0.0.7"))
      || has_outside (bytes "10.0.0.7") ports
unfolding local_ips add_interfaces add_addrs add member with_local_names bytes bytes_eq
member-local_ips_example = member-local_ips ports _ (bytes "10.0.0.7") refl

abbrev office : Proxy
office = record {
  scheme = bytes "http";
  host = bytes "p:1";
  username = bytes "me";
  password = bytes "pw";
}

credentials-basic_auth_example : credentials (basic_auth office) ≡ bytes "me" ++ (b':' ∷ bytes "pw")
unfolding bytes
credentials-basic_auth_example = credentials-basic_auth office (omega arith) (omega arith) refl
