-- ===== src/Refactor/Ca/Hosts.antt =====
-- The names and the addresses of a certificate.
use mitm_proxy.Base.{
  ◌≡◌, List, [], ◌∷◌, ◌++◌, append_assoc, append-nil, none, some, arith, Option-cases, inl, inr,
}
use mitm_proxy.Text.{Bytes}
use mitm_proxy.Net.Certificates.{Template, CertLib}
use mitm_proxy.Refactor.Ca.{with_hosts}

module _ {Cert Key Priv R : Type 0} (lib : CertLib Cert Key Priv R) where
  -- The addresses and the names of a list of hosts, each in its order.
  unfoldable pub addresses : List Bytes → List Bytes
  addresses [] = []
  addresses (h ∷ hosts) = elim (lib.parse_ip h) [
    | some ip ↦ ip ∷ addresses hosts
    | none ↦ addresses hosts
  ]

  unfoldable pub names : List Bytes → List Bytes
  names [] = []
  names (h ∷ hosts) = elim (lib.parse_ip h) [ some ip ↦ names hosts | none ↦ h ∷ names hosts ]

  -- Every host is put where it belongs: the loop adds the addresses and the names, in order, and
  -- changes nothing else of the template.
  pub with_hosts_lem :
      (hosts : List Bytes) (t : Template)
      → with_hosts lib hosts t ≡ record t {
        ip_addresses = t.ip_addresses ++ addresses hosts;
        dns_names = t.dns_names ++ names hosts;
      }
  unfolding with_hosts addresses names
  with_hosts_lem [] t = ground (arith, append-nil t.ip_addresses, append-nil t.dns_names)
  with_hosts_lem (h ∷ hosts) t = elim (Option-cases (lib.parse_ip h)) [
    | inl e ↦
        rw (e, with_hosts, addresses, names)
          (ground (
            arith,
            with_hosts_lem hosts (record t { dns_names = t.dns_names ++ (h ∷ []) }),
            append_assoc t.dns_names (h ∷ []) (names hosts),
          ))
    | inr (ip, e) ↦
        rw (e, with_hosts, addresses, names)
          (ground (
            arith,
            with_hosts_lem hosts (record t { ip_addresses = t.ip_addresses ++ (ip ∷ []) }),
            append_assoc t.ip_addresses (ip ∷ []) (addresses hosts),
          ))
  ]
