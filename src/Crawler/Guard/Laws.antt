-- ===== src/Crawler/Guard/Laws.antt =====
-- CheckURL against the contract of Crawler/Guard/Spec.
use auditloop.Base.{
  ◌≡◌, refl, ◌≢◌, ◌⊎◌, inl, inr, ◌↔◌, true, Option, none, some, List, [], ◌∷◌, arith, Bool-cases,
  Str, codes, eqb_iff, is_empty, trim_space, to_lower,
}
use auditloop.Base.Text.Laws.{ne_of_filled, filled_of_ne}
use auditloop.Crawler.Ip.{Ip}
use auditloop.Crawler.Guard.{
  Net, GuardConfig, Url, is_http, addresses, check_host_ip, check_resolved, check_parsed, check_url,
}
use auditloop.Crawler.Guard.Spec.{IsSafeHost, IsSafeUrl}
use auditloop.Crawler.Guard.Hosts.{IsAllowed-ne-nil, host_allowed_sound, host_allowed_complete}
use auditloop.Crawler.Guard.Addresses.{check_ips_sound, check_ips_complete}

is_http_complete :
    (scheme : Str) → (scheme ≡ codes "http") ⊎ (scheme ≡ codes "https") → is_http scheme ≡ true
is_http_complete scheme h =
    ground (arith, eqb_iff scheme (codes "http"), eqb_iff scheme (codes "https"))

module _ (net : Net) (g : GuardConfig) where
  check_resolved_sound :
      (host : Str) (found : Option (List Ip))
      → host ≢ []
      → addresses net g host ≡ found
      → check_resolved net g host found ≡ none
      → IsSafeHost net g host
  check_resolved_sound host none n e h = cc
  check_resolved_sound host (some []) n e h = cc
  check_resolved_sound host (some (ip ∷ ips)) n e h = record {
    some_text = n;
    first = ip;
    others = ips;
    resolved = e;
    permitted = check_ips_sound g host (ip ∷ ips) h;
  }

  pub check_host_ip_sound :
      (host : Str) → check_host_ip net g host ≡ none → IsSafeHost net g (to_lower (trim_space host))
  unfolding check_host_ip
  check_host_ip_sound host h = elim (Bool-cases (is_empty (to_lower (trim_space host)))) [
    | inl e ↦ cc (rw e at h)
    | inr e ↦
        check_resolved_sound (to_lower (trim_space host)) _ (ne_of_filled _ e) refl (rw e at h)
  ]

  pub check_host_ip_complete :
      (host : Str) → IsSafeHost net g (to_lower (trim_space host)) → check_host_ip net g host ≡ none
  unfolding check_host_ip
  check_host_ip_complete host s =
      rw (filled_of_ne _ s.some_text, s.resolved, check_resolved)
        (check_ips_complete g _ (s.first ∷ s.others) s.permitted)

  check_parsed_sound :
      (raw : Str) (found : Option Url)
      → net.parse_url raw ≡ found
      → check_parsed net g found ≡ none
      → IsSafeUrl net g raw
  check_parsed_sound raw none e h = cc
  check_parsed_sound raw (some u) e h = record {
    url = u;
    parsed = e;
    http = ground (arith, eqb_iff u.scheme (codes "http"), eqb_iff u.scheme (codes "https"));
    allowed = host_allowed_sound g.allowed_hosts (to_lower u.host) (ground arith);
    safe = check_host_ip_sound (to_lower u.host) (ground arith);
  }

  check_url_sound : (raw : Str) → check_url net g raw ≡ none → IsSafeUrl net g raw
  unfolding check_url
  check_url_sound raw h = check_parsed_sound raw (net.parse_url raw) refl h

  check_url_complete : (raw : Str) → IsSafeUrl net g raw → check_url net g raw ≡ none
  unfolding check_url
  check_url_complete raw s =
      rw (s.parsed, check_parsed)
        (ground (
          arith,
          is_http_complete s.url.scheme s.http,
          filled_of_ne (to_lower s.url.host) (IsAllowed-ne-nil s.allowed),
          host_allowed_complete g.allowed_hosts (to_lower s.url.host) s.allowed,
          check_host_ip_complete (to_lower s.url.host) s.safe,
        ))

-- CheckURL answers nil exactly for the http and https URLs whose host is allowed, resolves to at
-- least one address, and resolves to permitted addresses alone.
pub check_url_iff :
    (net : Net) (g : GuardConfig) (raw : Str) → (check_url net g raw ≡ none) ↔ IsSafeUrl net g raw
check_url_iff net g raw = (check_url_sound net g raw, check_url_complete net g raw)
