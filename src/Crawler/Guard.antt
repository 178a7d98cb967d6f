-- ===== src/Crawler/Guard.antt =====
-- internal/crawler/ssrf.go: GuardConfig and the checks that every URL passes.
pub mod Spec
pub mod Hosts
pub mod Addresses
pub mod Laws
pub mod Hard
pub mod Tests
use auditloop.Base.{
  Bool, true, false, ◌&&◌, ◌||◌, not, Option, none, some, List, [], ◌∷◌, ◌++◌, map, ◌==◌,
  if◌then◌else◌, Str, codes, eqb, is_empty, one_of, trim_space, to_lower, has_suffix, keep_if,
}
use auditloop.Crawler.Ip.{Ip, Reason, is_loopback, blocked_ip, is_hard_blocked}

-- The parts of net/url's URL that the guard reads.
pub record Url : Type 0 where
  pub scheme : Str
  pub host : Str
  pub port : Str

-- net/url's Parse and net's ParseIP; `none` is their refusal.
pub record Net : Type 0 where
  pub parse_url : Str → Option Url
  pub parse_ip : Str → Option Ip

-- `resolve` is the DNS lookup, `none` its error.
pub record GuardConfig : Type 0 where
  pub allowed_hosts : List Str
  pub resolve : Str → Option (List Ip)
  pub allow_loopback : Bool
  pub internal_allow_hosts : List Str

-- The reasons of ErrBlockedURL.
pub data Refusal : Type 0 where
  unparseable empty_host dns_failed no_addresses : Refusal
  bad_scheme not_allowlisted : Str → Refusal
  resolves_to : Reason → Ip → Refusal

-- The keys of the map that InternalAllowSet builds.
unfoldable pub internal_allow_set : List Str → List Str
internal_allow_set hosts =
    keep_if (λ h. not (is_empty h)) (map (λ h. to_lower (trim_space h)) hosts)

-- One round of hostAllowed's loop, for an entry that is in lower case and trimmed.
abbrev pub fits : Str → Str → Bool
fits host a = not (is_empty a) && (eqb host a || has_suffix host (b'.' ∷ a))

unfoldable pub host_allowed : List Str → Str → Bool
host_allowed [] host = false
host_allowed (a ∷ more) host = fits host (to_lower (trim_space a)) || host_allowed more host

unfoldable pub ip_reason_for_host : GuardConfig → Str → Ip → Option Reason
ip_reason_for_host g host ip = elim (blocked_ip ip) [
  | none ↦ none
  | some reason ↦
      if not (is_hard_blocked reason) && one_of host g.internal_allow_hosts
      then none
      else if g.allow_loopback && is_loopback ip
      then none
      else some reason
]

-- The loop of checkHostIP: the first refused address decides.
unfoldable pub check_ips : GuardConfig → Str → List Ip → Option Refusal
check_ips g host [] = none
check_ips g host (ip ∷ ips) = elim (ip_reason_for_host g host ip) [
  | some reason ↦ some (resolves_to reason ip)
  | none ↦ check_ips g host ips
]

abbrev pub is_http : Str → Bool
is_http scheme = eqb scheme (codes "http") || eqb scheme (codes "https")

module _ (net : Net) (g : GuardConfig) where
  -- The addresses that checkHostIP looks at: the literal, or the answer of the lookup.
  unfoldable pub addresses : Str → Option (List Ip)
  addresses host = elim (net.parse_ip host) [ some ip ↦ some (ip ∷ []) | none ↦ g.resolve host ]

  abbrev check_answer : Str → List Ip → Option Refusal
  check_answer host [] = some no_addresses
  check_answer host (ip ∷ ips) = check_ips g host (ip ∷ ips)

  abbrev check_resolved : Str → Option (List Ip) → Option Refusal
  check_resolved host none = some dns_failed
  check_resolved host (some ips) = check_answer host ips

  -- checkHostIP; none is its nil error.
  unfoldable pub check_host_ip : Str → Option Refusal
  unfolding addresses
  check_host_ip raw =
      let host = to_lower (trim_space raw) in
      if is_empty host then some empty_host else check_resolved host (addresses host)

  abbrev check_parsed : Option Url → Option Refusal
  check_parsed none = some unparseable
  check_parsed (some u) =
      let host = to_lower u.host in
      if not (is_http u.scheme)
      then some (bad_scheme u.scheme)
      else if is_empty host
      then some empty_host
      else if not (host_allowed g.allowed_hosts host)
      then some (not_allowlisted host)
      else check_host_ip host

  -- CheckURL; none is its nil error.
  unfoldable pub check_url : Str → Option Refusal
  check_url raw = check_parsed (net.parse_url raw)
