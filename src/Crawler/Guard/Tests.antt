-- ===== src/Crawler/Guard/Tests.antt =====
-- The guard at concrete inputs.
use auditloop.Base.{◌≡◌, ◌≢◌, ◌↔◌, refl, inl, inr, true, none, some, [], ◌∷◌, arith, codes}
use auditloop.Crawler.Ip.{v4, v6, link_local, loopback, blocked_ip, is_hard_blocked}
use auditloop.Crawler.Ip.Ranges.{IsRefused, blocked_ip-IsRefused}
use auditloop.Crawler.Guard.{
  Net, GuardConfig, not_allowlisted, resolves_to, internal_allow_set, host_allowed,
  ip_reason_for_host, check_ips, addresses, check_host_ip, check_url,
}
use auditloop.Crawler.Guard.Spec.{IsSafeUrl}
use mathlib.Core.List.{Memᴰ}
use auditloop.Crawler.Guard.Hard.{IsHard, hard_ranges_stand}
use auditloop.Crawler.Guard.Laws.{check_url_iff}
use auditloop.Base.{eqb, one_of, trim_space, to_lower, has_suffix, if◌then◌else◌}

-- A parser that takes the whole text for a host, and no literal for an address.
abbrev pub host_net : Net
host_net = record {
  parse_url = λ raw. some (record { scheme = codes "http"; host = raw; port = [] });
  parse_ip = λ host. none;
}

-- `intra.x` is an internal name, all others are public.
abbrev pub config : GuardConfig
config = record {
  allowed_hosts = codes " Example.com" ∷ codes "intra.x" ∷ [];
  resolve = λ host.
      if eqb host (codes "evil.example.com")
      then some (v4 93 184 216 34 ∷ v4 169 254 169 254 ∷ [])
      else if eqb host (codes "intra.x")
      then some (v4 10 0 0 7 ∷ [])
      else some (v4 93 184 216 34 ∷ []);
  allow_loopback = true;
  internal_allow_hosts = internal_allow_set (codes "Intra.X " ∷ codes " " ∷ []);
}

unfoldable pub guard_runs : Unit {0}
unfolding check_url check_host_ip addresses check_ips ip_reason_for_host host_allowed blocked_ip
    is_hard_blocked internal_allow_set eqb one_of trim_space to_lower has_suffix
guard_runs = tt

subdomain_passes : check_url host_net config (codes "WWW.example.COM") ≡ none
unfolding guard_runs
subdomain_passes = refl

internal_passes : check_url host_net config (codes "intra.x") ≡ none
unfolding guard_runs
internal_passes = refl

lookalike_refused :
    check_url host_net config (codes "badexample.com")
    ≡ some (not_allowlisted (codes "badexample.com"))
unfolding guard_runs
lookalike_refused = refl

metadata_refused :
    check_url host_net config (codes "evil.example.com")
    ≡ some (resolves_to link_local (v4 169 254 169 254))
unfolding guard_runs
metadata_refused = refl

ipv6_loopback :
    blocked_ip (v6 0 0 (0 ∷ 0 ∷ 0 ∷ 0 ∷ 0 ∷ 0 ∷ 0 ∷ 0 ∷ 0 ∷ 0 ∷ 0 ∷ 0 ∷ 0 ∷ 1 ∷ [])) ≡ some loopback
unfolding guard_runs
ipv6_loopback = refl

check_url_iff_example :
    (check_url host_net config (codes "intra.x") ≡ none)
    ↔ IsSafeUrl host_net config (codes "intra.x")
check_url_iff_example = check_url_iff host_net config (codes "intra.x")

-- One address of two is that of the metadata service.
hard_ranges_stand_example : check_url host_net config (codes "evil.example.com") ≢ none
unfolding guard_runs
hard_ranges_stand_example =
    hard_ranges_stand host_net config (codes "evil.example.com")
      (record { scheme = codes "http"; host = codes "evil.example.com"; port = [] })
      (v4 93 184 216 34 ∷ v4 169 254 169 254 ∷ []) (v4 169 254 169 254) refl refl
      (Memᴰ.tail (Memᴰ.head refl)) (IsHard.hard_v4 169 254 169 254 (inr (inl (refl, refl))))

blocked_ip-IsRefused_example : (blocked_ip (v4 172 31 0 1) ≢ none) ↔ IsRefused 2887712769
blocked_ip-IsRefused_example =
    blocked_ip-IsRefused 172 31 0 1 (omega arith) (omega arith) (omega arith) (omega arith)
