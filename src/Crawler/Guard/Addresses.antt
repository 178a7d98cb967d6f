-- ===== src/Crawler/Guard/Addresses.antt =====
-- Which addresses the guard permits.
use auditloop.Base.{
  ◌≡◌, refl, inl, inr, ◌↔◌, not, ◌&&◌, true, false, none, some, List, [], ◌∷◌, arith, Bool-cases,
  Option-cases, Str, All, one_of,
}
use auditloop.Base.Text.Laws.{one_of_sound, one_of_complete}
use auditloop.Crawler.Ip.{Ip, Reason, loopback, blocked_ip, is_hard_blocked, is_loopback}
use auditloop.Crawler.Guard.{GuardConfig, ip_reason_for_host, check_ips}
use auditloop.Crawler.Guard.Spec.{IsSoft, IsPermitted}

IsSoft-iff : (r : Reason) → (is_hard_blocked r ≡ false) ↔ IsSoft r
unfolding is_hard_blocked
IsSoft-iff r = ground arith

loopback_iff : (ip : Ip) → (is_loopback ip ≡ true) ↔ (blocked_ip ip ≡ some loopback)
unfolding blocked_ip
loopback_iff ip = ground arith

ip_reason_sound :
    (g : GuardConfig) (host : Str) (ip : Ip)
    → ip_reason_for_host g host ip ≡ none
    → IsPermitted g host ip
unfolding ip_reason_for_host
ip_reason_sound g host ip h = elim (Option-cases (blocked_ip ip)) [
  | inl public ↦ inl public
  | inr (r, e) ↦ elim (Bool-cases (not (is_hard_blocked r) && one_of host g.internal_allow_hosts)) [
    | inl b ↦ inr (
        inl (
          r,
          e,
          (IsSoft-iff r).0 (ground arith),
          one_of_sound host g.internal_allow_hosts (ground arith),
        ))
    | inr b ↦ inr (inr (ground arith, (loopback_iff ip).0 (ground arith)))
  ]
]

ip_reason_complete :
    (g : GuardConfig) (host : Str) (ip : Ip)
    → IsPermitted g host ip
    → ip_reason_for_host g host ip ≡ none
unfolding ip_reason_for_host
ip_reason_complete g host ip (inl e) = rw (e, ip_reason_for_host)
ip_reason_complete g host ip (inr (inl (r, e, s, m))) =
    ground (arith, IsSoft-iff r, one_of_complete host g.internal_allow_hosts m)
ip_reason_complete g host ip (inr (inr (l, e))) = ground (arith, loopback_iff ip)

pub check_ips_sound :
    (g : GuardConfig) (host : Str) (ips : List Ip)
    → check_ips g host ips ≡ none
    → All (IsPermitted g host) ips
unfolding check_ips
check_ips_sound g host [] h = tt
check_ips_sound g host (ip ∷ ips) h = elim (Option-cases (ip_reason_for_host g host ip)) [
  | inl fine ↦ (ip_reason_sound g host ip fine, check_ips_sound g host ips (ground arith))
  | inr (r, e) ↦ cc (rw (e, check_ips) at h)
]

pub check_ips_complete :
    (g : GuardConfig) (host : Str) (ips : List Ip)
    → All (IsPermitted g host) ips
    → check_ips g host ips ≡ none
unfolding check_ips
check_ips_complete g host [] h = refl
check_ips_complete g host (ip ∷ ips) (p, ps) =
    ground (arith, ip_reason_complete g host ip p, check_ips_complete g host ips ps)
