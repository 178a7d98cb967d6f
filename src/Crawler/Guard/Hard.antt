-- ===== src/Crawler/Guard/Hard.antt =====
-- The ranges of addresses that no configuration of the guard opens.
use auditloop.Base.{
  ◌≡◌, ◌≢◌, refl, ◌≤◌, ◌<◌, ◌⊎◌, inl, inr, none, some, List, ◌∷◌, arith, ℕ, Str, trim_space,
  to_lower, All-get, eqb, Option,
}
use mathlib.Core.List.{Memᴰ}
use auditloop.Crawler.Ip.{Ip, v4, v6, zeros, blocked_ip, Reason, unspecified, link_local, multicast}
use auditloop.Crawler.Guard.{Net, GuardConfig, Url, addresses, check_url}
use auditloop.Crawler.Guard.Spec.{IsPermitted}
use auditloop.Crawler.Guard.Laws.{check_url_iff}

-- 0.0.0.0, 169.254.0.0/16 with the metadata service of clouds, and 224.0.0.0/4; ::, fe80::/10 and
-- ff00::/8.
pub data IsHard : Ip → Type 0 where
  hard_v4 :
      (a b c d : ℕ)
      → ((a ≡ 0) × (b ≡ 0) × (c ≡ 0) × (d ≡ 0)) ⊎ ((a ≡ 169) × (b ≡ 254)) ⊎ ((224 ≤ a) × (a < 240))
      → IsHard (v4 a b c d)
  hard_v6 :
      (a b : ℕ) (rest : List ℕ)
      → ((a ≡ 0) × (b ≡ 0) × (rest ≡ 0 ∷ zeros)) ⊎ ((a ≡ 254) × (128 ≤ b) × (b < 192)) ⊎ (a ≡ 255)
      → IsHard (v6 a b rest)

-- What the guard says of them.
abbrev HardReason : Option Reason → Type 0
HardReason o = (o ≡ some unspecified) ⊎ (o ≡ some link_local) ⊎ (o ≡ some multicast)

hard_reason : (ip : Ip) → IsHard ip → HardReason (blocked_ip ip)
unfolding blocked_ip eqb
hard_reason _ (IsHard.hard_v4 a b c d h) = ground arith
hard_reason _ (IsHard.hard_v6 a b rest (inl (x, y, z))) = rw (x, y, z) (inl refl)
hard_reason _ (IsHard.hard_v6 a b rest (inr h)) = ground arith

hard-IsPermitted :
    (g : GuardConfig) (host : Str) (ip : Ip) → HardReason (blocked_ip ip) → ¬ IsPermitted g host ip
hard-IsPermitted g host ip h p = ground arith

-- Whatever the configuration says, CheckURL refuses a URL whose host is an address, or resolves to
-- addresses one of which is, in a hard range: the unspecified address, link-local addresses and
-- multicast, of either version.
pub hard_ranges_stand :
    (net : Net) (g : GuardConfig) (raw : Str) (url : Url) (ips : List Ip) (ip : Ip)
    → net.parse_url raw ≡ some url
    → addresses net g (to_lower (trim_space (to_lower url.host))) ≡ some ips
    → Memᴰ ip ips
    → IsHard ip
    → check_url net g raw ≢ none
hard_ranges_stand net g raw url ips ip p r m h passed =
    let s = (check_url_iff net g raw).0 passed in
    let same : s.url ≡ url = cc (s.parsed, p) in
    let r' : addresses net g (to_lower (trim_space (to_lower s.url.host))) ≡ some ips = rw same r in
    let all_of : s.safe.first ∷ s.safe.others ≡ ips = cc (s.safe.resolved, r') in
    let m' : Memᴰ ip (s.safe.first ∷ s.safe.others) = rw all_of m in
    hard-IsPermitted g _ ip (hard_reason ip h)
      (All-get _ (s.safe.first ∷ s.safe.others) m' s.safe.permitted)
