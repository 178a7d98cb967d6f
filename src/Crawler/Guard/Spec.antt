-- ===== src/Crawler/Guard/Spec.antt =====
-- What the guard promises, without its code.
use auditloop.Base.{
  ◌≡◌, ◌≢◌, ◌⊎◌, true, none, some, List, [], ◌∷◌, ◌++◌, Str, codes, trim_space, to_lower, All,
}
use mathlib.Core.List.{Memᴰ}
use auditloop.Crawler.Ip.{Ip, Reason, loopback, private, carrier_grade_nat, blocked_ip}
use auditloop.Crawler.Guard.{Net, GuardConfig, Url, addresses}

-- A host is an entry of the list or a proper subdomain of one; blank entries allow nothing.
pub data IsAllowed (host : Str) : List Str → Type 0 where
  here :
      {a : Str} {more : List Str}
      → to_lower (trim_space a) ≢ []
      → (host ≡ to_lower (trim_space a))
        ⊎ ((sub : Str) × (host ≡ sub ++ b'.' ∷ to_lower (trim_space a)))
      → IsAllowed host (a ∷ more)
  there : {a : Str} {more : List Str} → IsAllowed host more → IsAllowed host (a ∷ more)

abbrev pub IsSoft : Reason → Type 0
IsSoft r = (r ≡ private) ⊎ (r ≡ loopback) ⊎ (r ≡ carrier_grade_nat)

-- A public address; a soft range for an internal host; loopback where that is switched on.
abbrev pub IsPermitted : GuardConfig → Str → Ip → Type 0
IsPermitted g host ip =
    (blocked_ip ip ≡ none)
    ⊎ ((r : Reason) × (blocked_ip ip ≡ some r) × IsSoft r × Memᴰ host g.internal_allow_hosts)
    ⊎ ((g.allow_loopback ≡ true) × (blocked_ip ip ≡ some loopback))

-- The host is no empty text and resolves, to at least one address, and all its addresses are permitted.
pub record IsSafeHost (net : Net) (g : GuardConfig) (host : Str) : Type 0 where
  pub some_text : host ≢ []
  pub first : Ip
  pub others : List Ip
  pub resolved : addresses net g host ≡ some (first ∷ others)
  pub permitted : All (IsPermitted g host) (first ∷ others)

pub record IsSafeUrl (net : Net) (g : GuardConfig) (raw : Str) : Type 0 where
  pub url : Url
  pub parsed : net.parse_url raw ≡ some url
  pub http : (url.scheme ≡ codes "http") ⊎ (url.scheme ≡ codes "https")
  pub allowed : IsAllowed (to_lower url.host) g.allowed_hosts
  pub safe : IsSafeHost net g (to_lower (trim_space (to_lower url.host)))
