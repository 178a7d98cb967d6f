-- ===== src/Crawler/Ip/Ranges.antt =====
-- The refused IPv4 addresses as ranges of 32-bit numbers.
use auditloop.Base.{ℕ, ◌+◌, ◌*◌, ◌≤◌, ◌<◌, ◌≡◌, ◌≢◌, ◌⊎◌, ◌↔◌, none, arith}
use auditloop.Crawler.Ip.{v4, blocked_ip}

abbrev number : ℕ → ℕ → ℕ → ℕ → ℕ
number a b c d = a * 16777216 + b * 65536 + c * 256 + d

-- The networks 0.0.0.0/32, 10/8, 100.64/10, 127/8, 169.254/16, 172.16/12, 192.168/16 and 224/4.
abbrev pub IsRefused : ℕ → Type 0
IsRefused n =
    (n ≡ 0)
    ⊎ ((167772160 ≤ n) × (n < 184549376))
    ⊎ ((1681915904 ≤ n) × (n < 1686110208))
    ⊎ ((2130706432 ≤ n) × (n < 2147483648))
    ⊎ ((2851995648 ≤ n) × (n < 2852061184))
    ⊎ ((2886729728 ≤ n) × (n < 2887778304))
    ⊎ ((3232235520 ≤ n) × (n < 3232301056))
    ⊎ ((3758096384 ≤ n) × (n < 4026531840))

module _ (a b c d : ℕ) (ha : a < 256) (hb : b < 256) (hc : c < 256) (hd : d < 256) where
  -- An IPv4 address is refused exactly when its number lies in one of the listed networks.
  pub blocked_ip-IsRefused : (blocked_ip (v4 a b c d) ≢ none) ↔ IsRefused (number a b c d)
  unfolding blocked_ip
  blocked_ip-IsRefused = (λ h. ground arith, λ h. ground arith)
