-- ===== src/Crawler/Ip.antt =====
-- internal/crawler/ssrf.go, blockedIP, with the address tests of package net that it calls.
pub mod Ranges
use auditloop.Base.{
  ℕ, ◌/◌, ◌%◌, Bool, true, false, ◌&&◌, ◌||◌, Option, none, some, List, [], ◌∷◌, ◌==◌, leb,
  if◌then◌else◌, eqb,
}

-- net.IP by what its methods tell apart: no address, an address for which To4 answers (4 bytes, or
-- the mapped 16 bytes), any other 16 bytes (the first two and the rest), and a wrong length.
pub data Ip : Type 0 where
  nil : Ip
  v4 : (a b c d : ℕ) → Ip
  v6 : (a b : ℕ) → List ℕ → Ip
  malformed : Ip

abbrev pub zeros : List ℕ
zeros = 0 ∷ 0 ∷ 0 ∷ 0 ∷ 0 ∷ 0 ∷ 0 ∷ 0 ∷ 0 ∷ 0 ∷ 0 ∷ 0 ∷ 0 ∷ []

pub is_loopback : Ip → Bool
is_loopback (v4 a b c d) = a == 127
is_loopback (v6 a b rest) =
    a == 0 && b == 0 && eqb rest (0 ∷ 0 ∷ 0 ∷ 0 ∷ 0 ∷ 0 ∷ 0 ∷ 0 ∷ 0 ∷ 0 ∷ 0 ∷ 0 ∷ 0 ∷ 1 ∷ [])
is_loopback _ = false

pub is_unspecified : Ip → Bool
is_unspecified (v4 a b c d) = a == 0 && b == 0 && c == 0 && d == 0
is_unspecified (v6 a b rest) = a == 0 && b == 0 && eqb rest (0 ∷ zeros)
is_unspecified _ = false

-- ip[1] & 0xc0 == 0x80 is ip[1] / 64 == 2 on a byte; so for the other masks.
pub is_link_local_unicast : Ip → Bool
is_link_local_unicast (v4 a b c d) = a == 169 && b == 254
is_link_local_unicast (v6 a b rest) = a == 0xfe && b / 64 == 2
is_link_local_unicast _ = false

pub is_link_local_multicast : Ip → Bool
is_link_local_multicast (v4 a b c d) = a == 224 && b == 0 && c == 0
is_link_local_multicast (v6 a b rest) = a == 0xff && b % 16 == 2
is_link_local_multicast _ = false

pub is_multicast : Ip → Bool
is_multicast (v4 a b c d) = a / 16 == 14
is_multicast (v6 a b rest) = a == 0xff
is_multicast _ = false

pub is_private : Ip → Bool
is_private (v4 a b c d) = a == 10 || (a == 172 && b / 16 == 1) || (a == 192 && b == 168)
is_private (v6 a b rest) = a / 2 == 126
is_private _ = false

pub data Reason : Type 0 where
  invalid_ip loopback unspecified link_local multicast private metadata carrier_grade_nat : Reason

-- The last two tests of blockedIP, for which To4 must answer.
extra_ranges : Ip → Option Reason
extra_ranges (v4 a b c d) =
    if a == 169 && b == 254
    then some metadata
    else if a == 100 && leb 64 b && leb b 127
    then some carrier_grade_nat
    else none
extra_ranges _ = none

abbrev is_nil : Ip → Bool
is_nil nil = true
is_nil _ = false

-- The reason for which an address is refused, or none for a public one.
unfoldable pub blocked_ip : Ip → Option Reason
unfolding is_loopback is_unspecified is_link_local_unicast is_link_local_multicast is_multicast
    is_private extra_ranges
blocked_ip ip =
    if is_nil ip
    then some invalid_ip
    else if is_loopback ip
    then some loopback
    else if is_unspecified ip
    then some unspecified
    else if is_link_local_unicast ip || is_link_local_multicast ip
    then some link_local
    else if is_multicast ip
    then some multicast
    else if is_private ip
    then some private
    else extra_ranges ip

-- Every reason that is not named soft is hard.
unfoldable pub is_hard_blocked : Reason → Bool
is_hard_blocked private = false
is_hard_blocked loopback = false
is_hard_blocked carrier_grade_nat = false
is_hard_blocked _ = true
