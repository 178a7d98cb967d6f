-- ===== src/Limit.antt =====
-- handlers/ratelimit.go: minIntervalLimiter. Times are counts of nanoseconds; the map is the list of
-- its entries.
pub mod Table
pub mod Laws
mod Tests
use auditloop.Base.{
  ℕ, ◌+◌, ◌*◌, Bool, true, false, ◌&&◌, not, Option, none, some, List, [], ◌∷◌, ltb, if◌then◌else◌,
  Str, eqb, keep_if, length,
}

abbrev pub Entries : Type 0
Entries = List (Str × ℕ)

pub record Limiter : Type 0 where
  pub min_interval : ℕ
  pub last : Entries

abbrev pub look_up : Str → Entries → Option ℕ
look_up k [] = none
look_up k ((j, t) ∷ es) = if eqb j k then some t else look_up k es

abbrev pub put : Str → ℕ → Entries → Entries
put k t [] = (k, t) ∷ []
put k t ((j, u) ∷ es) = if eqb j k then (k, t) ∷ es else (j, u) ∷ put k t es

-- now.Sub(t) < interval, where now may be before t.
abbrev pub is_recent : ℕ → ℕ → ℕ → Bool
is_recent interval now t = ltb now (t + interval)

abbrev pub denies : ℕ → ℕ → Option ℕ → Bool
denies interval now none = false
denies interval now (some t) = is_recent interval now t

-- The entries that are not older than ten intervals.
abbrev pub fresh : ℕ → ℕ → Str × ℕ → Bool
fresh interval now (k, t) = not (ltb (t + 10 * interval) now)

abbrev pub swept : ℕ → ℕ → Entries → Entries
swept interval now es = if ltb 256 (length es) then keep_if (fresh interval now) es else es

-- Allow, with the time that it reads.
unfoldable pub allow : Str → ℕ → Limiter → Bool × Limiter
allow key now l =
    if denies l.min_interval now (look_up key l.last)
    then (false, l)
    else (true, record l { last = swept l.min_interval now (put key now l.last) })

-- Calls, in the order of the mutex, and their answers.
abbrev pub Call : Type 0
Call = Str × ℕ

unfoldable pub answers : List Call → Limiter → List Bool
answers [] l = []
answers ((key, now) ∷ calls) l = let (ok, next) = allow key now l in ok ∷ answers calls next

abbrev pub new_limiter : ℕ → Limiter
new_limiter interval = record { min_interval = interval; last = [] }
