-- ===== src/Db/Runs/Claims/Next.antt =====
-- ClaimNextQueuedRun when nothing comes between its two statements.
use auditloop.Base.{
  ℕ, ◌≤◌, ◌≡◌, refl, sym, ap, inl, inr, Bool, true, false, Option, none, some, List, [], ◌∷◌, arith,
  Option-cases, Bool-cases, Str, eqb, eqb_refl, All,
}
use mathlib.Core.List.{Memᴰ}
use auditloop.Db.Table.{count, update, first}
use auditloop.Db.Table.Laws.{IsOldest, oldest-IsOldest, best-none, count-Mem, count_le}
use auditloop.Db.Runs.{
  Run, running, has_id, is_queued, still_queued, next_queued, claim_queued, get_run_by_id,
  claim_next_queued_run,
}

abbrev pub claimed : ℕ → Run → Run
claimed now r = record r { status = running; started_at = some now }

-- What the claim should answer: nothing, when no run waits; otherwise the oldest waiting run, now
-- running, which is also how the table keeps it.
abbrev pub IsClaim : ℕ → List Run → Option Run × List Run → Type 0
IsClaim now runs (none, rows) = All (λ r. is_queued r.status ≡ false) runs × (rows ≡ runs)
IsClaim now runs (some r, rows) =
    (s : Run) × IsOldest (λ t. t.created_at) (λ t. is_queued t.status) runs s
    × (r ≡ claimed now s)
    × (rows ≡ update (has_id s.id) (claimed now) runs)

update_none :
    (p q : Run → Bool) (f : Run → Run) (runs : List Run)
    → ((r : Run) → q r ≡ true → p r ≡ true)
    → count p runs ≡ 0
    → update q f runs ≡ runs
update_none p q f [] i u = refl
update_none p q f (r ∷ rs) i u = elim (Bool-cases (q r)) [
  | inl e ↦ let e' = i r e in absurd (ground (arith, e', u))
  | inr e ↦ rw e (ap (λ t. r ∷ t) (update_none p q f rs i (ground (arith, u))))
]

module _ (now : ℕ) (s : Run) where
  abbrev IsFound : List Run → Type 0
  IsFound runs =
      (first (has_id s.id) (update (still_queued s.id) (claimed now) runs) ≡ some (claimed now s))
      × (update (still_queued s.id) (claimed now) runs ≡ update (has_id s.id) (claimed now) runs)

  found_first :
      (rs : List Run)
      → is_queued s.status ≡ true
      → count (has_id s.id) (s ∷ rs) ≤ 1
      → IsFound (s ∷ rs)
  found_first rs w u =
      let same = eqb_refl s.id in
      let none_left : count (has_id s.id) rs ≡ 0 = ground (arith, same, u) in
      let a =
        update_none (has_id s.id) (still_queued s.id) (claimed now) rs (λ r e. ground arith)
          none_left in
      let b = update_none (has_id s.id) (has_id s.id) (claimed now) rs (λ r e. e) none_left in
      rw (a, b, same, w) ((rw same refl), refl)

  found :
      (runs : List Run)
      → Memᴰ s runs
      → is_queued s.status ≡ true
      → count (has_id s.id) runs ≤ 1
      → IsFound runs
  found [] m w u = elim m [ ]
  found (r ∷ rs) (Memᴰ.head e) w u = rw (sym e) (found_first rs w (rw (sym e) at u))
  found (r ∷ rs) (Memᴰ.tail m) w u =
      let one = count-Mem (has_id s.id) rs s m (eqb_refl s.id) in
      let other : eqb r.id s.id ≡ false = ground (arith, one, u) in
      let (a, b) = found rs m w (ground (arith, u)) in
      (rw (other, other) a, rw other (ap (λ t. r ∷ t) b))

-- In a table whose ids are distinct, ClaimNextQueuedRun answers nothing exactly when no run waits;
-- otherwise it answers the oldest waiting run, which it has set running and started, and it changes
-- no other row.
pub claim_next_queued_run-IsClaim :
    (now : ℕ) (runs : List Run)
    → ((id : Str) → count (has_id id) runs ≤ 1)
    → IsClaim now runs (claim_next_queued_run now runs)
unfolding claim_next_queued_run next_queued claim_queued get_run_by_id
claim_next_queued_run-IsClaim now runs u = elim (Option-cases (next_queued runs)) [
  | inl n ↦ rw n (best-none _ _ runs n, refl)
  | inr (s, q) ↦
      let (m, w, l) = oldest-IsOldest _ _ runs s q in
      let (a, b) = found now s runs m w (u s.id) in
      let some_row = count-Mem (still_queued s.id) runs s m (rw (eqb_refl s.id) w) in
      let few = count_le (still_queued s.id) (has_id s.id) runs (λ r e. ground arith) in
      let one : count (still_queued s.id) runs ≡ 1 = omega (arith, some_row, few, u s.id) in
      rw (q, one, a) (s, (m, w, l), refl, b)
]
