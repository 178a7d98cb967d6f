-- ===== src/Walkthrough/Regression/Blockers/Laws.antt =====
-- The keys of blockers: where they come from, and what they ignore.
use auditloop.Base.{
  ◌≡◌, refl, inl, inr, true, ◌||◌, not, Option, List, [], ◌∷◌, ◌++◌, Bool-cases, Str, eqb, one_of,
  All, All-append, arith,
}
use mathlib.Core.List.{Memᴰ}
use auditloop.Base.Text.Fields.{collapse_idem}
use auditloop.Report.{EvalFinding}
use auditloop.Walkthrough.Regression.Blockers.{
  PageEvaluation, normalize_blocker, blocker_key, page_keys, cell_blockers, keys_from,
  blocker_keys_from_evaluations,
}

-- A blocker whose selector and issue are already written the normal way, in lower case and with
-- single spaces, has the same key as the blocker that they were normalized from.
pub blocker_key-normalize :
    (persona : Str) (b : EvalFinding)
    → blocker_key persona
        (record b { selector = normalize_blocker b.selector; issue = normalize_blocker b.issue })
      ≡ blocker_key persona b
unfolding blocker_key normalize_blocker
blocker_key-normalize persona b = rw (collapse_idem b.selector, collapse_idem b.issue) refl

page_keys-All :
    (P : Str → Type 0) (persona : Str) (bs : List EvalFinding) (seen : List Str)
    → ((b : EvalFinding) → Memᴰ b bs → b.verified ≡ true → P (blocker_key persona b))
    → All P (page_keys persona bs seen)
unfolding page_keys
page_keys-All P persona [] seen h = tt
page_keys-All P persona (b ∷ bs) seen h =
    let key = blocker_key persona b in
    elim (Bool-cases (not b.verified || eqb key (persona ++ 0x1f ∷ []) || one_of key seen)) [
      | inl e ↦ rw e (page_keys-All P persona bs seen (λ c m v. h c (Memᴰ.tail m) v))
      | inr e ↦ rw e (
        h b (Memᴰ.head refl) (ground arith),
        page_keys-All P persona bs (key ∷ seen) (λ c m v. h c (Memᴰ.tail m) v),
      )
    ]

module _ (decode : Str → Option (List EvalFinding)) where
  -- The key of a verified blocker that one of the evaluations holds, for that persona.
  abbrev pub IsKeyOf : List PageEvaluation → Str → Type 0
  IsKeyOf evals k =
      (pe : PageEvaluation) × Memᴰ pe evals
      × ((b : EvalFinding) × Memᴰ b (cell_blockers decode pe)
          × (b.verified ≡ true)
          × (k ≡ blocker_key pe.persona b))

  keys_from-All :
      (P : Str → Type 0) (evals : List PageEvaluation) (seen : List Str)
      → ((pe : PageEvaluation)
          → Memᴰ pe evals
          → (b : EvalFinding) → Memᴰ b (cell_blockers decode pe)
          → b.verified ≡ true
          → P (blocker_key pe.persona b))
      → All P (keys_from decode evals seen)
  unfolding keys_from
  keys_from-All P [] seen h = tt
  keys_from-All P (pe ∷ pes) seen h =
      All-append P (page_keys pe.persona (cell_blockers decode pe) seen) _
        (page_keys-All P pe.persona (cell_blockers decode pe) seen
          (λ b m v. h pe (Memᴰ.head refl) b m v))
        (keys_from-All P pes _ (λ q n b m v. h q (Memᴰ.tail n) b m v))

  -- Every key that is collected is the key of a verified blocker in one of the evaluations: what
  -- the verification pass did not confirm cannot count as a new blocker.
  pub blocker_keys-All :
      (evals : List PageEvaluation)
      → All (IsKeyOf evals) (blocker_keys_from_evaluations decode evals)
  unfolding blocker_keys_from_evaluations
  blocker_keys-All evals =
      keys_from-All (IsKeyOf evals) evals [] (λ pe n b m v. (pe, n, (b, m, v, refl)))
