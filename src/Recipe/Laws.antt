-- ===== src/Recipe/Laws.antt =====
-- What Validate admits.
use auditloop.Base.{
  ℕ, ◌+◌, ◌≤◌, ◌≡◌, ◌↔◌, refl, ap, ◌⊎◌, inl, inr, true, false, none, List, [], ◌∷◌, arith,
  Bool-cases, Option-cases, eqb_iff, All,
}
use mathlib.Core.List.{Memᴰ}
use auditloop.Base.Int.{ℤ, pos, negsuc, pos_part}
use auditloop.Recipe.{
  StepType, goto, fill, click, wait_for, unknown, ref_username, ref_password, max_wait_timeout_ms,
  Step, is_blank, check_timeout, check_type, check_step, first_error, is_goto, is_wait_for,
  some_step, check_whole, validate,
}

-- The contract of a step, by its type; a string is blank when nothing is left after trimming.
abbrev pub IsGoodStep : Step → Type 0
IsGoodStep s =
    ((s.step_type ≡ goto) × (is_blank s.url ≡ false))
    ⊎ ((s.step_type ≡ fill)
        × (is_blank s.selector ≡ false)
        × (s.value_ref ≡ ref_username ⊎ s.value_ref ≡ ref_password))
    ⊎ ((s.step_type ≡ click) × (is_blank s.selector ≡ false))
    ⊎ ((s.step_type ≡ wait_for)
        × (is_blank s.selector ≡ false ⊎ is_blank s.url_contains ≡ false)
        × ((n : ℕ) × (s.timeout_ms ≡ pos n) × (n ≤ max_wait_timeout_ms)))

-- The contract of a recipe.
abbrev pub IsRecipe : List Step → Type 0
IsRecipe [] = ⊥
IsRecipe (s ∷ ss) =
    (s.step_type ≡ goto)
    × All IsGoodStep (s ∷ ss)
    × ((w : Step) × Memᴰ w (s ∷ ss) × (w.step_type ≡ wait_for))

check_timeout_iff :
    (t : ℤ) → (check_timeout t ≡ none) ↔ ((n : ℕ) × (t ≡ pos n) × (n ≤ max_wait_timeout_ms))
check_timeout_iff (negsuc n) = ((λ h. cc h), λ (m, e, l). cc e)
check_timeout_iff (pos n) =
    ((λ h. (n, refl, ground arith)), λ (m, e, l). ground (arith, ap pos_part e))

check_type_sound :
    (t : StepType) (s : Step) → s.step_type ≡ t → check_type t s ≡ none → IsGoodStep s
check_type_sound goto s e h = inl (e, ground arith)
check_type_sound fill s e h = inr (
    inl (
      e,
      ground arith,
      ground (arith, eqb_iff s.value_ref ref_username, eqb_iff s.value_ref ref_password),
    ))
check_type_sound click s e h = inr (inr (inl (e, ground arith)))
check_type_sound wait_for s e h =
    inr (inr (inr (e, ground arith, (check_timeout_iff s.timeout_ms).0 (ground arith))))
check_type_sound (unknown t) s e h = cc h

check_step_sound : (s : Step) → check_step s ≡ none → IsGoodStep s
unfolding check_step
check_step_sound s h = check_type_sound s.step_type s refl h

check_step_complete : (s : Step) → IsGoodStep s → check_step s ≡ none
unfolding check_step
check_step_complete s (inl (e, u)) = rw (e, u) refl
check_step_complete s (inr (inl (e, u, r))) =
    rw (e, u) (ground (arith, eqb_iff s.value_ref ref_username, eqb_iff s.value_ref ref_password))
check_step_complete s (inr (inr (inl (e, u)))) = rw (e, u) refl
check_step_complete s (inr (inr (inr (e, c, t)))) =
    let timely = (check_timeout_iff s.timeout_ms).1 t in rw (e, timely) (ground arith)

first_error_iff : (i : ℕ) (ss : List Step) → (first_error i ss ≡ none) ↔ All IsGoodStep ss
unfolding first_error
first_error_iff i [] = ((λ h. tt), λ h. refl)
first_error_iff i (s ∷ ss) =
    let (to, from) = first_error_iff (i + 1) ss in
    elim (Option-cases (check_step s)) [
      | inl e ↦ rw e ((λ h. (check_step_sound s e, to h)), λ (g, gs). from gs)
      | inr (x, e) ↦ rw e ((λ h. cc h), λ (g, gs). cc (e, check_step_complete s g))
    ]

some_step_sound :
    (ss : List Step)
    → some_step is_wait_for ss ≡ true
    → (w : Step) × Memᴰ w ss × (w.step_type ≡ wait_for)
unfolding some_step
some_step_sound [] h = cc h
some_step_sound (s ∷ ss) h = elim (Bool-cases (is_wait_for s.step_type)) [
  | inl e ↦ (s, Memᴰ.head refl, ground arith)
  | inr e ↦ let (w, m, t) = some_step_sound ss (ground arith) in (w, Memᴰ.tail m, t)
]

some_step_complete :
    (ss : List Step) (w : Step)
    → Memᴰ w ss
    → w.step_type ≡ wait_for
    → some_step is_wait_for ss ≡ true
unfolding some_step
some_step_complete [] w m t = elim m [ ]
some_step_complete (s ∷ ss) w (Memᴰ.head e) t =
    let t' : s.step_type ≡ wait_for = rw e at t in rw t' refl
some_step_complete (s ∷ ss) w (Memᴰ.tail m) t = rw (some_step_complete ss w m t) (ground arith)

goto_of : (t : StepType) → is_goto t ≡ true → t ≡ goto
goto_of t h = ground arith

whole_sound :
    (s : Step) (ss : List Step)
    → check_whole s (s ∷ ss) ≡ none
    → (s.step_type ≡ goto) × (some_step is_wait_for (s ∷ ss) ≡ true)
unfolding some_step
whole_sound s ss h = (goto_of s.step_type (ground arith), ground arith)

whole_complete :
    (s : Step) (ss : List Step)
    → s.step_type ≡ goto
    → some_step is_wait_for (s ∷ ss) ≡ true
    → check_whole s (s ∷ ss) ≡ none
whole_complete s ss g w =
    let starts : is_goto s.step_type ≡ true = ap is_goto g in
    let found : some_step is_goto (s ∷ ss) ≡ true = unfold some_step in ground arith in
    rw (found, starts, w) refl

-- Validate admits a recipe exactly if it starts with a goto step, every step fulfils the contract of
-- its type, and some step waits for the success condition.
pub validate-IsRecipe_iff : (steps : List Step) → (validate steps ≡ none) ↔ IsRecipe steps
unfolding validate
validate-IsRecipe_iff [] = ((λ h. cc h), λ h. absurd h)
validate-IsRecipe_iff (s ∷ ss) =
    let steps = s ∷ ss in
    let (to, from) = first_error_iff 1 steps in
    elim (Option-cases (first_error 1 steps)) [
      | inl e ↦ rw e (
        (λ h. let (g, w) = whole_sound s ss h in (g, to e, some_step_sound steps w)),
        λ (g, gs, (w, m, t)). whole_complete s ss g (some_step_complete steps w m t),
      )
      | inr (x, e) ↦ rw e ((λ h. cc h), λ (g, gs, w). cc (e, from gs))
    ]
