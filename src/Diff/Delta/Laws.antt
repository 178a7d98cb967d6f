-- ===== src/Diff/Delta/Laws.antt =====
-- StringSetDelta as a difference of sets.
use auditloop.Base.{
  ◌≡◌, refl, sym, ap, ap₂, ◌∙◌, inl, inr, ◌&&◌, ◌||◌, not, List, [], ◌∷◌, arith, Bool-cases, Str,
  eqb_iff, is_empty, one_of,
}
use auditloop.Base.Text.Order.{
  sort, one_of-sort, IsAscending, HasNoRepeats, sort-IsAscending, ascending_unique,
}
use auditloop.Diff.Delta.{to_set, missing_from, string_set_delta}

one_of-to_set : (z : Str) (ss : List Str) → one_of z (to_set ss) ≡ (one_of z ss && not (is_empty z))
unfolding to_set one_of
one_of-to_set z [] = refl
one_of-to_set z (s ∷ ss) = ground (
  arith,
  one_of-to_set z ss,
  one_of-to_set s ss,
  eqb_iff z s,
  ap is_empty {x = z} {y = s},
  ap (λ t. one_of t (to_set ss)) {x = z} {y = s},
)

to_set-HasNoRepeats : (ss : List Str) → HasNoRepeats (to_set ss)
unfolding to_set
to_set-HasNoRepeats [] = tt
to_set-HasNoRepeats (s ∷ ss) = elim (Bool-cases (is_empty s || one_of s (to_set ss))) [
  | inl e ↦ rw e (to_set-HasNoRepeats ss)
  | inr e ↦ rw e (ground arith, to_set-HasNoRepeats ss)
]

one_of-missing_from :
    (z : Str) (other vs : List Str)
    → one_of z (missing_from other vs) ≡ (one_of z vs && not (one_of z other))
unfolding missing_from one_of
one_of-missing_from z other [] = refl
one_of-missing_from z other (v ∷ vs) =
    ground
      (arith, one_of-missing_from z other vs, eqb_iff z v, ap (λ t. one_of t other) {x = z} {y = v})

missing_from-HasNoRepeats :
    (other vs : List Str) → HasNoRepeats vs → HasNoRepeats (missing_from other vs)
unfolding missing_from
missing_from-HasNoRepeats other [] h = tt
missing_from-HasNoRepeats other (v ∷ vs) (n, h) = elim (Bool-cases (one_of v other)) [
  | inl e ↦ rw e (missing_from-HasNoRepeats other vs h)
  | inr e ↦ rw e (
    one_of-missing_from v other vs ∙ ap (λ b. b && not (one_of v other)) n,
    missing_from-HasNoRepeats other vs h,
  )
]

both-HasNoRepeats : (other ss : List Str) → HasNoRepeats (missing_from (to_set other) (to_set ss))
both-HasNoRepeats other ss =
    missing_from-HasNoRepeats (to_set other) (to_set ss) (to_set-HasNoRepeats ss)

one_of-side :
    (z : Str) (other ss : List Str)
    → one_of z (sort (missing_from (to_set other) (to_set ss)))
      ≡ (one_of z ss && not (one_of z other) && not (is_empty z))
one_of-side z other ss = ground (
  arith,
  one_of-sort z (missing_from (to_set other) (to_set ss)),
  one_of-missing_from z (to_set other) (to_set ss),
  one_of-to_set z ss,
  one_of-to_set z other,
)

-- A string is reported as added exactly if it is not empty, stands in the current list and not in
-- the previous one, and as removed exactly if that holds the other way round; both lists are
-- strictly ascending, so each string is reported once.
pub string_set_delta-IsAscending :
    (prev cur : List Str)
    → let (added, removed) = string_set_delta prev cur in
      IsAscending added
      × IsAscending removed
      × ((z : Str)
          → (one_of z added ≡ (one_of z cur && not (one_of z prev) && not (is_empty z)))
            × (one_of z removed ≡ (one_of z prev && not (one_of z cur) && not (is_empty z))))
unfolding string_set_delta
string_set_delta-IsAscending prev cur = (
  sort-IsAscending _ (both-HasNoRepeats prev cur),
  sort-IsAscending _ (both-HasNoRepeats cur prev),
  λ z. (one_of-side z prev cur, one_of-side z cur prev),
)

side_unique :
    (p q xs ys : List Str)
    → ((z : Str) → one_of z p ≡ one_of z q)
    → ((z : Str) → one_of z xs ≡ one_of z ys)
    → sort (missing_from (to_set p) (to_set xs)) ≡ sort (missing_from (to_set q) (to_set ys))
side_unique p q xs ys h k =
    ascending_unique _ _ (sort-IsAscending _ (both-HasNoRepeats p xs))
      (sort-IsAscending _ (both-HasNoRepeats q ys))
      (λ z.
        one_of-side z p xs
        ∙ ap₂ (λ b c. b && not c && not (is_empty z)) (k z) (h z)
        ∙ sym (one_of-side z q ys))

-- The delta depends only on which strings occur: lists with the same members, in whatever order and
-- however often, give the same delta.
pub string_set_delta_canonical :
    (p q xs ys : List Str)
    → ((z : Str) → one_of z p ≡ one_of z q)
    → ((z : Str) → one_of z xs ≡ one_of z ys)
    → string_set_delta p xs ≡ string_set_delta q ys
unfolding string_set_delta
string_set_delta_canonical p q xs ys h k =
    ap₂ (λ a b. (a, b)) (side_unique p q xs ys h k) (side_unique xs ys p q k h)
