-- ===== src/Base/Text/Order.antt =====
-- The order of Go strings and sort.Strings. Code points and UTF-8 bytes give the same order.
use mathlib.Core.Path.{◌≡◌, refl, sym, ap, ◌∙◌}
use mathlib.Core.Bool.{Bool, true, false, ◌&&◌, ◌||◌}
use mathlib.Core.Logic.{inl, inr}
use mathlib.Core.List.{List, [], ◌∷◌}
use native.Mathlib.Omega.{arith}
use auditloop.Base.Tests.{ltb, ◌==◌, if◌then◌else◌, Bool-cases}
use auditloop.Base.Lists.{All}
use auditloop.Base.Text.{Str, eqb, eqb_iff, eqb_refl, one_of}

unfoldable pub less : Str → Str → Bool
less [] [] = false
less [] (d ∷ t) = true
less (c ∷ s) [] = false
less (c ∷ s) (d ∷ t) = ltb c d || (c == d && less s t)

pub less_irrefl : (s : Str) → less s s ≡ false
unfolding less
less_irrefl [] = refl
less_irrefl (c ∷ s) = ground (arith, less_irrefl s)

pub less_trans : (s t u : Str) → less s t ≡ true → less t u ≡ true → less s u ≡ true
unfolding less
less_trans [] [] u h k = cc
less_trans [] (d ∷ t) [] h k = cc
less_trans [] (d ∷ t) (e ∷ u) h k = refl
less_trans (c ∷ s) [] u h k = cc
less_trans (c ∷ s) (d ∷ t) [] h k = cc
less_trans (c ∷ s) (d ∷ t) (e ∷ u) h k = ground (arith, less_trans s t u)

pub less_total : (s t : Str) → less s t ≡ false → eqb s t ≡ false → less t s ≡ true
unfolding less eqb
less_total [] [] h k = cc
less_total [] (d ∷ t) h k = cc
less_total (c ∷ s) [] h k = refl
less_total (c ∷ s) (d ∷ t) h k = ground (arith, less_total s t)

eqb-false_comm : (s t : Str) → eqb s t ≡ false → eqb t s ≡ false
eqb-false_comm s t h = ground (arith, eqb_iff s t, eqb_iff t s)

unfoldable pub insert_sorted : Str → List Str → List Str
insert_sorted x [] = x ∷ []
insert_sorted x (y ∷ ys) = if less y x then y ∷ insert_sorted x ys else x ∷ y ∷ ys

-- sort.Strings, by insertion; its result is the one sorted arrangement.
unfoldable pub sort : List Str → List Str
unfolding insert_sorted
sort [] = []
sort (x ∷ xs) = insert_sorted x (sort xs)

one_of-insert_sorted :
    (z x : Str) (ys : List Str) → one_of z (insert_sorted x ys) ≡ (eqb z x || one_of z ys)
unfolding insert_sorted one_of
one_of-insert_sorted z x [] = refl
one_of-insert_sorted z x (y ∷ ys) = ground (arith, one_of-insert_sorted z x ys)

-- Sorting keeps the members.
pub one_of-sort : (z : Str) (xs : List Str) → one_of z (sort xs) ≡ one_of z xs
unfolding sort one_of
one_of-sort z [] = refl
one_of-sort z (x ∷ xs) =
    one_of-insert_sorted z x (sort xs) ∙ ap (λ b. eqb z x || b) (one_of-sort z xs)

-- Strictly ascending: sorted, and each member once.
abbrev pub IsAscending : List Str → Type 0
IsAscending [] = Unit
IsAscending (x ∷ xs) = All (λ y. less x y ≡ true) xs × IsAscending xs

abbrev pub HasNoRepeats : List Str → Type 0
HasNoRepeats [] = Unit
HasNoRepeats (x ∷ xs) = (one_of x xs ≡ false) × HasNoRepeats xs

above-insert_sorted :
    (a x : Str) (ys : List Str)
    → less a x ≡ true
    → All (λ y. less a y ≡ true) ys
    → All (λ y. less a y ≡ true) (insert_sorted x ys)
unfolding insert_sorted
above-insert_sorted a x [] h k = (h, tt)
above-insert_sorted a x (y ∷ ys) h (k, ks) = elim (Bool-cases (less y x)) [
  | inl e ↦ rw e (k, above-insert_sorted a x ys h ks)
  | inr e ↦ rw e (h, (k, ks))
]

above_trans :
    (a x : Str) (ys : List Str)
    → less a x ≡ true
    → All (λ y. less x y ≡ true) ys
    → All (λ y. less a y ≡ true) ys
above_trans a x [] h k = tt
above_trans a x (y ∷ ys) h (k, ks) = (less_trans a x y h k, above_trans a x ys h ks)

insert_sorted-IsAscending :
    (x : Str) (ys : List Str)
    → one_of x ys ≡ false
    → IsAscending ys
    → IsAscending (insert_sorted x ys)
unfolding insert_sorted one_of
insert_sorted-IsAscending x [] n h = (tt, tt)
insert_sorted-IsAscending x (y ∷ ys) n (h, hs) = elim (Bool-cases (less y x)) [
  | inl e ↦ rw e (above-insert_sorted y x ys e h, insert_sorted-IsAscending x ys (ground arith) hs)
  | inr e ↦
      let x_first = less_total y x e (eqb-false_comm x y (ground arith)) in
      rw e ((x_first, above_trans x y ys x_first h), (h, hs))
]

-- Sorting a list without repeats gives a strictly ascending one.
pub sort-IsAscending : (xs : List Str) → HasNoRepeats xs → IsAscending (sort xs)
unfolding sort
sort-IsAscending [] h = tt
sort-IsAscending (x ∷ xs) (n, h) =
    insert_sorted-IsAscending x (sort xs) (one_of-sort x xs ∙ n) (sort-IsAscending xs h)

not_above : (a : Str) (ys : List Str) → All (λ y. less a y ≡ true) ys → one_of a ys ≡ false
unfolding one_of
not_above a [] h = refl
not_above a (y ∷ ys) (h, hs) = ground (arith, not_above a ys hs, eqb_iff a y, less_irrefl a)

one_of_head : (x : Str) (xs : List Str) → one_of x (x ∷ xs) ≡ true
unfolding one_of
one_of_head x xs = rw (eqb_refl x)

same_first :
    (x y : Str) (xs ys : List Str)
    → IsAscending (x ∷ xs)
    → IsAscending (y ∷ ys)
    → ((z : Str) → one_of z (x ∷ xs) ≡ one_of z (y ∷ ys))
    → x ≡ y
same_first x y xs ys (h, hs) (k, ks) e = elim (Bool-cases (eqb x y)) [
  | inl same ↦ (eqb_iff x y).0 same
  | inr other ↦ elim (Bool-cases (less x y)) [
    | inl l ↦ cc (sym (one_of_head x xs) ∙ e x ∙ not_above x (y ∷ ys) (l, above_trans x y ys l k))
    | inr n ↦
        let l = less_total x y n other in
        cc (sym (one_of_head y ys) ∙ sym (e y) ∙ not_above y (x ∷ xs) (l, above_trans y x xs l h))
  ]
]

same_rest :
    (x : Str) (xs ys : List Str)
    → All (λ y. less x y ≡ true) xs
    → All (λ y. less x y ≡ true) ys
    → ((z : Str) → one_of z (x ∷ xs) ≡ one_of z (x ∷ ys))
    → (z : Str) → one_of z xs ≡ one_of z ys
unfolding one_of
same_rest x xs ys h k e z = elim (Bool-cases (eqb z x)) [
  | inl same ↦
      let q : z ≡ x = (eqb_iff z x).0 same in rw q (not_above x xs h ∙ sym (not_above x ys k))
  | inr other ↦ rw other at (e z)
]

-- Strictly ascending lists with the same members are equal.
pub ascending_unique :
    (xs ys : List Str)
    → IsAscending xs
    → IsAscending ys
    → ((z : Str) → one_of z xs ≡ one_of z ys)
    → xs ≡ ys
ascending_unique [] [] h k e = refl
ascending_unique [] (y ∷ ys) h k e = cc (sym (one_of_head y ys) ∙ sym (e y) ∙ not_above y [] tt)
ascending_unique (x ∷ xs) [] h k e = cc (sym (one_of_head x xs) ∙ e x ∙ not_above x [] tt)
ascending_unique (x ∷ xs) (y ∷ ys) (h, hs) (k, ks) e =
    let q = same_first x y xs ys (h, hs) (k, ks) e in
    let h' : All (λ z. less y z ≡ true) xs = rw q at h in
    let e' : (z : Str) → one_of z (y ∷ xs) ≡ one_of z (y ∷ ys) = rw q at e in
    rw q (ap (λ t. y ∷ t) (ascending_unique xs ys hs ks (same_rest y xs ys h' k e')))
