-- ===== src/Gate/Refute/Index.antt =====
-- What the index holds at an anchor: the merge of the rows with that anchor, in their order.
use auditloop.Base.{
  ◌≡◌, refl, sym, ap, ◌∙◌, inl, inr, Bool, true, false, ◌&&◌, ◌||◌, not, Option, none, some, List,
  [], ◌∷◌, arith, if◌then◌else◌, Bool-cases, Str, eqb, eqb_iff, one_of, any, all,
}
use auditloop.Base.Text.Order.{HasNoRepeats}
use auditloop.Digest.{concrete_keys}
use auditloop.Gate.Refute.{DigestElem, Index, Row, merged, put_keys, put_rows, is_native}

-- The row has the anchor.
abbrev pub on : Str → Row → Bool
on k (selector, e) = one_of k (concrete_keys selector)

abbrev pub merged_on : Str → List Row → Option DigestElem → Option DigestElem
merged_on k [] old = old
merged_on k (r ∷ rows) old = merged_on k rows (if on k r then some (merged r.1 old) else old)

put_keys_lem :
    (e : DigestElem) (ks : List Str) (idx : Index) (k : Str)
    → HasNoRepeats ks
    → put_keys e ks idx k ≡ (if one_of k ks then some (merged e (idx k)) else idx k)
unfolding one_of
put_keys_lem e [] idx k h = refl
put_keys_lem e (j ∷ ks) idx k (n, h) =
    let idx' : Index = λ i. if eqb i j then some (merged e (idx j)) else idx i in
    elim (Bool-cases (eqb k j)) [
      | inl same ↦
          let q : k ≡ j = (eqb_iff k j).0 same in
          let gone : one_of k ks ≡ false = rw q n in
          put_keys_lem e ks idx' k h ∙ rw (gone, same) (ap (λ i. some (merged e (idx i))) (sym q))
      | inr other ↦ put_keys_lem e ks idx' k h ∙ rw other refl
    ]

pub put_rows_lem :
    (distinct : (s : Str) → HasNoRepeats (concrete_keys s)) (rows : List Row) (idx : Index)
    (k : Str)
    → put_rows rows idx k ≡ merged_on k rows (idx k)
unfolding put_rows
put_rows_lem distinct [] idx k = refl
put_rows_lem distinct ((s, e) ∷ rows) idx k =
    put_rows_lem distinct rows (put_keys e (concrete_keys s) idx) k
    ∙ ap (merged_on k rows) (put_keys_lem e (concrete_keys s) idx k (distinct s))

abbrev pub labelled : Option DigestElem → Bool
labelled none = false
labelled (some e) = e.has_prog_label

abbrev pub interacts : Option DigestElem → Bool
interacts none = false
interacts (some e) = e.interactive

-- Not interactive, or operable.
abbrev pub at_ease : DigestElem → Bool
at_ease e = not e.interactive || (e.focusable && not e.disabled)

abbrev pub eases : Option DigestElem → Bool
eases none = true
eases (some e) = at_ease e

abbrev pub native : Option DigestElem → Bool
native none = false
native (some e) = is_native e.tag

and_assoc : (a b c : Bool) → (a && b && c) ≡ (a && (b && c))
and_assoc a b c = ground arith

module _ (k : Str) where
  pub merged_on-labelled :
      (rows : List Row) (old : Option DigestElem)
      → labelled (merged_on k rows old)
        ≡ (labelled old || any (λ r. on k r && r.1.has_prog_label) rows)
  merged_on-labelled [] old = ground arith
  merged_on-labelled (r ∷ rows) none =
      ground (arith, merged_on-labelled rows none, merged_on-labelled rows (some (merged r.1 none)))
  merged_on-labelled (r ∷ rows) (some e) = ground (
    arith,
    merged_on-labelled rows (some e),
    merged_on-labelled rows (some (merged r.1 (some e))),
  )

  pub merged_on-interacts :
      (rows : List Row) (old : Option DigestElem)
      → interacts (merged_on k rows old)
        ≡ (interacts old || any (λ r. on k r && r.1.interactive) rows)
  merged_on-interacts [] old = ground arith
  merged_on-interacts (r ∷ rows) none =
      ground
        (arith, merged_on-interacts rows none, merged_on-interacts rows (some (merged r.1 none)))
  merged_on-interacts (r ∷ rows) (some e) = ground (
    arith,
    merged_on-interacts rows (some e),
    merged_on-interacts rows (some (merged r.1 (some e))),
  )

  merged-eases :
      (e : DigestElem) (old : Option DigestElem)
      → eases (some (merged e old)) ≡ (eases old && at_ease e)
  merged-eases e none = refl
  merged-eases e (some o) = elim (Bool-cases e.interactive) [
    | inl a ↦ elim (Bool-cases o.interactive) [
      | inl b ↦ rw (a, b) (ground arith)
      | inr b ↦ rw (a, b) (ground arith)
    ]
    | inr a ↦ elim (Bool-cases o.interactive) [
      | inl b ↦ rw (a, b) (ground arith)
      | inr b ↦ rw (a, b) (ground arith)
    ]
  ]

  pub merged_on-eases :
      (rows : List Row) (old : Option DigestElem)
      → eases (merged_on k rows old) ≡ (eases old && all (λ r. not (on k r) || at_ease r.1) rows)
  merged_on-eases [] old = ground arith
  merged_on-eases (r ∷ rows) old = elim (Bool-cases (on k r)) [
    | inl there ↦ rw there (
        merged_on-eases rows (some (merged r.1 old))
        ∙ ap (λ b. b && all (λ r. not (on k r) || at_ease r.1) rows) (merged-eases r.1 old)
        ∙ and_assoc (eases old) (at_ease r.1) _)
    | inr away ↦ rw away (merged_on-eases rows old)
  ]

  pub merged_on-native :
      (rows : List Row) (old : Option DigestElem)
      → native (merged_on k rows old) ≡ true
      → (native old || any (λ r. on k r && is_native r.1.tag) rows) ≡ true
  merged_on-native [] old h = ground arith
  merged_on-native (r ∷ rows) none h =
      ground (arith, merged_on-native rows none, merged_on-native rows (some (merged r.1 none)))
  merged_on-native (r ∷ rows) (some e) h =
      ground
        (arith, merged_on-native rows (some e), merged_on-native rows (some (merged r.1 (some e))))
