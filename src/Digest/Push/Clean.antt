-- ===== src/Digest/Push/Clean.antt =====
-- internal/plugin/a11y.go: what trunc leaves of a string.
use auditloop.Base.{
  ℕ, ◌+◌, ◌≤◌, ◌≡◌, refl, inl, inr, Bool, true, ◌&&◌, not, [], ◌∷◌, ◌++◌, arith, ltb, leb,
  Bool-cases, Str, len, all, all-append, trim_space,
}
use auditloop.Base.Text.Pieces.{IsPiece, trim_space-IsPiece}
use auditloop.Digest.Push.{
  is_line_breaking, is_bidi_override, is_control, strip, reversed_onto, shrink, trunc,
}

-- A rune that a stored string may hold.
abbrev pub is_plain : ℕ → Bool
is_plain r = not (is_line_breaking r) && not (is_control r) && not (is_bidi_override r)

abbrev pub IsClean : ℕ → Str → Type 0
IsClean n s = (all is_plain s ≡ true) × (len s ≤ n)

strip_lem : (s : Str) → all is_plain (strip s) ≡ true
unfolding strip
strip_lem [] = refl
strip_lem (r ∷ s) = ground (arith, strip_lem s)

len-append : (s t : Str) → len (s ++ t) ≡ len s + len t
unfolding len
len-append [] t = omega arith
len-append (c ∷ s) t = ground (arith, len-append s t)

piece_lem :
    (r s : Str) → IsPiece r s → all is_plain s ≡ true → (all is_plain r ≡ true) × (len r ≤ len s)
piece_lem r s (b, e, q) h =
    let h' : all is_plain (b ++ (r ++ e)) ≡ true = rw q at h in
    let outer = all-append is_plain b (r ++ e) in
    let inner = all-append is_plain r e in
    let l = len-append b (r ++ e) in let l' = len-append r e in (ground arith, rw q (ground arith))

reversed_lem :
    (s acc : Str)
    → (all is_plain (reversed_onto s acc) ≡ (all is_plain s && all is_plain acc))
      × (len (reversed_onto s acc) ≡ len s + len acc)
unfolding len
reversed_lem [] acc = (refl, omega arith)
reversed_lem (c ∷ s) acc = let (a, b) = reversed_lem s (c ∷ acc) in (ground arith, ground arith)

shrink_lem : (n : ℕ) (b : Str) → all is_plain b ≡ true → IsClean n (shrink n b)
unfolding shrink len
shrink_lem n [] h = (refl, ground arith)
shrink_lem n (c ∷ b) h = elim (Bool-cases (ltb n (len (c ∷ b)))) [
  | inl e ↦ rw e (shrink_lem n b (ground arith))
  | inr e ↦ let (p, l) = reversed_lem (c ∷ b) [] in rw e (ground arith, ground arith)
]

pub trunc-IsClean : (s : Str) (n : ℕ) → IsClean n (trunc s n)
unfolding trunc
trunc-IsClean s n =
    let t = trim_space (strip s) in
    let (p, l) = piece_lem t (strip s) (trim_space-IsPiece (strip s)) (strip_lem s) in
    elim (Bool-cases (leb (len t) n)) [
      | inl e ↦ rw e (p, ground arith)
      | inr e ↦
          let (q, m) = reversed_lem t [] in
          let (p', l') = shrink_lem n (reversed_onto t []) (ground arith) in
          let (p'', l'') = piece_lem _ _ (trim_space-IsPiece (shrink n (reversed_onto t []))) p' in
          rw e (p'', ground arith)
    ]
