-- ===== src/Base/Text/Pieces.antt =====
-- Cutting strings, and what it means to be a piece of a string.
use Prim.Native.Nat.{ℕ, zero, suc}
use mathlib.Core.Path.{◌≡◌, refl, sym, ap, ◌∙◌}
use mathlib.Core.Bool.{Bool, ◌&&◌}
use mathlib.Core.Option
use mathlib.Core.Option.{Option, none, some}
use mathlib.Core.List.{[], ◌∷◌, ◌++◌, append_assoc, append-nil}
use native.Mathlib.Omega.{arith}
use auditloop.Base.Tests.{◌==◌, if◌then◌else◌, Bool-cases, Option-cases}
use mathlib.Core.Logic.{inl, inr}
use auditloop.Base.Lists.{length}
use auditloop.Base.Text.{Str, has_prefix, trim_left, trim_right, trim_space, is_space, is_empty}

-- s[n:]
unfoldable pub drop : ℕ → Str → Str
drop zero s = s
drop (suc n) [] = []
drop (suc n) (c ∷ s) = drop n s

unfoldable pub trim_prefix : Str → Str → Str
unfolding has_prefix drop
trim_prefix s p = if has_prefix s p then drop (length p) s else s

abbrev cons_first : ℕ → Str × Str → Str × Str
cons_first c (before, rest) = (c ∷ before, rest)

-- strings.Index, with what stands before the first place of p, and what begins there.
unfoldable pub cut_at : Str → Str → Option (Str × Str)
unfolding has_prefix
cut_at p [] = if has_prefix [] p then some ([], []) else none
cut_at p (c ∷ s) =
    let later = Option.map (cons_first c) (cut_at p s) in
    if has_prefix (c ∷ s) p then some ([], c ∷ s) else later

-- s[strings.IndexByte(s, c):], if there is such a byte.
unfoldable pub from_first : ℕ → Str → Option Str
from_first c [] = none
from_first c (d ∷ s) = if d == c then some (d ∷ s) else from_first c s

-- s[:strings.LastIndexByte(s, c)+1], if there is such a byte.
unfoldable pub to_last : ℕ → Str → Option Str
to_last c [] = none
to_last c (d ∷ s) = elim (to_last c s) [
  | some more ↦ some (d ∷ more)
  | none ↦ if d == c then some (d ∷ []) else none
]

abbrev pub IsPiece : Str → Str → Type 0
IsPiece r s = (before : Str) × (behind : Str) × (s ≡ before ++ (r ++ behind))

pub IsPiece-refl : (s : Str) → IsPiece s s
IsPiece-refl s = ([], [], sym (append-nil s))

pub IsPiece-trans : (r s t : Str) → IsPiece r s → IsPiece s t → IsPiece r t
IsPiece-trans r s t (b, e, p) (b', e', q) = (b' ++ b, e ++ e', rw (q, p) (simp append_assoc))

pub IsPiece-cons : (c : ℕ) (r s : Str) → IsPiece r s → IsPiece r (c ∷ s)
IsPiece-cons c r s (b, e, p) = (c ∷ b, e, ap (λ s. c ∷ s) p)

trim_left-IsPiece : (p : ℕ → Bool) (s : Str) → IsPiece (trim_left p s) s
unfolding trim_left
trim_left-IsPiece p [] = IsPiece-refl []
trim_left-IsPiece p (c ∷ s) = elim (Bool-cases (p c)) [
  | inl e ↦ rw e (IsPiece-cons c _ s (trim_left-IsPiece p s))
  | inr e ↦ rw e (IsPiece-refl (c ∷ s))
]

-- What trim_right takes away stands at the end.
trim_right-rest : (p : ℕ → Bool) (s : Str) → (rest : Str) × (s ≡ trim_right p s ++ rest)
unfolding trim_right
trim_right-rest p [] = ([], refl)
trim_right-rest p (c ∷ s) =
    let (rest, e) = trim_right-rest p s in
    elim (Bool-cases (p c && is_empty (trim_right p s))) [
      | inl b ↦ (c ∷ s, rw b)
      | inr b ↦ (rest, rw b (ap (λ t. c ∷ t) e))
    ]

pub trim_space-IsPiece : (s : Str) → IsPiece (trim_space s) s
unfolding trim_space
trim_space-IsPiece s =
    let t = trim_left is_space s in
    let (rest, e) = trim_right-rest is_space t in
    IsPiece-trans _ t s ([], rest, e) (trim_left-IsPiece is_space s)

pub cut_at-before : (p s b r : Str) → cut_at p s ≡ some (b, r) → s ≡ b ++ r
unfolding cut_at
cut_at-before p [] b r h = ground arith
cut_at-before p (c ∷ s) b r h = elim (Bool-cases (has_prefix (c ∷ s) p)) [
  | inl e ↦ ground arith
  | inr e ↦ elim (Option-cases (cut_at p s)) [
    | inl none_there ↦ cc (rw (e, none_there) at h)
    | inr ((b', r'), found) ↦
        let h' = rw (e, found) at h in
        let eb : c ∷ b' ≡ b = cc h' in
        let er : r' ≡ r = cc h' in rw (← eb, ← er) (ap (λ t. c ∷ t) (cut_at-before p s b' r' found))
  ]
]

drop-suffix : (n : ℕ) (s : Str) → (b : Str) × (s ≡ b ++ drop n s)
unfolding drop
drop-suffix zero s = ([], refl)
drop-suffix (suc n) [] = ([], refl)
drop-suffix (suc n) (c ∷ s) = let (b, e) = drop-suffix n s in (c ∷ b, ap (λ t. c ∷ t) e)

pub drop-IsPiece : (n : ℕ) (s : Str) → IsPiece (drop n s) s
drop-IsPiece n s =
    let (b, e) = drop-suffix n s in (b, [], e ∙ ap (λ t. b ++ t) (sym (append-nil _)))

pub trim_prefix-IsPiece : (s p : Str) → IsPiece (trim_prefix s p) s
unfolding trim_prefix
trim_prefix-IsPiece s p = elim (Bool-cases (has_prefix s p)) [
  | inl e ↦ rw e (drop-IsPiece (length p) s)
  | inr e ↦ rw e (IsPiece-refl s)
]

-- A text that begins with c.
abbrev pub BeginsWith : ℕ → Str → Type 0
BeginsWith c s = (t : Str) × (s ≡ c ∷ t)

abbrev pub EndsWith : ℕ → Str → Type 0
EndsWith c s = (t : Str) × (s ≡ t ++ c ∷ [])

pub from_first_lem :
    (c : ℕ) (s r : Str) → from_first c s ≡ some r → BeginsWith c r × ((b : Str) × (s ≡ b ++ r))
unfolding from_first
from_first_lem c [] r h = cc
from_first_lem c (d ∷ s) r h = elim (Bool-cases (d == c)) [
  | inl e ↦ ((s, ground arith), ([], ground arith))
  | inr e ↦
      let (begins, (b, q)) = from_first_lem c s r (rw e at h) in
      (begins, (d ∷ b, ap (λ t. d ∷ t) q))
]

pub to_last_lem :
    (c : ℕ) (s r : Str) → to_last c s ≡ some r → EndsWith c r × ((e : Str) × (s ≡ r ++ e))
unfolding to_last
to_last_lem c [] r h = cc
to_last_lem c (d ∷ s) r h = elim (Option-cases (to_last c s)) [
  | inl nothing ↦ elim (Bool-cases (d == c)) [
    | inl e ↦
        let h' = rw (nothing, e) at h in
        let q : d ∷ [] ≡ r = cc h' in rw (← q) (([], ground arith), (s, refl))
    | inr e ↦ cc (rw (nothing, e) at h)
  ]
  | inr (more, found) ↦
      let ((t, ends), (e, q)) = to_last_lem c s more found in
      let h' = rw found at h in
      let same : d ∷ more ≡ r = cc h' in
      rw (← same) ((d ∷ t, ap (λ x. d ∷ x) ends), (e, ap (λ x. d ∷ x) q))
]
