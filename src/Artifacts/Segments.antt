-- ===== src/Artifacts/Segments.antt =====
-- The parts of a key whose first two segments are tokens.
use auditloop.Base.{
  ◌≡◌, refl, ap, ◌∙◌, true, false, [], ◌∷◌, ◌++◌, arith, ◌==◌, Str, codes, length, all, eqb_iff,
  has_prefix, contains,
}
use mathlib.Core.Path.{subst}
use mathlib.Core.List.{append-nil}
use auditloop.Storage.{◌slash◌}
use auditloop.Storage.Laws.{IsToken, is_token_rune}
use auditloop.Artifacts.{split, onto_first, is_target_scope}

-- What uuid.NewString gives.
abbrev pub IsUuid : Str → Type 0
IsUuid s = IsToken s × (length s ≡ 36)

split_token :
    (s rest : Str) → all is_token_rune s ≡ true → split b'/' (s slash rest) ≡ s ∷ split b'/' rest
unfolding split
split_token [] rest h = refl
split_token (c ∷ s) rest h =
    let more = split_token s rest (ground (arith, h)) in
    let e : (c == b'/') ≡ false = ground (arith, h) in rw e (ap (onto_first c) more)

pub split_scoped :
    (s t rest : Str)
    → IsToken s
    → IsToken t
    → split b'/' (s slash t slash rest) ≡ s ∷ t ∷ split b'/' rest
split_scoped s t rest (n, h) (m, k) =
    split_token s (t slash rest) h ∙ ap (λ parts. s ∷ parts) (split_token t rest k)

-- A uuid is neither of the two segments that stand for a target's artifacts.
pub uuid_not_scope : (t : Str) → IsUuid t → is_target_scope t ≡ false
uuid_not_scope t (h, n) = ground (
  arith,
  n,
  eqb_iff t (codes "login-tests"),
  eqb_iff t (codes "walkthroughs"),
  ap length {x = t} {y = codes "login-tests"},
  ap length {x = t} {y = codes "walkthroughs"},
)

pub contains_token :
    (s t : Str)
    → all is_token_rune s ≡ true
    → contains (s ++ t) (codes "..") ≡ contains t (codes "..")
unfolding contains has_prefix
contains_token [] t h = refl
contains_token (c ∷ s) t h =
    let more = contains_token s t (ground (arith, h)) in
    let e : (c == b'.') ≡ false = ground (arith, h) in rw e more

contains_slash : (t : Str) → contains (b'/' ∷ t) (codes "..") ≡ contains t (codes "..")
unfolding contains has_prefix
contains_slash t = refl

pub contains_segment :
    (s rest : Str)
    → all is_token_rune s ≡ true
    → contains (s slash rest) (codes "..") ≡ contains rest (codes "..")
contains_segment s rest h = contains_token s (b'/' ∷ rest) h ∙ contains_slash rest

pub contains_favicon :
    (t : Str) → all is_token_rune t ≡ true → contains (codes "favicon." ++ t) (codes "..") ≡ false
unfolding contains has_prefix
contains_favicon [] h = refl
contains_favicon (c ∷ t) h =
    let more =
      subst (λ u. contains u (codes "..") ≡ false) (append-nil t)
        (contains_token t [] (ground (arith, h))) in
    let e : (c == b'.') ≡ false = ground (arith, h) in rw e more
