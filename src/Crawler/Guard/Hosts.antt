-- ===== src/Crawler/Guard/Hosts.antt =====
-- hostAllowed against the relation IsAllowed.
use auditloop.Base.{
  ℕ, ◌≡◌, refl, sym, ◌∙◌, ap, ◌≢◌, ◌⊎◌, inl, inr, true, List, [], ◌∷◌, ◌++◌, arith, Bool-cases, Str,
  eqb, eqb_iff, trim_space, to_lower, has_suffix,
}
use auditloop.Base.Text.Laws.{has_suffix_sound, has_suffix_append}
use auditloop.Crawler.Guard.{fits, host_allowed}
use auditloop.Crawler.Guard.Spec.{IsAllowed, here, there}

fits_sound :
    (host a : Str)
    → fits host a ≡ true
    → (a ≢ []) × ((host ≡ a) ⊎ ((sub : Str) × (host ≡ sub ++ b'.' ∷ a)))
fits_sound host [] h = cc
fits_sound host (c ∷ a) h = elim (Bool-cases (eqb host (c ∷ a))) [
  | inl same ↦ ((λ e. cc), inl ((eqb_iff host (c ∷ a)).0 same))
  | inr other ↦ ((λ e. cc), inr (has_suffix_sound host (b'.' ∷ c ∷ a) (ground arith)))
]

fits_complete :
    (host a : Str)
    → a ≢ []
    → (host ≡ a) ⊎ ((sub : Str) × (host ≡ sub ++ b'.' ∷ a))
    → fits host a ≡ true
fits_complete host [] n h = absurd (n refl)
fits_complete host (c ∷ a) n (inl e) = ground (arith, eqb_iff host (c ∷ a))
fits_complete host (c ∷ a) n (inr (sub, e)) =
    ground (arith, ap (λ s. has_suffix s (b'.' ∷ c ∷ a)) e, has_suffix_append sub (b'.' ∷ c ∷ a))

pub host_allowed_sound :
    (more : List Str) (host : Str) → host_allowed more host ≡ true → IsAllowed host more
unfolding host_allowed
host_allowed_sound [] host h = cc
host_allowed_sound (a ∷ more) host h = elim (Bool-cases (fits host (to_lower (trim_space a)))) [
  | inl e ↦
      let (some_text, within) = fits_sound host (to_lower (trim_space a)) e in here some_text within
  | inr n ↦ there (host_allowed_sound more host (ground arith))
]

pub host_allowed_complete :
    (more : List Str) (host : Str) → IsAllowed host more → host_allowed more host ≡ true
unfolding host_allowed
host_allowed_complete [] host i = elim i [ ]
host_allowed_complete (a ∷ more) host (here n w) =
    rw (fits_complete host (to_lower (trim_space a)) n w)
host_allowed_complete (a ∷ more) host (there i) = ground (arith, host_allowed_complete more host i)

append-ne-nil : (sub : Str) (c : ℕ) (a : Str) → sub ++ c ∷ a ≢ []
append-ne-nil [] c a e = cc
append-ne-nil (d ∷ sub) c a e = cc

pub IsAllowed-ne-nil : {host : Str} {more : List Str} → IsAllowed host more → host ≢ []
IsAllowed-ne-nil (here n (inl same)) e = n (sym same ∙ e)
IsAllowed-ne-nil (here n (inr (sub, same))) e = append-ne-nil sub _ _ (sym same ∙ e)
IsAllowed-ne-nil (there i) e = IsAllowed-ne-nil i e
