-- ===== src/Action/Laws.antt =====
-- Validate against the contract of an action.
use auditloop.Base.{
  ◌≤◌, ◌≡◌, refl, ◌≢◌, ◌⊎◌, inl, inr, ◌↔◌, true, none, [], ◌∷◌, arith, Str, Bool-cases, len,
  is_empty,
}
use mathlib.Core.List.{Memᴰ}
use auditloop.Base.Text.Laws.{one_of_sound, one_of_complete, ne_of_filled, filled_of_ne}
use auditloop.Action.{
  Kind, click, type_text, press, select, scroll, wait_for, navigate, finish, unknown, Action,
  allowed_keys, allowed_directions, validate, validate_kind,
}

-- What each kind of action needs.
abbrev Shape : Kind → Action → Type 0
Shape click a = a.selector ≢ []
Shape type_text a = (a.selector ≢ []) × (a.text ≢ [])
Shape press a = Memᴰ a.key allowed_keys
Shape select a = (a.selector ≢ []) × (a.value ≢ [])
Shape scroll a = (a.direction ≡ []) ⊎ Memᴰ a.direction allowed_directions
Shape wait_for a = (a.selector ≢ []) ⊎ (a.url_contains ≢ [])
Shape navigate a = a.url ≢ []
Shape finish a = Unit
Shape (unknown name) a = ⊥

pub record IsValid (a : Action) : Type 0 where
  pub selector_fits : len a.selector ≤ 400
  pub text_fits : len a.text ≤ 2000
  pub reason_fits : len a.reason ≤ 500
  pub url_fits : len a.url ≤ 2000
  pub shape : Shape a.kind a

nil_of_empty : (s : Str) → is_empty s ≡ true → s ≡ []
nil_of_empty [] h = refl
nil_of_empty (c ∷ s) h = cc

Shape-sound : (k : Kind) (a : Action) → validate_kind k a ≡ none → Shape k a
unfolding validate_kind
Shape-sound click a h = ne_of_filled a.selector (ground arith)
Shape-sound type_text a h =
    (ne_of_filled a.selector (ground arith), ne_of_filled a.text (ground arith))
Shape-sound press a h = one_of_sound a.key allowed_keys (ground arith)
Shape-sound select a h =
    (ne_of_filled a.selector (ground arith), ne_of_filled a.value (ground arith))
Shape-sound scroll a h = elim (Bool-cases (is_empty a.direction)) [
  | inl e ↦ inl (nil_of_empty a.direction e)
  | inr e ↦ inr (one_of_sound a.direction allowed_directions (ground arith))
]
Shape-sound wait_for a h = elim (Bool-cases (is_empty a.selector)) [
  | inl e ↦ inr (ne_of_filled a.url_contains (ground arith))
  | inr e ↦ inl (ne_of_filled a.selector e)
]
Shape-sound navigate a h = ne_of_filled a.url (ground arith)
Shape-sound finish a h = tt
Shape-sound (unknown name) a h = cc

Shape-complete : (k : Kind) (a : Action) → Shape k a → validate_kind k a ≡ none
unfolding validate_kind
Shape-complete click a s = rw (filled_of_ne a.selector s)
Shape-complete type_text a (s, t) = rw (filled_of_ne a.selector s, filled_of_ne a.text t)
Shape-complete press a m = rw (one_of_complete a.key allowed_keys m)
Shape-complete select a (s, t) = rw (filled_of_ne a.selector s, filled_of_ne a.value t)
Shape-complete scroll a (inl e) = rw e
Shape-complete scroll a (inr m) = ground (arith, one_of_complete a.direction allowed_directions m)
Shape-complete wait_for a (inl n) = rw (filled_of_ne a.selector n)
Shape-complete wait_for a (inr n) = ground (arith, filled_of_ne a.url_contains n)
Shape-complete navigate a n = rw (filled_of_ne a.url n)
Shape-complete finish a s = refl
Shape-complete (unknown name) a s = absurd s

-- Validate accepts exactly the actions of a known kind whose texts keep to the length caps and
-- which carry what their kind needs.
pub validate_iff : (a : Action) → (validate a ≡ none) ↔ IsValid a
unfolding validate
validate_iff a = (
  λ h. record {
    selector_fits = ground arith;
    text_fits = ground arith;
    reason_fits = ground arith;
    url_fits = ground arith;
    shape = Shape-sound a.kind a (ground arith);
  },
  λ v. ground (arith, Shape-complete a.kind a v.shape),
)
