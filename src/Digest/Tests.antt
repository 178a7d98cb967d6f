-- ===== src/Digest/Tests.antt =====
-- Digests that are pushed.
use auditloop.Base.{
  ◌≡◌, refl, true, false, some, inl, inr, [], ◌∷◌, codes, eqb, len, rune_len, one_of, trim_space,
  trim_left, trim_right, is_space, to_lower, lower, has_prefix,
}
use auditloop.Base.Text.Pieces.{cut_at, drop}
use auditloop.Base.Text.Scan.{until, after_last, split_at, after_first, trim, dedupe}
use auditloop.Digest.{
  Interactive, FormControl, A11yDigest, is_empty_digest, is_programmatic, known_label_source,
  normalize_selector, extract_id, extract_name, concrete_keys,
}
use auditloop.Digest.Push.{
  PushError, strip, shrink, trunc, valid_tag, check_keys, check_prog, push_interactive,
  push_control, push_landmark, each, normalize_digest, after_decode, normalize_a11y_digest,
}
use auditloop.Digest.Push.Laws.{IsCanonical}
use auditloop.Digest.Push.Accepted.{normalize_digest-IsCanonical}

unfoldable pub digest_runs : Unit {0}
unfolding is_empty_digest is_programmatic known_label_source normalize_selector extract_id
    extract_name concrete_keys eqb len rune_len one_of trim_space trim_left trim_right is_space
    to_lower lower has_prefix cut_at drop until after_last split_at after_first trim dedupe strip
    shrink trunc valid_tag check_keys check_prog push_interactive push_control push_landmark each
    normalize_digest after_decode normalize_a11y_digest
digest_runs = tt

abbrev pub email : FormControl
email = record {
  selector = codes " #e\n";
  accessible_name = codes "E-mail";
  has_label = false;
  label_source = codes "For ";
}

abbrev pub submit : Interactive
submit = record {
  tag = codes "BUTTON";
  role = [];
  accessible_name = codes "Send now";
  selector = codes "button#s";
  input_type = [];
  disabled = false;
  focusable = true;
  label_source = codes "text-content";
}

abbrev pub pushed : A11yDigest
pushed = record { interactive = submit ∷ []; form_controls = email ∷ []; landmarks = [] }

abbrev pub stored : A11yDigest
stored = record {
  interactive = record submit { tag = codes "button" } ∷ [];
  form_controls =
      record email { selector = codes "#e"; has_label = true; label_source = codes "for" } ∷ [];
  landmarks = [];
}

pub pushed-stored : normalize_digest pushed ≡ inr stored
unfolding digest_runs
pushed-stored = refl

-- Two selectors for one anchor, with opposite label sources.
conflict_refused :
    normalize_digest (record pushed {
      form_controls = email ∷ record email { selector = codes "input#e"; label_source = [] } ∷ [];
    })
    ≡ inl PushError.conflicting_label_source
unfolding digest_runs
conflict_refused = refl

nothing_refused :
    normalize_digest (record { interactive = []; form_controls = []; landmarks = [] })
    ≡ inl PushError.empty_digest
unfolding digest_runs
nothing_refused = refl

trailing_refused :
    normalize_a11y_digest (λ raw. some (pushed, true)) (λ d. some []) []
    ≡ inl PushError.trailing_data
unfolding digest_runs
trailing_refused = refl

normalize_digest-IsCanonical_example : IsCanonical stored
normalize_digest-IsCanonical_example = normalize_digest-IsCanonical pushed stored pushed-stored

-- The selector is a single direction override: it passes for one, and what is stored is empty.
selector_of_nothing :
    normalize_digest
      (record pushed { form_controls = record email { selector = 0x202E ∷ [] } ∷ [] })
    ≡ inr (record stored {
      form_controls =
          record email { selector = []; has_label = true; label_source = codes "for" } ∷ [];
    })
unfolding digest_runs
selector_of_nothing = refl
