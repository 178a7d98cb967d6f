-- ===== src/Digest/Push.antt =====
-- internal/plugin/a11y.go: the check of a digest that a plugin pushes. encoding/json's decoder and
-- encoder are parameters; an error is its kind, without the index and the text of the message.
pub mod Clean
pub mod Anchors
pub mod Laws
pub mod Accepted
use auditloop.Base.{
  ℕ, Bool, true, false, ◌&&◌, ◌||◌, not, Option, none, some, ◌⊎◌, inl, inr, List, [], ◌∷◌, ltb, leb,
  ◌==◌, if◌then◌else◌, length, all, Str, len, eqb, is_empty, trim_space, to_lower,
}
use auditloop.Digest.{
  Interactive, FormControl, Landmark, A11yDigest, is_empty_digest, is_programmatic,
  known_label_source, normalize_label_source, concrete_keys, max_digest_bytes, max_interactive,
  max_form_controls, max_landmarks, max_selector_len, max_name_len, max_text_len, max_token_len,
}

pub data PushError : Type 0 where
  too_large invalid_json trailing_data too_many_elements selector_required unknown_label_source
        invalid_tag conflicting_label_source empty_digest not_serializable :
      PushError

abbrev pub Checked {ℓ} : Type ℓ → Type ℓ
Checked A = PushError ⊎ A

abbrev pub and_then {ℓ} : {A B : Type ℓ} → Checked A → (A → Checked B) → Checked B
and_then (inl e) f = inl e
and_then (inr a) f = f a

abbrev pub is_line_breaking : ℕ → Bool
is_line_breaking r = r == 0x2028 || r == 0x2029

abbrev pub is_bidi_override : ℕ → Bool
is_bidi_override r = (leb 0x202A r && leb r 0x202E) || (leb 0x2066 r && leb r 0x2069)

-- unicode.IsControl
abbrev pub is_control : ℕ → Bool
is_control r = leb r 0x1F || (leb 0x7F r && leb r 0x9F)

-- The strings.Map of trunc.
unfoldable pub strip : Str → Str
strip [] = []
strip (r ∷ s) =
    let rest = strip s in
    if r == 9 || r == 10 || r == 13
    then 32 ∷ rest
    else if is_line_breaking r
    then 32 ∷ rest
    else if is_control r || is_bidi_override r
    then rest
    else r ∷ rest

abbrev pub reversed_onto : Str → Str → Str
reversed_onto [] acc = acc
reversed_onto (c ∷ s) acc = reversed_onto s (c ∷ acc)

-- The loop that takes away the last rune while there are too many bytes; the runes stand in reverse.
unfoldable pub shrink : ℕ → Str → Str
shrink n [] = []
shrink n (c ∷ b) =
    let shorter = shrink n b in if ltb n (len (c ∷ b)) then shorter else reversed_onto (c ∷ b) []

unfoldable pub trunc : Str → ℕ → Str
trunc s n =
    let t = trim_space (strip s) in
    if leb (len t) n then t else trim_space (shrink n (reversed_onto t []))

abbrev is_letter : ℕ → Bool
is_letter c = leb b'a' c && leb c b'z'

abbrev is_tag_rune : ℕ → Bool
is_tag_rune c = is_letter c || (leb b'0' c && leb c b'9') || c == b'-'

-- ^[a-z][a-z0-9-]*$
unfoldable pub valid_tag : Str → Bool
valid_tag [] = false
valid_tag (c ∷ s) = is_letter c && all is_tag_rune s

-- progByAnchor
abbrev pub Verdicts : Type 0
Verdicts = Str → Option Bool

abbrev pub disagrees : Option Bool → Bool → Bool
disagrees none prog = false
disagrees (some prev) prog = if prog then not prev else prev

abbrev pub put : Str → Bool → Verdicts → Verdicts
put k prog seen j = if eqb j k then some prog else seen j

unfoldable pub check_keys : List Str → Bool → Verdicts → Checked Verdicts
check_keys [] prog seen = inr seen
check_keys (k ∷ ks) prog seen =
    let rest = check_keys ks prog (put k prog seen) in
    if disagrees (seen k) prog then inl conflicting_label_source else rest

unfoldable pub check_prog : Str → Bool → Verdicts → Checked Verdicts
check_prog selector prog seen = check_keys (concrete_keys selector) prog seen

abbrev pub tag_of : Str → Str
tag_of tag = to_lower (trunc tag max_token_len)

abbrev pub clean_interactive : Interactive → Interactive
clean_interactive e = record e {
  tag = tag_of e.tag;
  role = trunc e.role max_token_len;
  input_type = trunc e.input_type max_token_len;
  selector = trunc e.selector max_selector_len;
  accessible_name = trunc e.accessible_name max_name_len;
  label_source = normalize_label_source e.label_source;
}

abbrev pub with_verdict {ℓ} : {A : Type ℓ} → A → Checked Verdicts → Checked (A × Verdicts)
with_verdict x (inl e) = inl e
with_verdict x (inr seen) = inr (x, seen)

-- One turn of the loop over d.Interactive.
unfoldable pub push_interactive : Interactive → Verdicts → Checked (Interactive × Verdicts)
push_interactive e seen =
    let out = clean_interactive e in
    if is_empty (trim_space e.selector)
    then inl selector_required
    else if not (known_label_source e.label_source)
    then inl unknown_label_source
    else if not (is_empty out.tag) && not (valid_tag out.tag)
    then inl invalid_tag
    else with_verdict out (check_prog out.selector (is_programmatic out.label_source) seen)

abbrev pub clean_control : FormControl → FormControl
clean_control c = record c {
  selector = trunc c.selector max_selector_len;
  accessible_name = trunc c.accessible_name max_name_len;
  label_source = normalize_label_source c.label_source;
  has_label = is_programmatic (normalize_label_source c.label_source);
}

unfoldable pub push_control : FormControl → Verdicts → Checked (FormControl × Verdicts)
push_control c seen =
    let out = clean_control c in
    if is_empty (trim_space c.selector)
    then inl selector_required
    else if not (known_label_source c.label_source)
    then inl unknown_label_source
    else with_verdict out (check_prog out.selector (is_programmatic out.label_source) seen)

abbrev pub clean_landmark : Landmark → Landmark
clean_landmark l = record {
  tag = tag_of l.tag;
  role = trunc l.role max_token_len;
  text = trunc l.text max_text_len;
}

unfoldable pub push_landmark : Landmark → Verdicts → Checked (Landmark × Verdicts)
push_landmark l seen =
    let out = clean_landmark l in
    if not (is_empty out.tag) && not (valid_tag out.tag) then inl invalid_tag else inr (out, seen)

-- A loop that ends with the first error.
unfoldable pub each {ℓ} :
    {A : Type ℓ}
    → (A → Verdicts → Checked (A × Verdicts))
    → List A
    → Verdicts
    → Checked (List A × Verdicts)
each f [] seen = inr ([], seen)
each f (x ∷ xs) seen =
    and_then (f x seen)
      λ (y, seen'). and_then (each f xs seen') λ (ys, seen''). inr (y ∷ ys, seen'')

-- What the push stores of a decoded digest.
unfoldable pub normalize_digest : A11yDigest → Checked A11yDigest
normalize_digest d =
    if ltb max_interactive (length d.interactive)
    then inl too_many_elements
    else if ltb max_form_controls (length d.form_controls)
    then inl too_many_elements
    else if ltb max_landmarks (length d.landmarks)
    then inl too_many_elements
    else and_then (each push_interactive d.interactive (λ k. none)) λ (es, seen).
      and_then (each push_control d.form_controls seen) λ (cs, seen').
        and_then (each push_landmark d.landmarks seen') λ (ls, seen'').
          let out : A11yDigest = record { interactive = es; form_controls = cs; landmarks = ls } in
          if is_empty_digest (some out) then inl empty_digest else inr out

abbrev pub encoded : Option Str → Checked Str
encoded none = inl not_serializable
encoded (some bytes) = inr bytes

-- The decoder, of the bytes, gives the digest and whether there is more behind it.
module _ (decode : Str → Option (A11yDigest × Bool)) (encode : A11yDigest → Option Str) where
  unfoldable pub after_decode : Option (A11yDigest × Bool) → Checked Str
  after_decode none = inl invalid_json
  after_decode (some (d, more)) =
      if more then inl trailing_data else and_then (normalize_digest d) λ out. encoded (encode out)

  unfoldable pub normalize_a11y_digest : Str → Checked Str
  normalize_a11y_digest raw =
      if ltb max_digest_bytes (length raw) then inl too_large else after_decode (decode raw)
