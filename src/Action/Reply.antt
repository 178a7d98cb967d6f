-- ===== src/Action/Reply.antt =====
-- internal/action/action.go, ParseAction and extractJSON: one action out of a model's reply.
use auditloop.Base.{
  ℕ, ◌≡◌, refl, ◌∙◌, sym, inl, inr, ap, Option, none, some, [], ◌∷◌, ◌++◌, arith, Option-cases, Str,
  codes, trim_space, to_lower,
}
use mathlib.Core.List.{append-nil}
use auditloop.Base.Text.Pieces.{
  drop, trim_prefix, cut_at, from_first, to_last, IsPiece, IsPiece-refl, IsPiece-trans, BeginsWith,
  EndsWith, cut_at-before, drop-IsPiece, trim_prefix-IsPiece, trim_space-IsPiece, from_first_lem,
  to_last_lem,
}
use auditloop.Action.{Action}

abbrev fence : Str
fence = codes "```"

-- What stands before the next fence, or all of it.
abbrev until_fence : Str → Option (Str × Str) → Str
until_fence rest none = rest
until_fence rest (some (before, behind)) = before

abbrev unfenced_at : Str → Option (Str × Str) → Str
unfenced_at s none = s
unfenced_at s (some (before, at_fence)) =
    let rest = trim_prefix (trim_prefix (drop 3 at_fence) (codes "json")) (codes "JSON") in
    trim_space (until_fence rest (cut_at fence rest))

-- The inside of the first code fence, if there is one.
unfenced : Str → Str
unfenced s = unfenced_at s (cut_at fence s)

-- From the first `{` to the last `}`; none is the error "no JSON object found".
braces : Option Str → Option Str
braces none = none
braces (some s) = to_last b'}' s

unfoldable pub extract_json : Str → Option Str
unfolding unfenced braces
extract_json s = braces (from_first b'{' (unfenced (trim_space s)))

normalized : Action → Action
normalized a = record a {
  selector = trim_space a.selector;
  key = trim_space a.key;
  direction = to_lower (trim_space a.direction);
  url = trim_space a.url;
  url_contains = trim_space a.url_contains;
  reason = trim_space a.reason;
}

-- `decode` is the strict JSON decoder, with the text of the type trimmed.
unfoldable pub parse_action : (Str → Option Action) → Str → Option Action
unfolding normalized
parse_action decode reply = elim (extract_json reply) [
  | none ↦ none
  | some raw ↦ elim (decode raw) [ none ↦ none | some a ↦ some (normalized a) ]
]

until_fence-IsPiece :
    (rest : Str) (o : Option (Str × Str))
    → cut_at fence rest ≡ o
    → IsPiece (until_fence rest o) rest
until_fence-IsPiece rest none e = IsPiece-refl rest
until_fence-IsPiece rest (some (b, r)) e = ([], r, cut_at-before fence rest b r e)

unfenced_at-IsPiece :
    (s : Str) (o : Option (Str × Str)) → cut_at fence s ≡ o → IsPiece (unfenced_at s o) s
unfenced_at-IsPiece s none e = IsPiece-refl s
unfenced_at-IsPiece s (some (b, r)) e =
    let d = drop 3 r in
    let j = trim_prefix d (codes "json") in
    let rest = trim_prefix j (codes "JSON") in
    let inner = until_fence rest (cut_at fence rest) in
    let at : IsPiece r s =
      (b, [], cut_at-before fence s b r e ∙ ap (λ t. b ++ t) (sym (append-nil r))) in
    IsPiece-trans _ inner s (trim_space-IsPiece inner) (
      IsPiece-trans inner rest s (until_fence-IsPiece rest _ refl) (
        IsPiece-trans rest j s (trim_prefix-IsPiece j (codes "JSON")) (
          IsPiece-trans j d s (trim_prefix-IsPiece d (codes "json"))
            (IsPiece-trans d r s (drop-IsPiece 3 r) at))))

begins_of_append :
    (c d : ℕ) (r e u : Str) → u ≡ r ++ e → EndsWith d r → BeginsWith c u → BeginsWith c r
begins_of_append c d [] e u p ([], q) b = cc
begins_of_append c d [] e u p (x ∷ t, q) b = cc
begins_of_append c d (x ∷ r) e u p ends (t, q) = (r, ground arith)

-- What extractJSON returns is one piece of the reply, which begins with `{` and ends with `}`.
pub extract_json-IsPiece :
    (s r : Str) → extract_json s ≡ some r → IsPiece r s × BeginsWith b'{' r × EndsWith b'}' r
unfolding extract_json
extract_json-IsPiece s r h = elim (Option-cases (from_first b'{' (unfenced (trim_space s)))) [
  | inl nothing ↦ cc (rw nothing at h)
  | inr (u, found) ↦
      let t = trim_space s in
      let (begins, (b, q)) = from_first_lem b'{' (unfenced t) u found in
      let (ends, (e, p)) = to_last_lem b'}' u r (rw found at h) in
      let v = unfenced t in
      let u_in_v : IsPiece u v = (b, [], q ∙ ap (λ x. b ++ x) (sym (append-nil u))) in
      (
        IsPiece-trans r u s ([], e, p)
            (IsPiece-trans u v s u_in_v
              (IsPiece-trans v t s (unfenced_at-IsPiece t _ refl) (trim_space-IsPiece s))),
        begins_of_append b'{' b'}' r e u p ends begins,
        ends,
      )
]
