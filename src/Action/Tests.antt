-- ===== src/Action/Tests.antt =====
-- Actions and replies at concrete inputs.
use auditloop.Base.{◌≡◌, ◌↔◌, refl, none, some, [], codes, len, eqb, one_of, trim_space}
use auditloop.Base.Int.{pos}
use auditloop.Base.Text.Pieces.{drop, trim_prefix, cut_at, from_first, to_last}
use auditloop.Action.{
  Kind, click, press, unknown, Action, selector_required, key_not_allowed, unknown_type, validate,
  dedup_key,
}
use auditloop.Action.Laws.{IsValid, validate_iff}
use auditloop.Action.Reply.{extract_json}

abbrev pub blank : Kind → Action
blank kind = record {
  kind = kind;
  selector = [];
  text = [];
  key = [];
  value = [];
  direction = [];
  url = [];
  url_contains = [];
  timeout_ms = pos 0;
  reason = [];
}

validate_tests :
    (validate (blank click) ≡ some selector_required)
    × (validate (record (blank press) { key = codes "F1" }) ≡ some key_not_allowed)
    × (validate (record (blank press) { key = codes "Tab" }) ≡ none)
    × (validate (blank (unknown (codes "eval"))) ≡ some unknown_type)
unfolding validate len one_of eqb
validate_tests = (refl, refl, refl, refl)

key_test :
    dedup_key (record (blank press) { key = codes "Tab" }) (codes "/a") ≡ codes "press|Tab|/a"
unfolding dedup_key
key_test = refl

validate_iff_example :
    (validate (record (blank press) { key = codes "Tab" }) ≡ none)
    ↔ IsValid (record (blank press) { key = codes "Tab" })
validate_iff_example = validate_iff (record (blank press) { key = codes "Tab" })

fenced_reply : extract_json (codes "Sure: ```json {1{}2} ``` {x}") ≡ some (codes "{1{}2}")
unfolding extract_json trim_prefix cut_at from_first to_last trim_space drop
fenced_reply = refl
