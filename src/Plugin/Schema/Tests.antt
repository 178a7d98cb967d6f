-- ===== src/Plugin/Schema/Tests.antt =====
-- A push of one page.
use auditloop.Base.{◌≡◌, ◌↔◌, refl, none, some, List, [], ◌∷◌, Str, codes, one_of, eqb, trim_space}
use auditloop.Base.Int.{ℤ, pos, negsuc, is_neg}
use auditloop.Plugin.Schema.{
  PushPage, PushPayload, PushPerf, validate, orphan_part, negative_perf, check_page, check_refs,
  check_pages, check_parts, file_refs, check_values,
}
use auditloop.Plugin.Schema.Laws.{IsValid, validate-IsValid_iff}

abbrev measured : ℤ → PushPerf ℤ
measured lcp = record {
  lcp_ms = lcp;
  cls = pos 0;
  tbt_ms = pos 10;
  weight_bytes = pos 0;
  req_count = pos 3;
}

abbrev sign_up : ℤ → PushPage ℤ
sign_up lcp = record {
  url = codes "signup-step-3";
  viewport = codes "mobile";
  screenshot = codes "a.png";
  axe = codes "a.json";
  network = [];
  a11y_digest = [];
  axe_violations = pos 0;
  console_first_party = pos 0;
  console_third_party = pos 0;
  network_first_party = pos 0;
  network_third_party = pos 0;
  findings = [];
  perf = some (measured lcp);
  layout = none;
}

abbrev push : ℤ → PushPayload ℤ
push lcp = record { label = []; environment = codes "lab"; pages = sign_up lcp ∷ [] }

abbrev uploaded : List Str
uploaded = codes "a.json" ∷ codes "a.png" ∷ []

accepted_test : validate is_neg (push (pos 900)) uploaded ≡ none
unfolding validate check_pages check_page check_refs check_parts file_refs check_values one_of eqb
    trim_space
accepted_test = refl

orphan_test : validate is_neg (push (pos 900)) (codes "b.png" ∷ uploaded) ≡ some orphan_part
unfolding validate check_pages check_page check_refs check_parts file_refs check_values one_of eqb
    trim_space
orphan_test = refl

negative_test : validate is_neg (push (negsuc 0)) uploaded ≡ some negative_perf
unfolding validate check_pages check_page check_refs check_parts file_refs check_values one_of eqb
    trim_space
negative_test = refl

validate-IsValid_iff_example :
    (validate is_neg (push (pos 900)) uploaded ≡ none) ↔ IsValid is_neg uploaded (push (pos 900))
validate-IsValid_iff_example = validate-IsValid_iff is_neg uploaded (push (pos 900))
