-- ===== src/Plugin/Map/Tests.antt =====
-- A page pushed by a lab, with a slow measurement and findings of its own.
use auditloop.Base.{◌≡◌, refl, Bool, false, none, some, [], ◌∷◌, Str, codes, eqb, len, trim_space}
use auditloop.Base.Int.{ℤ, pos}
use auditloop.Base.Text.Pieces.{cut_at}
use auditloop.Plugin.Schema.{PushPage, PushFinding}
use auditloop.Signals.{rule}
use auditloop.Plugin.Map.{PageKeys, map_page, add_pushed, add_perf, rule_id_of, before_help}
use auditloop.Plugin.Map.Laws.{IsHonestPage, map_page-IsHonest}

abbrev found : Str → Str → PushFinding
found type detail = record { type = type; severity = []; detail = detail }

abbrev slow_page : PushPage ℤ
slow_page = record {
  url = codes "signup-step-3";
  viewport = codes "mobile";
  screenshot = codes "a.png";
  axe = [];
  network = [];
  a11y_digest = [];
  axe_violations = pos 0;
  console_first_party = pos 0;
  console_third_party = pos 0;
  network_first_party = pos 0;
  network_third_party = pos 0;
  findings =
      found (codes "perf") (codes "slow") ∷ found (codes "a11y") (codes "label — add one") ∷ [];
  perf = some (record {
    lcp_ms = pos 9000;
    cls = pos 0;
    tbt_ms = pos 0;
    weight_bytes = pos 0;
    req_count = pos 3;
  });
  layout = none;
}

abbrev keys : PageKeys
keys = record { screenshot = codes "k"; axe = []; network = []; a11y_digest = [] }

abbrev no_id : Str → Str
no_id detail = []

abbrev never : ℤ → Bool
never z = false

lab_test :
    (map_page no_id never never (codes "r1") slow_page keys (codes "lab")).findings
    ≡ record {
      type = codes "a11y";
      severity = codes "info";
      detail = rule (codes "label") (codes "label — add one");
    }
      ∷ []
unfolding map_page add_pushed add_perf rule_id_of before_help cut_at trim_space eqb len
lab_test = refl

map_page-IsHonest_example :
    IsHonestPage no_id never never
      (codes "lab")
      slow_page
      (map_page no_id never never (codes "r1") slow_page keys (codes "lab"))
map_page-IsHonest_example =
    map_page-IsHonest no_id never never (codes "r1") slow_page keys (codes "lab")
