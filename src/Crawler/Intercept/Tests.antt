-- ===== src/Crawler/Intercept/Tests.antt =====
-- The interceptor at concrete histories.
use auditloop.Base.{
  ◌+◌, ◌≡◌, refl, map, Bool, String, to_upper, true, false, some, List, [], ◌∷◌, codes, All,
}
use auditloop.Crawler.Guard.Tests.{host_net, config, guard_runs}
use auditloop.Crawler.Intercept.{
  Paused, fail_request, continue_request, installed, Event, arm, paused, step, run, handle_paused,
  check_nav, is_mutating_method, arm_mutation_guard, record_nav, record_mutation, mutation_count,
  blocked_count,
}
use auditloop.Crawler.Intercept.Laws.{
  failures, StaysInside, IsReadOnly, run-StaysInside, arm-IsReadOnly, run-counts,
}

abbrev ask : Bool → String → String → Paused
ask is_document url method = record {
  is_document = is_document;
  request = some (record { url = codes url; method = codes method });
}

abbrev story : List Event
story =
    paused (ask true "example.com" "POST")
    ∷ paused (ask true "evil.example.com" "GET")
    ∷ arm
    ∷ paused (ask false "example.com" " post")
    ∷ paused (ask false "evil.example.com" "GET")
    ∷ []

run_tests :
    map (λ p. p.1) (run host_net config story (installed false)).1
    ≡ continue_request ∷ fail_request ∷ fail_request ∷ continue_request ∷ []
unfolding run step handle_paused check_nav is_mutating_method installed arm_mutation_guard
    record_nav record_mutation guard_runs to_upper
run_tests = refl

run-StaysInside_example :
    All (StaysInside host_net config) (run host_net config story (installed false)).1
run-StaysInside_example = run-StaysInside host_net config story (installed false)

arm-IsReadOnly_example : All IsReadOnly (run host_net config (arm ∷ story) (installed false)).1
arm-IsReadOnly_example = arm-IsReadOnly host_net config story (installed false)

run-counts_example :
    let (ic', vs) = run host_net config story (installed false) in
    blocked_count ic' + mutation_count ic'
    ≡ blocked_count (installed false) + mutation_count (installed false) + failures vs
run-counts_example = run-counts host_net config story (installed false)
