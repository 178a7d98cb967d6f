-- ===== src/Crawler/Intercept/Laws.antt =====
-- What the interceptor lets through, over every history of events.
use auditloop.Base.{
  ℕ, ◌+◌, ◌≡◌, refl, ◌≢◌, Bool, true, Option, none, some, List, [], ◌∷◌, ◌++◌, arith, Str, to_lower,
  trim_space, All, All-append, length-append,
}
use auditloop.Base.Text.Laws.{filled_of_ne}
use auditloop.Crawler.Guard.{Net, GuardConfig, Url, Refusal, is_http}
use auditloop.Crawler.Guard.Spec.{IsAllowed, IsSafeHost}
use auditloop.Crawler.Guard.Hosts.{host_allowed_sound}
use auditloop.Crawler.Guard.Laws.{check_host_ip_sound}
use auditloop.Crawler.Intercept.{
  Interceptor, Request, Paused, Verdict, fail_request, continue_request, is_mutating_method,
  mutation_count, blocked_count, record_nav, record_mutation, arm_mutation_guard, check_nav,
  check_nav_url, nav_reason, after_nav, handle_request, handle_paused, Event, arm, paused, step,
  run,
}

abbrev pub failures : List (Paused × Verdict) → ℕ
failures [] = 0
failures ((e, fail_request) ∷ vs) = 1 + failures vs
failures ((e, continue_request) ∷ vs) = failures vs

failures-append :
    (vs ws : List (Paused × Verdict)) → failures (vs ++ ws) ≡ failures vs + failures ws
failures-append [] ws = omega arith
failures-append ((e, fail_request) ∷ vs) ws = omega (arith, failures-append vs ws)
failures-append ((e, continue_request) ∷ vs) ws = omega (arith, failures-append vs ws)

-- A request that writes is never let through.
abbrev pub IsReadOnly : Paused × Verdict → Type 0
IsReadOnly (e, v) =
    (r : Request) → e.request ≡ some r → is_mutating_method r.method ≡ true → v ≡ fail_request

module _ (net : Net) (g : GuardConfig) where
  -- An http URL with a host leads to an allowed host with permitted addresses.
  abbrev pub IsContained : Str → Type 0
  IsContained raw =
      (u : Url)
      → net.parse_url raw ≡ some u
      → is_http u.scheme ≡ true
      → to_lower u.host ≢ []
      → IsAllowed (to_lower u.host) g.allowed_hosts
        × IsSafeHost net g (to_lower (trim_space (to_lower u.host)))

  -- A document request that is let through leads nowhere else.
  abbrev pub StaysInside : Paused × Verdict → Type 0
  StaysInside (e, v) =
      (r : Request)
      → e.request ≡ some r
      → e.is_document ≡ true
      → v ≡ continue_request
      → IsContained r.url

  check_nav_sound : (raw : Str) → check_nav net g raw ≡ none → IsContained raw
  unfolding check_nav
  check_nav_sound raw h u p s n =
      let h' = rw (p, check_nav_url) at h in
      let filled = filled_of_ne (to_lower u.host) n in
      (
        host_allowed_sound g.allowed_hosts (to_lower u.host) (ground arith),
        check_host_ip_sound net g (to_lower u.host) (ground arith),
      )

  handle_paused-StaysInside :
      (e : Paused) (ic : Interceptor) → StaysInside (e, (handle_paused net g e ic).1)
  unfolding handle_paused
  handle_paused-StaysInside e ic r q d v = check_nav_sound r.url (ground arith)

  handle_paused-IsReadOnly :
      (e : Paused) (ic : Interceptor)
      → ic.dry_run_abort ≡ true
      → IsReadOnly (e, (handle_paused net g e ic).1)
  unfolding handle_paused
  handle_paused-IsReadOnly e ic a r q m = ground arith

  pub step_keeps_armed :
      (e : Event) (ic : Interceptor)
      → ic.dry_run_abort ≡ true
      → (step net g e ic).0.dry_run_abort ≡ true
  unfolding step handle_paused arm_mutation_guard record_nav record_mutation
  step_keeps_armed e ic a = ground arith

  after_nav-counts :
      (r : Request) (found : Option Refusal) (ic : Interceptor) (e : Paused)
      → let (ic', v) = after_nav net g r found ic in
        blocked_count ic' + mutation_count ic'
        ≡ blocked_count ic + mutation_count ic + failures ((e, v) ∷ [])
  unfolding record_nav record_mutation blocked_count mutation_count
  after_nav-counts r (some reason) ic e =
      omega (arith, length-append ic.blocked (record { url = r.url; reason = reason } ∷ []))
  after_nav-counts r none ic e =
      ground (arith, length-append ic.mutations (record { url = r.url; reason = r.method } ∷ []))

  handle_request-counts :
      (d : Bool) (r : Option Request) (ic : Interceptor) (e : Paused)
      → let (ic', v) = handle_request net g d r ic in
        blocked_count ic' + mutation_count ic'
        ≡ blocked_count ic + mutation_count ic + failures ((e, v) ∷ [])
  handle_request-counts d none ic e = omega arith
  handle_request-counts d (some r) ic e = after_nav-counts r (nav_reason net g d r) ic e

  step-counts :
      (e : Event) (ic : Interceptor)
      → let (ic', vs) = step net g e ic in
        blocked_count ic' + mutation_count ic' ≡ blocked_count ic + mutation_count ic + failures vs
  unfolding step handle_paused arm_mutation_guard blocked_count mutation_count
  step-counts arm ic = omega arith
  step-counts (paused e) ic = handle_request-counts e.is_document e.request ic e

  step-StaysInside : (e : Event) (ic : Interceptor) → All StaysInside (step net g e ic).1
  unfolding step
  step-StaysInside arm ic = tt
  step-StaysInside (paused e) ic = (handle_paused-StaysInside e ic, tt)

  step-IsReadOnly :
      (e : Event) (ic : Interceptor) → ic.dry_run_abort ≡ true → All IsReadOnly (step net g e ic).1
  unfolding step
  step-IsReadOnly arm ic a = tt
  step-IsReadOnly (paused e) ic a = (handle_paused-IsReadOnly e ic a, tt)

  -- Over every history of events: a document request that is let through and leads to an http or
  -- https URL with a host leads to an allowed host whose addresses are all permitted.
  pub run-StaysInside : (es : List Event) (ic : Interceptor) → All StaysInside (run net g es ic).1
  unfolding run
  run-StaysInside [] ic = tt
  run-StaysInside (e ∷ es) ic =
      All-append StaysInside (step net g e ic).1 _ (step-StaysInside e ic)
        (run-StaysInside es (step net g e ic).0)

  run_armed :
      (es : List Event) (ic : Interceptor)
      → ic.dry_run_abort ≡ true
      → All IsReadOnly (run net g es ic).1
  unfolding run
  run_armed [] ic a = tt
  run_armed (e ∷ es) ic a =
      All-append IsReadOnly (step net g e ic).1 _ (step-IsReadOnly e ic a)
        (run_armed es (step net g e ic).0 (step_keeps_armed e ic a))

  -- Once the submit guard is armed, no later request with a mutating method is let through,
  -- whatever happened before and whatever follows.
  pub arm-IsReadOnly :
      (es : List Event) (ic : Interceptor) → All IsReadOnly (run net g (arm ∷ es) ic).1
  unfolding run step arm_mutation_guard
  arm-IsReadOnly es ic = run_armed es (arm_mutation_guard ic) refl

  -- Over every history each aborted request is recorded exactly once: the two counts grow together
  -- by the number of aborted requests.
  pub run-counts :
      (es : List Event) (ic : Interceptor)
      → let (ic', vs) = run net g es ic in
        blocked_count ic' + mutation_count ic' ≡ blocked_count ic + mutation_count ic + failures vs
  unfolding run
  run-counts [] ic = omega arith
  run-counts (e ∷ es) ic =
      let (ic', vs) = step net g e ic in
      omega (arith, step-counts e ic, run-counts es ic', failures-append vs (run net g es ic').1)
