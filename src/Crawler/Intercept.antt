-- ===== src/Crawler/Intercept.antt =====
-- internal/crawler/intercept.go: the decision on each request that Chromium pauses.
pub mod Laws
mod Tests
use auditloop.Base.{
  ℕ, Bool, true, false, ◌&&◌, not, Option, none, some, List, [], ◌∷◌, ◌++◌, if◌then◌else◌, Str,
  codes, is_empty, one_of, trim_space, to_lower, to_upper, length,
}
use auditloop.Crawler.Guard.{
  Net, GuardConfig, Url, Refusal, not_allowlisted, is_http, host_allowed, check_host_ip,
}

pub record BlockedNav (R : Type 0) : Type 0 where
  pub url : Str
  pub reason : R

-- The state of an `interceptor`; a mutation is recorded with its method.
pub record Interceptor : Type 0 where
  pub dry_run_abort : Bool
  pub blocked : List (BlockedNav Refusal)
  pub mutations : List (BlockedNav Str)

pub record Request : Type 0 where
  pub url : Str
  pub method : Str

-- EventRequestPaused; the request is a pointer that may be nil.
pub record Paused : Type 0 where
  pub is_document : Bool
  pub request : Option Request

pub data Verdict : Type 0 where
  fail_request continue_request : Verdict

-- What happens to one interceptor, in the order in which the handlers run.
pub data Event : Type 0 where
  arm : Event
  paused : Paused → Event

-- An interceptor that enableInterception has just installed.
unfoldable pub installed : Bool → Interceptor
installed dry_run = record { dry_run_abort = dry_run; blocked = []; mutations = [] }

unfoldable pub arm_mutation_guard : Interceptor → Interceptor
arm_mutation_guard ic = record ic { dry_run_abort = true }

unfoldable pub is_mutating_method : Str → Bool
is_mutating_method m =
    one_of (to_upper (trim_space m))
      (codes "POST" ∷ codes "PUT" ∷ codes "PATCH" ∷ codes "DELETE" ∷ [])

unfoldable pub record_nav : Str → Refusal → Interceptor → Interceptor
record_nav url reason ic = record ic {
  blocked = ic.blocked ++ record { url = url; reason = reason } ∷ [];
}

unfoldable pub record_mutation : Str → Str → Interceptor → Interceptor
record_mutation url method ic = record ic {
  mutations = ic.mutations ++ record { url = url; reason = method } ∷ [];
}

unfoldable pub mutation_count : Interceptor → ℕ
mutation_count ic = length ic.mutations

unfoldable pub blocked_count : Interceptor → ℕ
blocked_count ic = length ic.blocked

abbrev last {ℓ} : {A : Type ℓ} → List A → Option A
last [] = none
last (x ∷ []) = some x
last (x ∷ y ∷ xs) = last (y ∷ xs)

unfoldable pub last_blocked : Interceptor → Option (BlockedNav Refusal)
last_blocked ic = last ic.blocked

module _ (net : Net) (g : GuardConfig) where
  abbrev check_nav_url : Option Url → Option Refusal
  check_nav_url none = none
  check_nav_url (some u) =
      let host = to_lower u.host in
      if not (is_http u.scheme)
      then none
      else if is_empty host
      then none
      else if not (host_allowed g.allowed_hosts host)
      then some (not_allowlisted host)
      else check_host_ip net g host

  -- checkNav; what is no http URL with a host is left to Chromium.
  unfoldable pub check_nav : Str → Option Refusal
  check_nav raw = check_nav_url (net.parse_url raw)

  -- The check of a document request; none when it does not apply or finds nothing.
  abbrev nav_reason : Bool → Request → Option Refusal
  nav_reason true r = check_nav r.url
  nav_reason false r = none

  abbrev after_nav : Request → Option Refusal → Interceptor → Interceptor × Verdict
  after_nav r (some reason) ic = (record_nav r.url reason ic, fail_request)
  after_nav r none ic =
      if ic.dry_run_abort && is_mutating_method r.method
      then (record_mutation r.url r.method ic, fail_request)
      else (ic, continue_request)

  abbrev handle_request : Bool → Option Request → Interceptor → Interceptor × Verdict
  handle_request is_document none ic = (ic, continue_request)
  handle_request is_document (some r) ic = after_nav r (nav_reason is_document r) ic

  -- handlePaused, for a context that still has its target.
  unfoldable pub handle_paused : Paused → Interceptor → Interceptor × Verdict
  handle_paused e ic = handle_request e.is_document e.request ic

  unfoldable pub step : Event → Interceptor → Interceptor × List (Paused × Verdict)
  step arm ic = (arm_mutation_guard ic, [])
  step (paused e) ic = let (ic', v) = handle_paused e ic in (ic', (e, v) ∷ [])

  -- A history of events, with every verdict given.
  unfoldable pub run : List Event → Interceptor → Interceptor × List (Paused × Verdict)
  run [] ic = (ic, [])
  run (e ∷ es) ic = let (ic', v) = step e ic in let (last_ic, vs) = run es ic' in (last_ic, v ++ vs)
