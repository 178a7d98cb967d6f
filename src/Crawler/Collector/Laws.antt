-- ===== src/Crawler/Collector/Laws.antt =====
-- internal/crawler/crawler.go: the weight of a page, read off the history of its events.
use auditloop.Base.{
  ℕ, ◌+◌, ◌≡◌, refl, sym, ap, ◌∙◌, inl, inr, Bool, true, false, List, [], ◌∷◌, ◌==◌, leb, not,
  if◌then◌else◌, Bool-cases, Str, codes, eqb, eqb_iff, is_empty,
}
use auditloop.Crawler.Collector.{
  Event, request_will_be_sent, data_received, loading_finished, response_received, loading_failed,
  console_api_called, exception_thrown, Collector, handle, collect, empty_collector,
}

-- Histories have their latest event first. What was received for a request since it last finished:
abbrev pub pending : Str → List Event → ℕ
pending id [] = 0
pending id (data_received j n ∷ past) =
    let before = pending id past in if eqb id j then before + n else before
pending id (loading_finished j n ∷ past) =
    let before = pending id past in if eqb id j then 0 else before
pending id (request_will_be_sent j url r ∷ past) = pending id past
pending id (response_received url status ∷ past) = pending id past
pending id (loading_failed j t ∷ past) = pending id past
pending id (console_api_called kind args frames ∷ past) = pending id past
pending id (exception_thrown t url frames ∷ past) = pending id past

-- Each finished request weighs its own total, or if that is 0 what was received for it.
abbrev pub weight : List Event → ℕ
weight [] = 0
weight (loading_finished j n ∷ past) = weight past + (if n == 0 then pending j past else n)
weight (data_received j n ∷ past) = weight past
weight (request_will_be_sent j url r ∷ past) = weight past
weight (response_received url status ∷ past) = weight past
weight (loading_failed j t ∷ past) = weight past
weight (console_api_called kind args frames ∷ past) = weight past
weight (exception_thrown t url frames ∷ past) = weight past

abbrev pub requests : List Event → ℕ
requests [] = 0
requests (request_will_be_sent j url r ∷ past) =
    let before = requests past in if r then before else before + 1
requests (data_received j n ∷ past) = requests past
requests (loading_finished j n ∷ past) = requests past
requests (response_received url status ∷ past) = requests past
requests (loading_failed j t ∷ past) = requests past
requests (console_api_called kind args frames ∷ past) = requests past
requests (exception_thrown t url frames ∷ past) = requests past

abbrev pub onto : List Event → List Event → List Event
onto [] past = past
onto (e ∷ es) past = onto es (e ∷ past)

abbrev pub HasWeighed : List Event → Collector → Type 0
HasWeighed past c =
    (c.weight_bytes ≡ weight past)
    × (c.req_count ≡ requests past)
    × ((id : Str) → c.recv_bytes id ≡ pending id past)

if_same {ℓ} :
    {A : Type ℓ} (P : A → Type 0) (b : Bool) (x y : A) → P x → P y → P (if b then x else y)
if_same P true x y h k = h
if_same P false x y h k = k

handle-HasWeighed :
    (e : Event) (past : List Event) (c : Collector)
    → HasWeighed past c
    → HasWeighed (e ∷ past) (handle e c)
unfolding handle
handle-HasWeighed (request_will_be_sent id url true) past c h = h
handle-HasWeighed (request_will_be_sent id url false) past c (w, r, p) = (w, ap (λ n. n + 1) r, p)
handle-HasWeighed (data_received id n) past c (w, r, p) = (
  w,
  r,
  λ j. elim (Bool-cases (eqb j id)) [
    | inl e ↦
        let same : j ≡ id = (eqb_iff j id).0 e in
        rw e (ap (λ m. m + n) (p id ∙ ap (λ i. pending i past) (sym same)))
    | inr e ↦ rw e (p j)
  ],
)
handle-HasWeighed (loading_finished id n) past c (w, r, p) = (
  rw (w, p id) refl,
  r,
  λ j. elim (Bool-cases (eqb j id)) [ inl e ↦ rw e refl | inr e ↦ rw e (p j) ],
)
handle-HasWeighed (response_received url status) past c h =
    if_same (HasWeighed past) (leb 400 status) _ c h h
handle-HasWeighed (loading_failed id t) past c h =
    if_same (HasWeighed past) (is_empty (c.req_urls id)) c _ h
      (if_same (HasWeighed past) (eqb t (codes "net::ERR_ABORTED")) c _ h h)
handle-HasWeighed (console_api_called kind args frames) past c h =
    if_same (HasWeighed past) (not (eqb kind (codes "error"))) c _ h h
handle-HasWeighed (exception_thrown t url frames) past c h = h

from_past :
    (es past : List Event) (c : Collector)
    → HasWeighed past c
    → HasWeighed (onto es past) (collect es c)
unfolding collect
from_past [] past c h = h
from_past (e ∷ es) past c h = from_past es (e ∷ past) (handle e c) (handle-HasWeighed e past c h)

-- After any events of a page, its weight is the sum over the finished requests of the total that each
-- reports, or, where that is 0, of what was received for that request since it last finished; so no
-- byte of a request counts twice. Its request count is that of the requests sent, without redirects.
pub collect-HasWeighed : (es : List Event) → HasWeighed (onto es []) (collect es empty_collector)
collect-HasWeighed es = from_past es [] empty_collector (refl, refl, λ id. refl)
