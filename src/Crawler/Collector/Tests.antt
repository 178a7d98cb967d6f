-- ===== src/Crawler/Collector/Tests.antt =====
-- A page with a document, a redirected image, and an error of each kind.
use auditloop.Base.{◌≡◌, refl, true, false, some, List, [], ◌∷◌, codes, eqb}
use auditloop.Base.Text.{trim_left, trim_right}
use auditloop.Base.Text.Fields.{join}
use auditloop.Base.Text.Scan.{trim}
use auditloop.Crawler.Collector.{
  Event, request_will_be_sent, data_received, loading_finished, response_received, loading_failed,
  console_api_called, console_text, handle, collect, empty_collector,
}
use auditloop.Crawler.Collector.Laws.{HasWeighed, onto, collect-HasWeighed}

abbrev events : List Event
events =
    request_will_be_sent (codes "1") (codes "/") false
    ∷ data_received (codes "1") 30
    ∷ request_will_be_sent (codes "2") (codes "/a.png") false
    ∷ request_will_be_sent (codes "2") (codes "/b.png") true
    ∷ data_received (codes "1") 12
    ∷ loading_finished (codes "1") 0
    ∷ data_received (codes "2") 7
    ∷ loading_finished (codes "2") 9
    ∷ response_received (codes "/c") 404
    ∷ loading_failed (codes "2") (codes "net::ERR_ABORTED")
    ∷ loading_failed (codes "2") (codes "net::ERR_FAILED")
    ∷ console_api_called (codes "error")
        (record { value = some (codes "\"no\""); description = [] } ∷ []) (codes "/x.js" ∷ [])
    ∷ []

page_weight : (collect events empty_collector).weight_bytes ≡ 51
unfolding collect handle eqb
page_weight = refl

page_requests : (collect events empty_collector).req_count ≡ 2
unfolding collect handle eqb
page_requests = refl

page_errors :
    (collect events empty_collector).network
    ≡ record { url = codes "/c"; status = 404; reason = codes "http_status" }
      ∷ record { url = codes "/b.png"; status = 0; reason = codes "net::ERR_FAILED" }
      ∷ []
unfolding collect handle eqb
page_errors = refl

page_console :
    (collect events empty_collector).console
    ≡ record { text = codes "no"; url = codes "/x.js" } ∷ []
unfolding collect handle eqb console_text join trim trim_left trim_right
page_console = refl

collect-HasWeighed_example : HasWeighed (onto events []) (collect events empty_collector)
collect-HasWeighed_example = collect-HasWeighed events
