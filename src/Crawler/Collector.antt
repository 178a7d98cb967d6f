-- ===== src/Crawler/Collector.antt =====
-- internal/crawler/crawler.go: the collector of a page's console and network events. Byte counts are
-- natural numbers, and a missing key of a map has the zero value, so that maps are functions.
pub mod Laws
mod Tests
use auditloop.Base.{
  ℕ, ◌+◌, Bool, true, false, Option, none, some, List, [], ◌∷◌, ◌++◌, leb, ◌==◌, not, if◌then◌else◌,
  Str, codes, eqb, is_empty,
}
use auditloop.Base.Text.Fields.{join}
use auditloop.Base.Text.Scan.{trim, is_any}

pub record ConsoleError : Type 0 where
  pub text : Str
  pub url : Str

pub record NetworkError : Type 0 where
  pub url : Str
  pub status : ℕ
  pub reason : Str

-- An argument of a console call: its value as JSON, and its description.
pub record Argument : Type 0 where
  pub value : Option Str
  pub description : Str

-- The events that handle looks at; a stack trace is the list of its frames' URLs.
pub data Event : Type 0 where
  request_will_be_sent : (id url : Str) → (redirected : Bool) → Event
  data_received loading_finished : (id : Str) → (encoded_length : ℕ) → Event
  response_received : (url : Str) → (status : ℕ) → Event
  loading_failed : (id error_text : Str) → Event
  console_api_called : (kind : Str) → (args : List Argument) → (frames : List Str) → Event
  exception_thrown : (text url : Str) → (frames : List Str) → Event

pub record Collector : Type 0 where
  pub console : List ConsoleError
  pub network : List NetworkError
  pub req_urls : Str → Str
  pub recv_bytes : Str → ℕ
  pub req_count : ℕ
  pub weight_bytes : ℕ

abbrev pub parts : List Argument → List Str
parts [] = []
parts (a ∷ args) =
    let rest = parts args in
    elim a.value [
      | some v ↦ trim (is_any (34 ∷ [])) v ∷ rest
      | none ↦ if not (is_empty a.description) then a.description ∷ rest else rest
    ]

unfoldable pub console_text : List Argument → Str
console_text args = join (parts args)

abbrev pub stack_url : List Str → Str
stack_url [] = []
stack_url (url ∷ frames) = url

abbrev pub or_default : Str → Str → Str
or_default s def = if is_empty s then def else s

abbrev pub set {ℓ} : {A : Type ℓ} → Str → A → (Str → A) → Str → A
set k a f j = if eqb j k then a else f j

unfoldable pub handle : Event → Collector → Collector
handle (request_will_be_sent id url redirected) c = record c {
  req_urls = set id url c.req_urls;
  req_count = if redirected then c.req_count else c.req_count + 1;
}
handle (data_received id n) c = record c { recv_bytes = set id (c.recv_bytes id + n) c.recv_bytes }
handle (loading_finished id n) c = record c {
  weight_bytes = c.weight_bytes + (if n == 0 then c.recv_bytes id else n);
  recv_bytes = set id 0 c.recv_bytes;
}
handle (response_received url status) c =
    if leb 400 status
    then record c {
      network =
          c.network ++ record { url = url; status = status; reason = codes "http_status" } ∷ [];
    }
    else c
handle (loading_failed id error_text) c =
    if is_empty (c.req_urls id)
    then c
    else if eqb error_text (codes "net::ERR_ABORTED")
    then c
    else record c {
      network = c.network ++ record { url = c.req_urls id; status = 0; reason = error_text } ∷ [];
    }
handle (console_api_called kind args frames) c =
    if not (eqb kind (codes "error")) then c else record c {
      console = c.console ++ record { text = console_text args; url = stack_url frames } ∷ [];
    }
handle (exception_thrown text url frames) c = record c {
  console = c.console ++ record { text = text; url = or_default url (stack_url frames) } ∷ [];
}

-- The events of a page, in the order of the mutex.
unfoldable pub collect : List Event → Collector → Collector
collect [] c = c
collect (e ∷ es) c = collect es (handle e c)

abbrev pub empty_collector : Collector
empty_collector = record {
  console = [];
  network = [];
  req_urls = λ id. [];
  recv_bytes = λ id. 0;
  req_count = 0;
  weight_bytes = 0;
}
