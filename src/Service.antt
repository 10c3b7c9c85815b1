-- ===== src/Service.antt =====
-- tep/hb_tep_services.py and tep/hb_tep_master_service.py: the registry of services and the handlers of
-- storage.summary and master.status. What `urlsplit` makes of a configured URL, what the opener returns, and
-- strict UTF-8 with json.loads (`none` where one fails) are arguments. Errors keep their codes, not their
-- texts; a ProtocolError and a ServiceError differ in that the daemon answers 400 or 503.
use node_installer.Prelude.{
  ℕ, ◌+◌, String, Bool, true, false, not, ◌&&◌, ◌||◌, Option, none, some, List, [], ◌∷◌, leb, ltb,
  ◌==◌, if◌then◌else◌, take, length,
}
use node_installer.Text.{is_empty, strip}
use node_installer.Json.{Json, Fields, end, field, obj, get, is_true}
use node_installer.Outcome.{Outcome, ok, exception}
use node_installer.App.Envelope.{Envelope}

-- What a handler does: a dictionary, a ProtocolError, a ServiceError, or another exception.
pub data Handled : Type 0 where
  result : Fields → Handled
  protocol_error : String → Handled
  service_error : String → Handled
  failed : Handled

abbrev pub Handler : Type 0
Handler = Fields → Handled

pub record Registered : Type 0 where
  pub service : String
  pub handler : Handler

unfoldable pub find_handler : String → List Registered → Option Handler
find_handler service [] = none
find_handler service (h ∷ hs) =
    let rest = find_handler service hs in if h.service == service then some h.handler else rest

abbrev insert_new : String → Handler → List Registered → Option Handler → Outcome (List Registered)
insert_new service handler hs (some known) = exception
insert_new service handler hs none = ok ((record { service = service; handler = handler }) ∷ hs)

-- ServiceRegistry.register
unfoldable pub register : String → Handler → List Registered → Outcome (List Registered)
register service handler hs =
    if is_empty (strip service)
    then exception
    else insert_new (strip service) handler hs (find_handler (strip service) hs)

-- ServiceRegistry.supports
unfoldable pub supports : String → List Registered → Bool
supports service [] = false
supports service (h ∷ hs) = h.service == service || supports service hs

abbrev on_payload : Handler → Json → Handled
on_payload handler (obj d) = handler d
on_payload handler _ = protocol_error "bad_request"

abbrev on_handler : Fields → Option Handler → Handled
on_handler raw none = protocol_error "unsupported_service"
on_handler raw (some handler) = on_payload handler (get "payload" raw)

abbrev on_service : Fields → List Registered → Option String → Handled
on_service raw hs none = protocol_error "unsupported_service"
on_service raw hs (some service) =
    if is_empty service
    then protocol_error "unsupported_service"
    else on_handler raw (find_handler service hs)

-- ServiceRegistry.dispatch
unfoldable pub dispatch : Envelope → List Registered → Handled
dispatch e hs =
    if not (e.msg_type == "req")
    then protocol_error "unsupported_type"
    else on_service e.raw hs e.service

-- `urlsplit(url)`; reading the port raises ValueError if it is no number up to 65535.
pub record SplitUrl : Type 0 where
  pub scheme : String
  pub hostname : Option String
  pub path : String
  pub query : String
  pub fragment : String
  pub username : Option String
  pub password : Option String
  pub port : Outcome (Option ℕ)

abbrev is_loopback : Option String → Bool
is_loopback none = false
is_loopback (some h) = h == "127.0.0.1" || h == "::1"

abbrev is_none : Option String → Bool
is_none none = true
is_none (some s) = false

abbrev valid_port : Outcome (Option ℕ) → Bool
valid_port (ok (some p)) = leb 1 p && leb p 65535
valid_port _ = false

-- StorageSummaryConfig and MasterStatusConfig; the timeout in milliseconds.
pub record Config : Type 0 where
  pub url : SplitUrl
  pub timeout_ms : ℕ
  pub max_response_bytes : ℕ

-- `__post_init__` of both, for their paths and limits; every refusal is a ValueError.
unfoldable pub valid_config : String → ℕ → Config → Bool
valid_config allowed_path limit c =
    c.url.scheme == "http"
    && (is_loopback c.url.hostname
        && (c.url.path == allowed_path
            && (is_empty c.url.query
                && (is_empty c.url.fragment
                    && (is_none c.url.username
                        && (is_none c.url.password
                            && (valid_port c.url.port
                                && (ltb 0 c.timeout_ms
                                    && (leb c.timeout_ms 5000
                                        && (ltb 0 c.max_response_bytes
                                            && leb c.max_response_bytes limit))))))))))

abbrev pub summary_config : Config → Outcome Config
summary_config c = if valid_config "/api/public/storage-summary" 32768 c then ok c else exception

abbrev pub master_config : Config → Outcome Config
master_config c = if valid_config "/api/status" 65536 c then ok c else exception

-- What the opener does: a status, if the response has one, and the body; or an exception.
pub data Opened : Type 0 where
  response : Option ℕ → List ℕ → Opened
  unreachable : Opened

abbrev is_success : Option ℕ → Bool
is_success none = true
is_success (some status) = leb 200 status && leb status 299

abbrev summary_of : Option Json → Handled
summary_of (some (obj d)) = result d
summary_of _ = service_error "local_service_unavailable"

module _ (parse : List ℕ → Option Json) where
  -- The body, read up to one byte more than allowed.
  abbrev read_body : ℕ → List ℕ → Handled
  read_body limit raw =
      if ltb limit (length raw) then service_error "response_too_large" else summary_of (parse raw)

  abbrev on_response : ℕ → Opened → Handled
  on_response limit unreachable = service_error "local_service_unavailable"
  on_response limit (response status body) =
      if is_success status
      then read_body limit (take (limit + 1) body)
      else service_error "local_service_unavailable"

  -- StorageSummaryHandler.__call__; keys that are not accepted at all have the same code as other keys.
  unfoldable pub storage_summary : Config → Opened → Handler
  storage_summary c opened end = on_response c.max_response_bytes opened
  storage_summary c opened (field k v d) = protocol_error "bad_request"

  abbrev if_live : Handled → Handled
  if_live (result d) =
      if is_true (get "master_live" d) then result d else service_error "master_not_live"
  if_live (protocol_error code) = protocol_error code
  if_live (service_error code) = service_error code
  if_live failed = failed

  -- MasterStatusHandler.__call__
  unfoldable pub master_status : Config → Opened → Handler
  master_status c opened end = if_live (on_response c.max_response_bytes opened)
  master_status c opened (field k v d) = protocol_error "bad_request"

  -- build_default_registry
  unfoldable pub build_default_registry : Config → Opened → Outcome (List Registered)
  build_default_registry c opened = register "storage.summary" (storage_summary c opened) []
