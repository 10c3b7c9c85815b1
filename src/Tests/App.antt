-- ===== src/Tests/App.antt =====
-- tep/hb_tep_app.py on a request, and the replay cache on a few calls.
use node_installer.Prelude.{ℕ, String, ◌≡◌, refl, true, Option, some, [], ◌∷◌, All, arith, pos}
use node_installer.Text.{codes, text_len, strip}
use node_installer.Json.{Json, int, str, obj, field, end}
use node_installer.Outcome.{Outcome, ok, error, exception, Ensures, ◌>>=◌, ◌>>◌, raise_if}
use node_installer.App.Hex.{is_hex, Accepted, is_hex-Accepted, spaces, is_hex-spaces}
use node_installer.App.Envelope.{
  Envelope, supported_services, validate_envelope, validate_identity, require_hex, require_nat,
  read_service, read_ttl, check_payload, check_error, check_status, check_relay,
}
use node_installer.App.Validity.{IsValid, validate_envelope-IsValid}
use node_installer.App.Replay.{Cache, evict, member, trim, admit, check_and_add}
use node_installer.App.Replay.Bounds.{IsBounded, check_and_add-IsBounded}
use node_installer.App.Replay.Detection.{run, check_and_add-replay}

program : Unit {0}
unfolding validate_envelope validate_identity require_hex require_nat read_service read_ttl
    check_payload check_error check_status check_relay strip is_hex ◌>>=◌ ◌>>◌ raise_if
program = tt

abbrev id_1 : String
id_1 = "00000000000000000000000000000001"

abbrev id_2 : String
id_2 = "00000000000000000000000000000002"

abbrev party : String → Json
party n = obj (field "node_id" (str n) (field "peer_id" (str " p ") end))

abbrev message : Json
message = obj (
    field "v" (int (pos 1)) (
      field "type" (str "req") (
        field "request_id" (str id_1) (
          field "source" (party "a") (
            field "destination" (party "b") (
              field "service" (str "storage.summary") (
                field "timestamp_ms" (int (pos 100000)) (
                  field "nonce" (str id_2)
                    (field "ttl_ms" (int (pos 3000)) (field "payload" (obj end) end))))))))))

abbrev kind : Outcome Envelope → Outcome (String × Option ℕ × Option String)
kind (ok e) = ok (e.msg_type, e.ttl_ms, e.service)
kind (error c) = error c
kind exception = exception

accepted :
    kind (validate_envelope supported_services (some 101000) message)
    ≡ ok ("req", some 3000, some "storage.summary")
unfolding program
accepted = refl

expired :
    kind (validate_envelope supported_services (some 140000) message) ≡ error "request_expired"
unfolding program
expired = refl

-- A request for a service that is not in force is refused.
unsupported : kind (validate_envelope [] (some 101000) message) ≡ error "unsupported_service"
unfolding program
unsupported = refl

is_hex-Accepted_example : (text_len id_1 ≡ 32) × All Accepted (codes id_1)
unfolding is_hex
is_hex-Accepted_example = is_hex-Accepted id_1 32 refl

is_hex-spaces_example : is_hex (spaces 32) 32 ≡ true
is_hex-spaces_example = is_hex-spaces 32

validate_envelope-IsValid_example :
    Ensures
      (IsValid supported_services (some 101000) message)
      (validate_envelope supported_services (some 101000) message)
validate_envelope-IsValid_example =
    validate_envelope-IsValid supported_services (some 101000) message

abbrev cache : Cache
cache = record { window_sec = 120; max_entries = 2; entries = [] }

cache-IsBounded : IsBounded cache
cache-IsBounded = record { fits = omega arith; distinct = tt }

check_and_add-IsBounded_example : IsBounded (check_and_add "p" id_1 5 cache).1
check_and_add-IsBounded_example = check_and_add-IsBounded cache cache-IsBounded 5 "p" id_1

-- The other peer's request is no replay, and leaves the first one in the cache.
check_and_add-replay_example :
    (check_and_add "p" id_1 124 (
      run
        ((record { peer = "q"; request = id_1; now = 60 }) ∷ [])
        (check_and_add "p" id_1 5 cache).1)).0
    ≡ error "replay_detected"
unfolding check_and_add evict member trim admit program
check_and_add-replay_example =
    check_and_add-replay "p" id_1 5 124 ((record { peer = "q"; request = id_1; now = 60 }) ∷ [])
      cache (omega arith) (omega arith, tt) (omega arith) refl
