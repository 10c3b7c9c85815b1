-- ===== src/Tests/Ingress.antt =====
-- Runs of the master ingress, and the theorems about it at concrete requests.
use node_installer.Prelude.{ℕ, String, ◌≡◌, refl, true, some, ◌∷◌, ◌++◌, pos}
use node_installer.Text.{codes, strip}
use node_installer.Json.{py_int, Json, nil, cons, str, int, bool, arr, obj, field, end}
use node_installer.Outcome.{ok, error, ◌>>=◌, ◌>>◌, raise_if, Ensures}
use node_installer.Ingress.{
  Fetched, response, MasterRoute, resolve, request_json, ha_status, tep_status, find_peer,
}
use node_installer.Ingress.Trust.{IsTrusted, resolve-IsTrusted}
use node_installer.Ingress.Http.{
  do_get, do_get-query, respond, caught, same_path, before_query, without_slashes, discovery,
}

abbrev repr : Json → String
repr x = "?"

-- An answer of the HA agent with this much of the lease left.
abbrev ha : ℕ → Fetched
ha lease = response 200 500 (
    some (
      obj (
        field "status"
          (obj (
            field "holder" (str "M") (
              field "term" (int (pos 7)) (
                field "lease_remaining_ms" (int (pos lease)) (
                  field "cluster_view"
                    (obj (
                      field "holder" (str "M") (
                        field "holder_term" (int (pos 7)) (
                          field "voters_reachable" (int (pos 3))
                            (field "quorum" (int (pos 2)) end)))))
                    end)))))
          end)))

abbrev tep : Fetched
tep = response 200 500 (
    some (
      obj (
        field "app_ready" (bool true) (
          field "peers"
            (arr (
              cons
                (obj (
                  field "id" (str "M") (
                    field "online" (bool true)
                      (field "peer_id" (str "p1") (field "ip" (str "10.0.0.1") end)))))
                nil))
            end))))

abbrev ask : String → String → Fetched
ask node_id peer_id = response 200 100 (
    some (
      obj (
        field "ok" (bool true) (
          field "path" (str "direct")
            (field "result" (obj (field "master_live" (bool true) end)) end)))))

abbrev route : MasterRoute
route = record {
  node_id = "M";
  peer_id = "p1";
  host = "10.0.0.1";
  port = 8765;
  term = pos 7;
  lease_remaining_ms = pos 4000;
  voters_reachable = pos 3;
  quorum = pos 2;
}

resolved : resolve repr (ha 4000) tep ≡ ok route
unfolding resolve ha_status tep_status request_json find_peer ◌>>=◌ ◌>>◌ raise_if strip py_int
resolved = refl

expiring : resolve repr (ha 999) tep ≡ error "ha_lease_expiring"
unfolding resolve ha_status tep_status request_json find_peer ◌>>=◌ ◌>>◌ raise_if strip py_int
expiring = refl

discovered :
    do_get repr (ha 4000) tep ask (codes "/api/hashburst/master/discovery/")
    ≡ record { code = 200; body = discovery route }
unfolding do_get respond caught same_path before_query without_slashes resolve ha_status tep_status
    request_json find_peer ◌>>=◌ ◌>>◌ raise_if strip py_int
discovered = refl

resolve-IsTrusted_example : Ensures (IsTrusted repr (ha 4000) tep) (resolve repr (ha 4000) tep)
resolve-IsTrusted_example = resolve-IsTrusted repr (ha 4000) tep

do_get-query_example :
    do_get repr (ha 4000) tep ask (codes "/health" ++ b'?' ∷ codes "a=1")
    ≡ do_get repr (ha 4000) tep ask (codes "/health")
do_get-query_example =
    do_get-query repr (ha 4000) tep ask (codes "/health") (codes "a=1")
      (refl, (refl, (refl, (refl, (refl, (refl, (refl, tt)))))))
