-- ===== src/Replication/Api.antt =====
-- replication/hb_replication_controller.py: the other methods of Controller and APIHandler.do_POST, and
-- replication/hb_replication_db.py: upsert_node. The fields of a JSON body are given as they are read from
-- it; a number of bytes or of replicas is no negative number. An answer is its status.
use node_installer.Prelude.{
  ℕ, ◌*◌, String, Bool, false, not, ◌&&◌, ◌||◌, Option, none, some, List, [], ◌∷◌, eqb, ltb, ◌==◌,
  if◌then◌else◌,
}
use node_installer.Text.{is_empty, strip, text_len}
use node_installer.Json.{Json, bool, truthy}
use node_installer.Outcome.{Outcome, ok, error, exception}
use node_installer.Placement.{PlacementPolicy, validate, committable, best_effort}
use node_installer.Replication.Rows.{
  NodeRow, ObjectRow, Job, Db, find_node, find_object, update_node,
}
use node_installer.Replication.Objects.{register_object, release_object, Released}
use node_installer.Replication.Jobs.{pending_jobs}
use node_installer.Replication.Reports.{Report, apply_job_report, heartbeat}
use node_installer.Replication.Controller.{
  Settings, Mode, observe, pin_only, Left, authenticate_node, token_matches, reconcile_cid,
  replica_rows, confirmed_total, confirmed_committable, or_else,
}

-- An entry of the node registry.
pub record Configured : Type 0 where
  pub node_id : String
  pub name : String
  pub role : String
  pub capacity_class : String
  pub enabled : Json
  pub replication_token : String

-- `x is False`
abbrev is_false : Json → Bool
is_false (bool b) = not b
is_false _ = false

-- `str(node_id or name or "").strip()`
abbrev pub id_of : Configured → String
id_of c = strip (if is_empty c.node_id then c.name else c.node_id)

-- The class of a node: the one that is configured, or that of its role.
unfoldable pub class_of : Configured → String
class_of c =
    let cls = strip c.capacity_class in
    let role = strip c.role in
    if cls == committable || cls == best_effort
    then cls
    else if role == "primary" || role == "secondary"
    then committable
    else if role == "edge"
    then best_effort
    else "unknown"

abbrev configure : Configured → NodeRow → NodeRow
configure c n = record n {
  capacity_class = class_of c;
  enabled = truthy c.enabled;
  auth_token = if is_empty c.replication_token then n.auth_token else c.replication_token;
}

abbrev new_node : Configured → NodeRow
new_node c = record {
  node_id = id_of c;
  capacity_class = class_of c;
  enabled = truthy c.enabled;
  last_seen = 0;
  total_bytes = 0;
  used_bytes = 0;
  stability_score = 0;
  failure_penalty = 0;
  auth_token = c.replication_token;
}

abbrev upserted : Configured → List NodeRow → Option NodeRow → List NodeRow
upserted c nodes none = new_node c ∷ nodes
upserted c nodes (some n) = update_node (id_of c) (configure c) nodes

-- ReplicationDB.upsert_node
unfoldable pub upsert_node : Configured → Db → Db
upsert_node c db = record db { nodes = upserted c db.nodes (find_node (id_of c) db.nodes) }

-- Controller.sync_registry: only `False` skips an entry; no registry if the file cannot be read.
unfoldable pub sync_nodes : List Configured → Db → Db
sync_nodes [] db = db
sync_nodes (c ∷ cs) db =
    if is_false c.enabled || is_empty (id_of c)
    then sync_nodes cs db
    else sync_nodes cs (upsert_node c db)

unfoldable pub sync_registry : Option (List Configured) → Db → Db
sync_registry none db = db
sync_registry (some cs) db = sync_nodes cs db

-- The loop over the reports of a heartbeat; what was applied before an exception stays.
unfoldable pub apply_reports : ℕ → String → List Report → Db → Left
apply_reports now node [] db = (ok tt, db)
apply_reports now node (r ∷ rs) db = elim (apply_job_report now node r db) [
  | ok db' ↦ apply_reports now node rs db'
  | error code ↦ (error code, db)
  | exception ↦ (exception, db)
]

abbrev after_beat : ℕ → String → List Report → Db → Outcome Db → Left
after_beat now node reports db (ok db') = apply_reports now node reports db'
after_beat now node reports db (error code) = (error code, db)
after_beat now node reports db exception = (exception, db)

-- Controller.heartbeat
unfoldable pub controller_heartbeat : ℕ → String → ℕ → ℕ → List Report → Db → Left
controller_heartbeat now node total used reports db =
    if not (eqb total 0) && ltb (11 * total) (10 * used)
    then (error "ValueError", db)
    else after_beat now node reports db (heartbeat now node total used db)

abbrev polled : Mode → ℕ → String → Db → List Job × Db
polled observe now node db = ([], db)
polled pin_only now node db = pending_jobs node now 32 db

-- Controller.assignments
unfoldable pub assignments : Settings → ℕ → String → Db → List Job × Db
assignments cfg now node db = polled cfg.mode now node db

-- The fields of a registration; an absent or zero `replication_n` is the default, as is an absent
-- `committable_m`.
pub record Registration : Type 0 where
  pub cid : String
  pub size_bytes : ℕ
  pub source_node : String
  pub reference_id : String
  pub replication_n : ℕ
  pub committable_m : Option ℕ

abbrev or_default : Option ℕ → ℕ → ℕ
or_default none d = d
or_default (some m) d = m

-- Controller.object_status, as the state and the counts of confirmed replicas.
pub record Status : Type 0 where
  pub state : String
  pub confirmed_total : ℕ
  pub confirmed_committable : ℕ
  pub refcount : ℕ

abbrev status_of : Db → String → Option ObjectRow → Outcome Status
status_of db cid none = error "KeyError"
status_of db cid (some o) = ok (record {
  state = o.state;
  confirmed_total = confirmed_total (replica_rows cid db.replicas);
  confirmed_committable = confirmed_committable (replica_rows cid db.replicas);
  refcount = o.refcount;
})

unfoldable pub object_status : String → Db → Outcome Status
object_status cid db = status_of db cid (find_object cid db.objects)

-- A request with its token and its body; `broken` is a body that is too large or no JSON.
pub data Post : Type 0 where
  broken : Post
  register : Registration → Post
  release : String → String → Post
  beat : String → ℕ → ℕ → List Report → Post
  elsewhere : Post

module _ (cfg : Settings) (tiebreak : String → String → ℕ) (uuid : ℕ → String)
    (default_n default_m : ℕ) (now : ℕ) where
  abbrev reported : String → Left → Outcome Status × Db
  reported cid (ok u, db) = (object_status cid db, db)
  reported cid (error code, db) = (error code, db)
  reported cid (exception, db) = (exception, db)

  abbrev registered : String → Db → Outcome (Bool × Db) → Outcome Status × Db
  registered cid db (ok (is_new, db')) = reported cid (reconcile_cid cfg tiebreak uuid now cid db')
  registered cid db (error code) = (error code, db)
  registered cid db exception = (exception, db)

  abbrev policy_for : ℕ → ℕ → PlacementPolicy
  policy_for n m = record {
    replication_n = n;
    committable_m = m;
    prefer_edge_for_extra = cfg.prefer_edge_for_extra;
    safety_margin_bytes = cfg.safety_margin_bytes;
  }

  abbrev if_valid : Outcome (Unit {0}) → Db → Outcome Status × Db → Outcome Status × Db
  if_valid (ok u) db rest = rest
  if_valid (error code) db rest = (error code, db)
  if_valid exception db rest = (error "ValueError", db)

  -- Controller.register_object; what `validate` raises is a ValueError.
  unfoldable pub controller_register : Registration → Db → Outcome Status × Db
  controller_register r db =
      let cid = strip r.cid in
      let n = or_else r.replication_n default_n in
      let m = or_default r.committable_m default_m in
      if_valid (validate (policy_for n m)) db (
        if is_empty cid || (ltb 256 (text_len cid) || eqb r.size_bytes 0)
        then (error "ValueError", db)
        else registered cid db
            (register_object now cid r.size_bytes n m (strip r.source_node) r.reference_id db))

  -- The two `except` clauses.
  abbrev answer {ℓ} : {A : Type ℓ} → Outcome A → ℕ
  answer (ok a) = 200
  answer (error code) = if code == "ValueError" || code == "KeyError" then 400 else 500
  answer exception = 500

  abbrev answered {ℓ} : {A : Type ℓ} → Outcome A × Db → ℕ × Db
  answered (m, db) = (answer m, db)

  abbrev released_by : Db → Outcome (Released × Db) → ℕ × Db
  released_by db (ok (r, db')) = (200, db')
  released_by db m = (answer m, db)

  -- APIHandler.do_POST
  unfoldable pub do_post : String → String → Post → Db → ℕ × Db
  do_post admin_token supplied broken db = (400, db)
  do_post admin_token supplied (register r) db =
      if token_matches admin_token supplied then answered (controller_register r db) else (403, db)
  do_post admin_token supplied (release cid reference_id) db =
      if token_matches admin_token supplied
      then released_by db (release_object cid reference_id db)
      else (403, db)
  do_post admin_token supplied (beat node total used reports) db =
      if authenticate_node cfg node supplied db
      then answered (controller_heartbeat now node total used reports db)
      else (403, db)
  do_post admin_token supplied elsewhere db = (404, db)
