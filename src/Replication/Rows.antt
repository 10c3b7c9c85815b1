-- ===== src/Replication/Rows.antt =====
-- replication/hb_replication_db.py: the tables, their rows, and the queries that the methods share. Columns
-- that no method reads (names, roles, metadata, texts of errors) and the table `audit` are left out. A call
-- is one transaction: an exception leaves the tables as they were. Times are seconds.
use node_installer.Prelude.{
  ℕ, String, Bool, ◌&&◌, Option, none, some, List, [], ◌∷◌, ◌==◌, if◌then◌else◌,
}

pub data JobState : Type 0 where
  pending retry done stale : JobState

pub data ReplicaState : Type 0 where
  assigned pinning pinned grace failed missing : ReplicaState

pub data Operation : Type 0 where
  pin verify : Operation

-- A row of `nodes`.
pub record NodeRow : Type 0 where
  pub node_id : String
  pub capacity_class : String
  pub enabled : Bool
  pub last_seen : ℕ
  pub total_bytes : ℕ
  pub used_bytes : ℕ
  pub stability_score : ℕ
  pub failure_penalty : ℕ
  pub auth_token : String

-- A row of `objects`.
pub record ObjectRow : Type 0 where
  pub cid : String
  pub size_bytes : ℕ
  pub created_at : ℕ
  pub replication_n : ℕ
  pub committable_m : ℕ
  pub state : String
  pub generation : ℕ
  pub refcount : ℕ

-- A row of `object_refs`.
pub record Reference : Type 0 where
  pub reference_id : String
  pub cid : String

-- A row of `replicas`.
pub record Replica : Type 0 where
  pub cid : String
  pub node_id : String
  pub desired : Bool
  pub state : ReplicaState
  pub class_at_assignment : String
  pub assigned_at : ℕ
  pub confirmed_at : ℕ
  pub last_verified_at : ℕ
  pub failure_since : ℕ
  pub generation : ℕ

-- A row of `jobs`.
pub record Job : Type 0 where
  pub job_id : String
  pub cid : String
  pub node_id : String
  pub operation : Operation
  pub generation : ℕ
  pub state : JobState
  pub attempts : ℕ
  pub next_attempt_at : ℕ
  pub lease_until : ℕ
  pub created_at : ℕ

pub record Db : Type 0 where
  pub nodes : List NodeRow
  pub objects : List ObjectRow
  pub refs : List Reference
  pub replicas : List Replica
  pub jobs : List Job

-- `SELECT … WHERE` a primary key.
abbrev pub find_node : String → List NodeRow → Option NodeRow
find_node id [] = none
find_node id (n ∷ ns) = let rest = find_node id ns in if n.node_id == id then some n else rest

unfoldable pub find_object : String → List ObjectRow → Option ObjectRow
find_object cid [] = none
find_object cid (o ∷ os) = let rest = find_object cid os in if o.cid == cid then some o else rest

unfoldable pub find_ref : String → List Reference → Option Reference
find_ref id [] = none
find_ref id (r ∷ rs) = let rest = find_ref id rs in if r.reference_id == id then some r else rest

abbrev pub is_replica : String → String → Replica → Bool
is_replica cid node r = r.cid == cid && r.node_id == node

unfoldable pub find_replica : String → String → List Replica → Option Replica
find_replica cid node [] = none
find_replica cid node (r ∷ rs) =
    let rest = find_replica cid node rs in if is_replica cid node r then some r else rest

-- `UPDATE … WHERE` a primary key.
unfoldable pub update_object : String → (ObjectRow → ObjectRow) → List ObjectRow → List ObjectRow
update_object cid f [] = []
update_object cid f (o ∷ os) =
    let rest = update_object cid f os in if o.cid == cid then f o ∷ rest else o ∷ rest

unfoldable pub update_replica : String → String → (Replica → Replica) → List Replica → List Replica
update_replica cid node f [] = []
update_replica cid node f (r ∷ rs) =
    let rest = update_replica cid node f rs in
    if is_replica cid node r then f r ∷ rest else r ∷ rest

unfoldable pub update_node : String → (NodeRow → NodeRow) → List NodeRow → List NodeRow
update_node id f [] = []
update_node id f (n ∷ ns) =
    let rest = update_node id f ns in if n.node_id == id then f n ∷ rest else n ∷ rest

-- `INSERT … ON CONFLICT DO UPDATE` on `replicas`.
unfoldable pub upsert_replica : Replica → (Replica → Replica) → List Replica → List Replica
upsert_replica new f [] = new ∷ []
upsert_replica new f (r ∷ rs) =
    if is_replica new.cid new.node_id r then f r ∷ rs else r ∷ upsert_replica new f rs
