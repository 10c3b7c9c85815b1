-- ===== src/Replication.antt =====
-- replication/hb_replication_db.py and hb_replication_controller.py: the objects that are replicated, the
-- jobs that replicate them, and the controller that plans the jobs.
pub mod Rows
pub mod Objects
pub mod Jobs
pub mod Reports
pub mod Controller
pub mod Api
