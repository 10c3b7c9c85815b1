-- ===== src/Ha.antt =====
-- ha/hashburst_ha_agent.py: the distributed lease agent.
pub mod Config
pub mod Voter
pub mod View
pub mod Leader
pub mod Election
pub mod Guard
