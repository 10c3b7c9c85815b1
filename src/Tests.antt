-- ===== src/Tests.antt =====
-- Tests of the definitions on concrete inputs, and each theorem at an input where it applies.
mod Ha
mod App
mod Ingress
mod Placement
mod Relay
mod Wire
mod Replication
mod Client
mod Daemon
mod Files
