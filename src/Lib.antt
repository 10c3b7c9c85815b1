-- ===== src/Lib.antt =====
-- Verification of the node software: storage nodes that elect a master, talk over an authenticated
-- peer protocol (TEP), and place replicas of the objects that they hold.
--
-- The parts, and the files that model them:
-- - Ha: ha/hashburst_ha_agent.py. Ha/Config is the class Config; Ha/Voter is PersistentVoteState and
--   LeaseEngine.handle_tep; Ha/View is LeaseEngine._majority_view; Ha/Leader is _renew, _campaign,
--   _demote and run_once; Ha/Guard is _write_guard and the function watchdog. What a node reads of the
--   others in a round is an argument; Ha/Election takes for it what the handlers of the voters reply
--   to the request of a campaign. A vote is kept in memory and in a file, whose writes may fail.
-- - App: tep/hb_tep_app.py, the envelope of every request between the nodes. App/Envelope is
--   validate_envelope, App/Hex is _is_hex, App/Message is encode_message and decode_message with the
--   constructors of messages, App/Sorted the order of keys that is written, App/Replay is ReplayCache.
-- - Relay: tep/hb_tep_relay.py, which carries a request to a node that cannot be reached directly. Relay
--   is RelayTable and RelayPolicy, Relay/Dispatch is RelayDispatcher on the relay node, Relay/Transport
--   is FailoverTepTransport on the node that calls.
-- - Client: tep/hb_tep_client.py, the requests of a node that wait for a response. Service:
--   tep/hb_tep_services.py and tep/hb_tep_master_service.py, the services that a node offers.
-- - Daemon: tep/hb_tep.py, between the two. Daemon/Packet is _build_packet and _parse_packet, Daemon/Peers is
--   PeerManager, Daemon/Engine is TepEngine from a received packet to the thread or the waiting request that it
--   is for, Daemon/Requests the handling of a request with App/Replay and Service.
-- - Wire: tep/hb_tep_wire.py, the packet types under which messages are sent.
-- - Ingress: ha/hashburst_master_ingress.py, which asks the local agent and the local TEP daemon for
--   the master. Ingress is MasterResolver, Ingress/Http is the request handler.
-- - Placement: replication/hb_replication_policy.py, where replicas go.
-- - Replication: replication/hb_replication_db.py and replication/hb_replication_controller.py. The tables of
--   ReplicationDB are lists of rows (Rows), with a method per function: Objects counts references, Jobs leases
--   work to the agents, Reports takes their results. Controller is the repair of one object, which calls
--   Placement for new replicas; Api is what the agents and the operator call.
-- - Files: hbfiles/hb_registry.py, who may use the files service.
-- Prelude, Text, Json and Outcome hold what these share: native numbers, signed integers, Python's text
-- operations, the values of json.loads with the built-ins int, bool and str on them, and the results of
-- fallible calls with a do block.
--
-- State is passed explicitly: a method that changes its object returns the object after it. A method
-- under a lock is one step. The clock, the answers to calls, and the file system are arguments; times
-- are milliseconds, or seconds where the source counts whole ones. A float of a time or of a ratio is a
-- natural number. `repr` stands for Python's text of a list or a dictionary, where a field that should
-- be a text is none. Loops are recursion on the list, for the relays of a call
-- also on the attempts that are left; the one loop on fuel, that of Placement over the
-- extra nodes, takes a node off its pool in each round and has the length of the pool as fuel.
--
-- Not modelled: sockets, HTTP servers and clients, processes and systemd, the files of configuration,
-- cryptography, SQLite, and the parts of the repository not named here (the loops, the status server and the
-- relay threads of the TEP daemon and its runtime of later releases, the HTTP server of the replication
-- controller, the rest of the files service, the aggregator, installers and tools).
pub mod Prelude
pub mod Text
pub mod Json
pub mod Outcome
pub mod Ha
pub mod App
pub mod Ingress
pub mod Placement
pub mod Relay
pub mod Wire
pub mod Replication
pub mod Client
pub mod Daemon
pub mod Service
pub mod Files
mod Tests
