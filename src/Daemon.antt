-- ===== src/Daemon.antt =====
-- tep/hb_tep.py: constants of the daemon that carries messages between nodes.
pub mod Packet
pub mod Peers
pub mod Engine
pub mod Requests
use node_installer.Prelude.{ℕ, Bool, ◌||◌, eqb}

abbrev pub tep_version : ℕ
tep_version = 2

abbrev pub pkt_app_request : ℕ
pkt_app_request = 0x20

abbrev pub pkt_app_response : ℕ
pkt_app_response = 0x21

abbrev pub pkt_app_error : ℕ
pkt_app_error = 0x22

abbrev pub pkt_relay_request : ℕ
pkt_relay_request = 0x23

abbrev pub pkt_relay_response : ℕ
pkt_relay_response = 0x24

abbrev pub app_packet_types : ℕ → Bool
app_packet_types t =
    eqb t pkt_app_request
    || (eqb t pkt_app_response
        || (eqb t pkt_app_error || (eqb t pkt_relay_request || eqb t pkt_relay_response)))
