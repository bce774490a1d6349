-- ===== src/Mock/Device.antt =====
-- mock/state.py: what the stand-in for a device shows of its threads, connections and packets.
use zygisk_frida_packet_tcp.Base.{ℕ, String, Bool, true, false, hex_bytes}
use zygisk_frida_packet_tcp.Json.{nat, str, Fields, end, ◌⇒◌⨾◌}
use zygisk_frida_packet_tcp.Protocol.Frame.{Bytes}

pub record MockThread : Type 0 where
  pub tid : ℕ
  pub name : String
  pub state : String

abbrev pub thread_dict : MockThread → Fields
thread_dict t = "tid" ⇒ nat t.tid ⨾ "name" ⇒ str t.name ⨾ "state" ⇒ str t.state ⨾ end

pub record MockConnection : Type 0 where
  pub connection_id : String
  pub protocol : String
  pub local : String
  pub remote : String
  pub state : String
  pub pid : ℕ

abbrev pub connection_dict : MockConnection → Fields
connection_dict c =
    "connection_id"
    ⇒ str c.connection_id ⨾ "pid"
    ⇒ nat c.pid ⨾ "protocol"
    ⇒ str c.protocol ⨾ "local"
    ⇒ str c.local ⨾ "remote"
    ⇒ str c.remote ⨾ "state"
    ⇒ str c.state ⨾ end

pub record MockPacket : Type 0 where
  pub packet_id : String
  pub direction : String
  pub protocol : String
  pub length : ℕ
  pub connection_id : String
  pub payload : Bytes
  pub timestamp : ℕ

hex_entry : Bool → Bytes → Fields
hex_entry true payload = "hex" ⇒ str (hex_bytes payload) ⨾ end
hex_entry false payload = end

-- The digest of the payload is given.
unfoldable pub packet_dict : (Bytes → String) → MockPacket → Bool → Fields
unfolding hex_entry
packet_dict sha256 p with_hex =
    "packet_id"
    ⇒ str p.packet_id ⨾ "timestamp"
    ⇒ nat p.timestamp ⨾ "direction"
    ⇒ str p.direction ⨾ "protocol"
    ⇒ str p.protocol ⨾ "length"
    ⇒ nat p.length ⨾ "connection_id"
    ⇒ str p.connection_id ⨾ "sha256"
    ⇒ str (sha256 p.payload) ⨾ hex_entry with_hex p.payload
