-- ===== src/Bridge/Transport.antt =====
-- bridge/transport.py: endpoints and their texts. The sockets are left out; `int_of_text` is `int(s)`,
-- with nothing where it raises ValueError.
pub mod Parsed
use Prim.Native.Char.{code}
use Prim.Native.String.{◌++◌ as append_text}
use zygisk_frida_packet_tcp.Base.{
  ℕ, String, Bool, true, false, not, ◌&&◌, Option, none, some, [], ◌∷◌, ◌==◌, leb, str_eq, fstring,
  decimal, decimal_ℤ, ℤ, pos, negsuc, if◌then◌else◌,
}
use zygisk_frida_packet_tcp.Json.{str, end, ◌⇒◌⨾◌}
use zygisk_frida_packet_tcp.Protocol.Errors.{
  ProtocolError, error, error_next, e_bad_args, Result, ok, raise,
}

abbrev pub transport_unix : String
transport_unix = "unix"

abbrev pub transport_tcp : String
transport_tcp = "tcp"

pub record Endpoint : Type 0 where
  pub kind : String
  pub raw : String
  pub path : Option String
  pub host : Option String
  pub port : Option ℕ

abbrev pub is_unix : Endpoint → Bool
is_unix ep = str_eq ep.kind transport_unix

abbrev is_zero : Option ℕ → Bool
is_zero none = false
is_zero (some n) = n == 0

abbrev pub is_ephemeral : Endpoint → Bool
is_ephemeral ep = str_eq ep.kind transport_tcp && is_zero ep.port

-- `f"{host}"` of a text or None.
abbrev host_text : Option String → String
host_text none = "None"
host_text (some h) = h

unfoldable pub with_port : Endpoint → ℕ → Endpoint
with_port ep port = record {
  kind = ep.kind;
  raw = fstring (transport_tcp ∷ ":" ∷ host_text ep.host ∷ ":" ∷ decimal port ∷ []);
  path = none;
  host = ep.host;
  port = some port;
}

-- What follows a prefix, if the text starts with it.
unfoldable pub after_prefix : String → String → Option String
after_prefix String.[] s = some s
after_prefix (String.◌∷◌ p ps) String.[] = none
after_prefix (String.◌∷◌ p ps) (String.◌∷◌ c cs) =
    let rest = after_prefix ps cs in if code p == code c then rest else none

push_char : String → Option (String × String) → Option (String × String)
push_char c none = none
push_char c (some (h, p)) = some (append_text c h, p)

-- `s.rpartition(":")`, with nothing where there is no colon.
unfoldable pub rpartition : String → Option (String × String)
unfolding push_char
rpartition String.[] = none
rpartition (String.◌∷◌ c s) = elim (rpartition s) [
  | some (h, p) ↦ push_char (String.◌∷◌ c String.[]) (some (h, p))
  | none ↦ if code c == b':' then some ("", s) else none
]

abbrev pub max_port : ℕ
max_port = 65535

module _ (int_of_text : String → Option ℤ) where
  unfoldable pub tcp_port : String → String → String → Option ℤ → Result Endpoint
  tcp_port spec host port_raw none =
      raise (
        error e_bad_args (fstring ("TCP 端口不是整数：'" ∷ port_raw ∷ "'" ∷ [])) ("spec" ⇒ str spec ⨾ end))
  tcp_port spec host port_raw (some (negsuc n)) = raise (
      error e_bad_args (fstring ("TCP 端口越界：" ∷ decimal_ℤ (negsuc n) ∷ []))
        ("spec" ⇒ str spec ⨾ end))
  tcp_port spec host port_raw (some (pos n)) =
      if leb n max_port
      then ok (record {
        kind = transport_tcp;
        raw = spec;
        path = none;
        host = some (if str_eq host "" then "127.0.0.1" else host);
        port = some n;
      })
      else raise
          (error e_bad_args (fstring ("TCP 端口越界：" ∷ decimal n ∷ [])) ("spec" ⇒ str spec ⨾ end))

  unfoldable pub tcp_endpoint : String → Option (String × String) → Result Endpoint
  tcp_endpoint spec none = raise (
      error e_bad_args (fstring ("TCP 端点必须写成 tcp:host:port，收到 '" ∷ spec ∷ "'" ∷ []))
        ("spec" ⇒ str spec ⨾ end))
  tcp_endpoint spec (some (host, port_raw)) = tcp_port spec host port_raw (int_of_text port_raw)

  unfoldable pub unix_endpoint : String → Option String → Endpoint
  unix_endpoint spec (some path) = record {
    kind = transport_unix;
    raw = spec;
    path = some path;
    host = none;
    port = none;
  }
  unix_endpoint spec none = record {
    kind = transport_unix;
    raw = fstring (transport_unix ∷ ":" ∷ spec ∷ []);
    path = some spec;
    host = none;
    port = none;
  }

  unfoldable pub endpoint_of : String → Option String → Result Endpoint
  endpoint_of spec (some rest) = tcp_endpoint spec (rpartition rest)
  endpoint_of spec none = ok (unix_endpoint spec (after_prefix "unix:" spec))

  -- `parse_endpoint`.
  unfoldable pub parse_endpoint : String → Result Endpoint
  parse_endpoint spec =
      if str_eq spec ""
      then raise (error_next e_bad_args "端点不能为空" end "给出 unix: 或 tcp: 端点")
      else endpoint_of spec (after_prefix "tcp:" spec)
