-- ===== src/Python.antt =====
-- What the code calls of Python's own library and is no more than a name here: conversions whose
-- rules on texts are long, and a digest; and the text of a value.
use zygisk_frida_packet_tcp.Base.{ℕ, String, true, false, List, ℤ, decimal_ℤ}
use zygisk_frida_packet_tcp.Json.{Json, null, bool, int, str, Fields}
use zygisk_frida_packet_tcp.Protocol.Errors.{Outcome}
use zygisk_frida_packet_tcp.Protocol.Frame.{type_name}

-- `int(v)`, `int(s, 16)`, `dict(v)`, `f"{age:.0f}"` of the seconds in so many milliseconds, and
-- `hashlib.sha256(payload).hexdigest()`.
pub record Builtins : Type 0 where
  pub int_of : Json → Outcome ℤ
  pub int_hex : String → Outcome ℤ
  pub dict_of : Json → Outcome Fields
  pub seconds : ℕ → String
  pub sha256 : List ℕ → String

-- `f"{v}"`; a nested value is not written out.
pub shown : Json → String
shown (str s) = s
shown null = "None"
shown (bool true) = "True"
shown (bool false) = "False"
shown (int i) = decimal_ℤ i
shown v = type_name v
