-- ===== src/Tools/Handlers/Calls/Specified.antt =====
-- What the methods call, against the table of the tools.
use zygisk_frida_packet_tcp.Base.{
  String, ◌≡◌, refl, ◌⊎◌, inl, inr, Bool, true, ◌&&◌, Option, none, some, List, [], ◌∷◌, mem_text,
}
use zygisk_frida_packet_tcp.Json.{Json, obj, Fields, keys, get, get?, put}
use zygisk_frida_packet_tcp.Protocol.Commands.{is_known}
use zygisk_frida_packet_tcp.Tools.Spec.{ToolSpec}
use zygisk_frida_packet_tcp.Tools.Specs.{spec_by_name}
use zygisk_frida_packet_tcp.Tools.Handlers.Calls.{
  Invocation, device_list, packet_hex, tool_of, request,
}

names_in : Json → List String
names_in (obj ps) = keys ps
names_in v = []

-- The names of the properties that a schema lists.
unfoldable pub property_names : Json → List String
unfolding names_in
property_names (obj fs) = names_in (get fs "properties")
property_names v = []

unfoldable pub payload_names : Option Fields → List String
payload_names none = []
payload_names (some fs) = keys fs

unfoldable pub all_in : List String → List String → Bool
all_in [] ns = true
all_in (k ∷ ks) ns = mem_text k ns && all_in ks ns

-- The command that a tool's method calls.
abbrev pub CallsFor : Invocation → ToolSpec → Type 0
CallsFor i spec =
    ((request i).0 ≡ spec.command) ⊎ ((tool_of i ≡ "packet.hex") × ((request i).0 ≡ "packet.get"))

-- Every call of a tool: the tool is in the table, its method calls the command of its specification
-- (that of packet.hex calls packet.get, whose answer it cuts), which the register knows, and
-- passes on nothing that the tool's schema does not list.
pub request-specified :
    (i : Invocation)
    → (spec : ToolSpec) × (spec_by_name (tool_of i) ≡ some spec)
      × CallsFor i spec
      × (is_known (request i).0 ≡ true)
      × (all_in (payload_names (request i).1) (property_names spec.input_schema) ≡ true)
unfolding tool_of request spec_by_name is_known all_in payload_names property_names keys mem_text
    get? put
request-specified device_list = (_, refl, inl refl, refl, refl)
request-specified (packet_hex packet_id offset length) = (_, refl, inr (refl, refl), refl, refl)
request-specified _ = (_, refl, inl refl, refl, refl)
