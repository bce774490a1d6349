-- ===== src/Tools/Spec.antt =====
-- tools/spec.py: the specification of a tool, and the fragments of JSON Schema.
use zygisk_frida_packet_tcp.Base.{
  String, Bool, true, false, not, ◌&&◌, List, [], ◌∷◌, str_eq, if◌then◌else◌, fstring,
}
use zygisk_frida_packet_tcp.Json.{
  Json, bool, nat, str, arr, obj, Fields, end, ◌⇒◌⨾◌, items, texts, put,
}
use zygisk_frida_packet_tcp.Protocol.Commands.{is_known}

pub data Surface : Type 0 where
  core expert : Surface

pub data Latency : Type 0 where
  fast medium slow : Latency

abbrev pub label : Latency → String
label fast = "快 <1s"
label medium = "中 <30s"
label slow = "慢 <5min"

pub record ToolSpec : Type 0 where
  pub name : String
  pub title : String
  pub description : String
  pub command : String
  pub surface : Surface
  pub latency : Latency
  pub read_only : Bool
  pub destructive : Bool
  pub idempotent : Bool
  pub open_world : Bool
  pub group : String
  pub requires : List (String × String)
  pub input_schema : Json
  pub output_schema : Json

abbrev pub is_core : Surface → Bool
is_core core = true
is_core expert = false

-- `__post_init__` raises unless this holds.
unfoldable pub post_init : ToolSpec → Bool
post_init s =
    is_known s.command
    && not (is_core s.surface && not (str_eq s.group ""))
    && not (not (is_core s.surface) && str_eq s.group "")

unfoldable pub annotations : ToolSpec → Fields
annotations s =
    "readOnlyHint"
    ⇒ bool s.read_only ⨾ "destructiveHint"
    ⇒ bool s.destructive ⨾ "idempotentHint"
    ⇒ bool s.idempotent ⨾ "openWorldHint"
    ⇒ bool s.open_world ⨾ end

unfoldable pub description_with_latency : ToolSpec → String
description_with_latency s = fstring ("[" ∷ label s.latency ∷ "] " ∷ s.description ∷ [])

-- `dict[str, dict[str, bool]]`.
abbrev pub Flags : Type 0
Flags = List (String × Bool)

abbrev pub Capabilities : Type 0
Capabilities = List (String × Flags)

unfoldable pub flag : Flags → String → Bool
flag [] key = false
flag ((k, b) ∷ fs) key = if str_eq k key then b else flag fs key

-- `capabilities.get(group, {}).get(key, False)`.
unfoldable pub capability : Capabilities → String → String → Bool
capability [] group key = false
capability ((g, fs) ∷ caps) group key =
    if str_eq g group then flag fs key else capability caps group key

unfoldable pub gaps_of : List (String × String) → Capabilities → List String
gaps_of [] caps = []
gaps_of ((group, key) ∷ rest) caps =
    if capability caps group key
    then gaps_of rest caps
    else fstring (group ∷ "." ∷ key ∷ []) ∷ gaps_of rest caps

-- The requirements that the capabilities do not meet.
unfoldable pub capability_gaps : ToolSpec → Capabilities → List String
unfolding gaps_of
capability_gaps s caps = gaps_of s.requires caps

-- `obj(props, required, strict=…)`.
abbrev pub obj_schema : Fields → List String → Bool → Json
obj_schema props required strict =
    let out =
      "type" ⇒ str "object" ⨾ "required" ⇒ texts required ⨾ "properties" ⇒ obj props ⨾ end in
    obj (if strict then put out "additionalProperties" (bool false) else out)

abbrev pub list_of : Json → Json
list_of item = obj ("type" ⇒ str "array" ⨾ "items" ⇒ item ⨾ end)

abbrev pub page_schema : Json → Json
page_schema item = obj (
    "type"
    ⇒ str "object" ⨾ "additionalProperties"
    ⇒ bool false ⨾ "required"
    ⇒ texts ("total" ∷ "truncated" ∷ []) ⨾ "properties"
    ⇒ obj (
        "total"
        ⇒ obj ("type" ⇒ str "integer" ⨾ "minimum" ⇒ nat 0 ⨾ end) ⨾ "truncated"
        ⇒ obj ("type" ⇒ str "boolean" ⨾ end) ⨾ "next_cursor"
        ⇒ obj ("type" ⇒ texts ("string" ∷ "null" ∷ []) ⨾ end) ⨾ "items"
        ⇒ list_of item ⨾ end) ⨾
      end)

abbrev pub address : Json
address = obj (
    "type"
    ⇒ str "string" ⨾ "pattern"
    ⇒ str "^0x[0-9a-fA-F]+$" ⨾ "description"
    ⇒ str "内存地址，必须是 '0x...' 字符串（不要传 number，避免精度丢失）" ⨾ end)

abbrev pub address_or_int : Json
address_or_int = obj (
    "type"
    ⇒ arr (items ((str "string") ∷ (str "integer") ∷ [])) ⨾ "description"
    ⇒ str "地址，'0x...' 字符串或整数" ⨾ end)
