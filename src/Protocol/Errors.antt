-- ===== src/Protocol/Errors.antt =====
-- protocol/errors.py: the table of error codes, the error that is raised, and its form on the wire.
pub mod Made
use zygisk_frida_packet_tcp.Base.{
  String, Bool, true, false, Option, none, some, List, [], ◌∷◌, str_eq, if◌then◌else◌, ◌≡◌, arith,
  refl,
}
use zygisk_frida_packet_tcp.Json.{bool, str, obj, Fields, end, ◌⇒◌⨾◌}

pub data ErrorLayer : Type 0 where
  protocol execution : ErrorLayer

pub data ErrorCode : Type 0 where
  error_protocol_version e_bad_args e_unknown_cmd e_malformed_frame : ErrorCode
  e_not_ready e_session_stale e_read_failed e_write_failed e_map_stale e_timeout e_cancelled
        e_not_found e_permission_denied e_internal :
      ErrorCode

abbrev pub layer_value : ErrorLayer → String
layer_value protocol = "protocol"
layer_value execution = "execution"

abbrev pub code_value : ErrorCode → String
code_value error_protocol_version = "ERROR_PROTOCOL_VERSION"
code_value e_bad_args = "E_BAD_ARGS"
code_value e_unknown_cmd = "E_UNKNOWN_CMD"
code_value e_malformed_frame = "E_MALFORMED_FRAME"
code_value e_not_ready = "E_NOT_READY"
code_value e_session_stale = "E_SESSION_STALE"
code_value e_read_failed = "E_READ_FAILED"
code_value e_write_failed = "E_WRITE_FAILED"
code_value e_map_stale = "E_MAP_STALE"
code_value e_timeout = "E_TIMEOUT"
code_value e_cancelled = "E_CANCELLED"
code_value e_not_found = "E_NOT_FOUND"
code_value e_permission_denied = "E_PERMISSION_DENIED"
code_value e_internal = "E_INTERNAL"

abbrev pub all_codes : List ErrorCode
all_codes =
    error_protocol_version ∷ e_bad_args ∷ e_unknown_cmd ∷ e_malformed_frame ∷ e_not_ready
    ∷ e_session_stale ∷ e_read_failed ∷ e_write_failed ∷ e_map_stale ∷ e_timeout ∷ e_cancelled
    ∷ e_not_found ∷ e_permission_denied ∷ e_internal ∷ []

pub record ErrorMeta : Type 0 where
  pub layer : ErrorLayer
  pub retryable : Bool
  pub ai_action : String

abbrev pub error_meta : ErrorCode → ErrorMeta
error_meta error_protocol_version = record {
  layer = protocol;
  retryable = false;
  ai_action = "停止，报告需升级；不可重试";
}
error_meta e_bad_args = record { layer = protocol; retryable = false; ai_action = "改参数" }
error_meta e_unknown_cmd = record { layer = protocol; retryable = false; ai_action = "改工具名 / 改命令" }
error_meta e_malformed_frame = record {
  layer = protocol;
  retryable = false;
  ai_action = "检查帧格式与长度前缀";
}
error_meta e_not_ready = record {
  layer = execution;
  retryable = true;
  ai_action = "先完成前置步骤（等待 RUNTIME_READY）";
}
error_meta e_session_stale = record {
  layer = execution;
  retryable = false;
  ai_action = "Session 已失效，重建 Session";
}
error_meta e_read_failed = record {
  layer = execution;
  retryable = false;
  ai_action = "查地址 / 换候选 / 查映射可读性";
}
error_meta e_write_failed = record {
  layer = execution;
  retryable = false;
  ai_action = "查地址 / 查映射可写性；已尝试回滚";
}
error_meta e_map_stale = record {
  layer = execution;
  retryable = true;
  ai_action = "模块映射已变，重新 process.modules";
}
error_meta e_timeout = record { layer = execution; retryable = true; ai_action = "当作后端可能异常，先探活" }
error_meta e_cancelled = record { layer = execution; retryable = true; ai_action = "重新发起" }
error_meta e_not_found = record {
  layer = execution;
  retryable = true;
  ai_action = "换搜索方式（放宽条件 / 改特征码）";
}
error_meta e_permission_denied = record {
  layer = execution;
  retryable = false;
  ai_action = "报告权限不足，降级";
}
error_meta e_internal = record { layer = execution; retryable = false; ai_action = "查日志" }

pub record ProtocolError : Type 0 where
  pub code : ErrorCode
  pub message : String
  pub context : Fields
  pub next_step : Option String

-- `ProtocolError(code, message, context)`, and with `next_step=`.
abbrev pub error : ErrorCode → String → Fields → ProtocolError
error c m ctx = record { code = c; message = m; context = ctx; next_step = none }

abbrev pub error_next : ErrorCode → String → Fields → String → ProtocolError
error_next c m ctx next = record { code = c; message = m; context = ctx; next_step = some next }

abbrev pub meta : ProtocolError → ErrorMeta
meta e = error_meta e.code

-- `self.next_step or self.meta.ai_action`: an empty text counts as missing.
next_step_or : Option String → String → String
next_step_or none action = action
next_step_or (some next) action = if str_eq next "" then action else next

unfoldable pub to_dict : ProtocolError → Fields
unfolding next_step_or
to_dict e =
    "code"
    ⇒ str (code_value e.code) ⨾ "layer"
    ⇒ str (layer_value (meta e).layer) ⨾ "message"
    ⇒ str e.message ⨾ "context"
    ⇒ obj e.context ⨾ "retryable"
    ⇒ bool (meta e).retryable ⨾ "next_step"
    ⇒ str (next_step_or e.next_step (meta e).ai_action) ⨾ end

-- `ErrorCode(raw)` where `raw` is one of the values.
find_code : List ErrorCode → String → Option ErrorCode
find_code [] raw = none
find_code (c ∷ cs) raw = if str_eq (code_value c) raw then some c else find_code cs raw

unfoldable pub code_of_value : String → Option ErrorCode
unfolding find_code
code_of_value raw = find_code all_codes raw

pub code_of_value-code_value : (c : ErrorCode) → code_of_value (code_value c) ≡ some c
unfolding code_of_value
code_of_value-code_value error_protocol_version = ground arith
code_of_value-code_value _ = ground arith

pub data Result {ℓ} (A : Type ℓ) : Type ℓ where
  ok : A → Result A
  raise : ProtocolError → Result A

-- What raises the given code.
abbrev pub Raises {ℓ} : {A : Type ℓ} → Result A → ErrorCode → Type 0
Raises (ok a) c = ⊥
Raises (raise e) c = e.code ≡ c

infixl 5 ◌>>=◌ ◌>>◌
abbrev pub ◌>>=◌ {ℓ κ} : {A : Type ℓ} {B : Type κ} → Result A → (A → Result B) → Result B
ok a >>= f = f a
raise e >>= f = raise e

abbrev pub ◌>>◌ {ℓ} : {B : Type ℓ} → Result (Unit {0}) → Result B → Result B
m >> k = m >>= λ _. k

-- `if not test: raise e`.
abbrev pub require_that : Bool → ProtocolError → Result (Unit {0})
require_that true e = ok tt
require_that false e = raise e

-- The exceptions of Python that no handler of the protocol layer expects.
pub data PyError : Type 0 where
  type_error value_error attribute_error key_error : PyError

-- What a call ends in where such an exception is possible too.
pub data Outcome {ℓ} (A : Type ℓ) : Type ℓ where
  returns : A → Outcome A
  raises : ProtocolError → Outcome A
  crashes : PyError → Outcome A

abbrev pub outcome {ℓ} : {A : Type ℓ} → Result A → Outcome A
outcome (ok a) = returns a
outcome (raise e) = raises e

abbrev pub bind {ℓ κ} : {A : Type ℓ} {B : Type κ} → Outcome A → (A → Outcome B) → Outcome B
bind (returns a) f = f a
bind (raises e) f = raises e
bind (crashes x) f = crashes x

abbrev pub RaisesCode {ℓ} : {A : Type ℓ} → Outcome A → ErrorCode → Type 0
RaisesCode (returns a) c = ⊥
RaisesCode (raises e) c = e.code ≡ c
RaisesCode (crashes x) c = ⊥

-- A chain that returns: its first part returned, and the rest of it on that.
pub bind-returns {ℓ κ} :
    {A : Type ℓ} {B : Type κ} (o : Outcome A) (f : A → Outcome B) (b : B)
    → bind o f ≡ returns b
    → (a : A) × (o ≡ returns a) × (f a ≡ returns b)
bind-returns (returns a) f b h = (a, refl, h)
bind-returns (raises e) f b h = absurd cc
bind-returns (crashes x) f b h = absurd cc

pub outcome-returns {ℓ} : {A : Type ℓ} (r : Result A) (a : A) → outcome r ≡ returns a → r ≡ ok a
outcome-returns (ok b) a h = cc
outcome-returns (raise e) a h = absurd cc
