-- ===== src/Host/Adb.antt =====
-- host/adb.py: where adb is looked for, what a run of it comes to, and the forwarding that is checked
-- again. The program, the file system and Python's functions on texts are the parameters.
pub mod Verified
use zygisk_frida_packet_tcp.Base.{
  ℕ, String, Bool, true, false, not, ◌&&◌, ◌||◌, Option, none, some, List, [], ◌∷◌, ◌++◌, keep,
  ◌==◌, str_eq, fstring, decimal, decimal_ℤ, ℤ, pos, negsuc, if◌then◌else◌,
}
use zygisk_frida_packet_tcp.Json.{Fields, end, ◌⇒◌⨾◌, bool, nat, str, texts, null, is_some}
use zygisk_frida_packet_tcp.Bridge.Transport.{after_prefix}

-- `platform.system() == "Windows"`, `os.path.isfile` and `shutil.which`.
pub record Machine : Type 0 where
  pub is_windows : Bool
  pub is_file : String → Bool
  pub which : String → Option String

-- `s.lower()`, `s.strip()`, `s.splitlines()` and `s.split()`.
pub record TextTools : Type 0 where
  pub lower : String → String
  pub strip : String → String
  pub split_lines : String → List String
  pub words : String → List String

abbrev pub default_adb_windows : String
default_adb_windows = "C:/Program Files/platform-tools/adb.exe"

abbrev pub default_adb_fallback : String
default_adb_fallback = "adb"

-- `x or d` of a text or None.
abbrev or_text : Option String → String → String
or_text none d = d
or_text (some s) d = if str_eq s "" then d else s

unfoldable pub default_adb_path : Machine → String
default_adb_path m =
    if m.is_windows
    then if m.is_file default_adb_windows
      then default_adb_windows
      else or_text (m.which "adb") default_adb_windows
    else or_text (m.which "adb") default_adb_fallback

found_on_path : String → Option String → Option String × String
found_on_path candidate none = (
  none,
  fstring (
      "adb 不可用：既不是文件也不在 PATH 里 —— " ∷ candidate ∷ "。用 --adb 指定 adb.exe 的完整路径（默认 "
      ∷ default_adb_windows ∷ "）。" ∷ []),
)
found_on_path candidate (some found) =
    if str_eq found ""
    then (
      none,
      fstring (
          "adb 不可用：既不是文件也不在 PATH 里 —— " ∷ candidate ∷ "。用 --adb 指定 adb.exe 的完整路径（默认 "
          ∷ default_adb_windows ∷ "）。" ∷ []),
    )
    else (some found, fstring ("adb=" ∷ found ∷ "（PATH 命中）" ∷ []))

-- The path that can be used, and a note.
unfoldable pub resolve_adb : Machine → Option String → Option String × String
unfolding found_on_path default_adb_path
resolve_adb m path =
    let candidate = or_text path (default_adb_path m) in
    if m.is_file candidate
    then (some candidate, fstring ("adb=" ∷ candidate ∷ []))
    else found_on_path candidate (m.which candidate)

pub record AdbResult : Type 0 where
  pub ok : Bool
  pub command : List String
  pub stdout : String
  pub stderr : String
  pub detail : String

abbrev pub result_dict : TextTools → AdbResult → Fields
result_dict tools r =
    "ok"
    ⇒ bool r.ok ⨾ "command"
    ⇒ texts r.command ⨾ "stdout"
    ⇒ str (tools.strip r.stdout) ⨾ "stderr"
    ⇒ str (tools.strip r.stderr) ⨾ "detail"
    ⇒ str r.detail ⨾ end

-- What `subprocess.run` does: it ends with a code and its two texts, or it raises.
pub data Process : Type 0 where
  ends : ℤ → String → String → Process
  no_file no_permission times_out : Process
  os_error : String → Process

-- `needle in hay`.
unfoldable pub has_text : String → String → Bool
unfolding after_prefix
has_text needle String.[] = is_some (after_prefix needle "")
has_text needle (String.◌∷◌ c s) =
    is_some (after_prefix needle (String.◌∷◌ c s)) || has_text needle s

-- `" ".join(parts)`.
join_space : List String → String
join_space [] = ""
join_space (s ∷ []) = s
join_space (s ∷ t ∷ parts) = fstring (s ∷ " " ∷ join_space (t ∷ parts) ∷ [])

abbrev is_zero : ℤ → Bool
is_zero (pos n) = n == 0
is_zero (negsuc n) = false

abbrev failed : List String → String → AdbResult
failed cmd detail = record { ok = false; command = cmd; stdout = ""; stderr = ""; detail = detail }

-- `_run`, on what the process did; no failure is raised. `timeout` is the text of the limit.
unfoldable pub run_adb : TextTools → String → List String → String → Process → AdbResult
unfolding has_text join_space
run_adb tools adb args timeout no_file =
    failed (adb ∷ args) (fstring ("adb 无法启动（文件不存在）：" ∷ adb ∷ []))
run_adb tools adb args timeout no_permission =
    failed (adb ∷ args) (fstring ("adb 没有执行权限：" ∷ adb ∷ []))
run_adb tools adb args timeout times_out =
    failed (adb ∷ args) (fstring ("adb 调用超时（" ∷ timeout ∷ "s）：" ∷ join_space (adb ∷ args) ∷ []))
run_adb tools adb args timeout (os_error exc) =
    failed (adb ∷ args) (fstring ("adb 调用异常：" ∷ exc ∷ []))
run_adb tools adb args timeout (ends code stdout stderr) = record {
  ok = is_zero code && not (has_text "error:" (tools.lower (fstring (stdout ∷ stderr ∷ []))));
  command = adb ∷ args;
  stdout = stdout;
  stderr = stderr;
  detail = if is_zero code then "" else fstring ("adb 退出码 " ∷ decimal_ℤ code ∷ []);
}

abbrev pub serial_prefix : Option String → List String
serial_prefix none = []
serial_prefix (some s) = if str_eq s "" then [] else "-s" ∷ s ∷ []

abbrev pub list_args : Option String → List String
list_args serial = serial_prefix serial ++ "forward" ∷ "--list" ∷ []

pub record ForwardResult : Type 0 where
  pub ok : Bool
  pub verified : Bool
  pub adb : String
  pub local_port : ℕ
  pub device_port : ℕ
  pub serial : Option String
  pub command : List String
  pub stdout : String
  pub stderr : String
  pub detail : String
  pub forward_list : List String

abbrev pub tcp_text : ℕ → String
tcp_text port = fstring ("tcp:" ∷ decimal port ∷ [])

abbrev is_nil : List String → Bool
is_nil [] = true
is_nil (s ∷ ss) = false

module _ (tools : TextTools) (adb : String) (timeout : String) (exec : List String → Process) where
  unfoldable pub forward_list_of : Option String → AdbResult
  forward_list_of serial =
      run_adb tools adb (list_args serial) timeout (exec (adb ∷ list_args serial))

  unfoldable pub stripped_lines : List String → List String
  stripped_lines [] = []
  stripped_lines (l ∷ ls) =
      let s = tools.strip l in if str_eq s "" then stripped_lines ls else s ∷ stripped_lines ls

  -- The lines of the list that have the port.
  unfoldable pub hits_in : ℕ → List String → List String
  hits_in port lines = keep (λ l. has_text (tools.lower (tcp_text port)) (tools.lower l)) lines

  -- `ensure_forward` after the command, with what the list then shows.
  unfoldable pub checked : ℕ → ℕ → Option String → AdbResult → AdbResult → ForwardResult
  unfolding hits_in stripped_lines
  checked local device serial res listed =
      let lines = stripped_lines (tools.split_lines listed.stdout) in
      let hits = hits_in local lines in
      if res.ok
      then record {
        ok = true;
        verified = not (is_nil hits) && listed.ok;
        adb = adb;
        local_port = local;
        device_port = device;
        serial = serial;
        command = res.command;
        stdout = res.stdout;
        stderr = res.stderr;
        detail =
            if is_nil hits then fstring ("forward 已下发但 --list 里查不到 " ∷ tcp_text local ∷ []) else "";
        forward_list = lines;
      }
      else record {
        ok = false;
        verified = false;
        adb = adb;
        local_port = local;
        device_port = device;
        serial = serial;
        command = res.command;
        stdout = res.stdout;
        stderr = res.stderr;
        detail = if str_eq res.detail "" then "adb forward 失败" else res.detail;
        forward_list = [];
      }

  abbrev pub forward_args : ℕ → ℕ → Option String → List String
  forward_args local device serial =
      serial_prefix serial ++ "forward" ∷ tcp_text local ∷ tcp_text device ∷ []

  -- `ensure_forward`; the list is read only after a forward that worked.
  unfoldable pub ensure_forward : ℕ → ℕ → Option String → ForwardResult
  unfolding checked
  ensure_forward local device serial =
      let args = forward_args local device serial in
      checked local device serial (run_adb tools adb args timeout (exec (adb ∷ args)))
        (forward_list_of serial)

  device_of : List String → List String
  device_of (name ∷ kind ∷ rest) = if str_eq kind "device" then name ∷ [] else []
  device_of _ = []

  devices_in : List String → List String
  devices_in [] = []
  devices_in (l ∷ ls) = device_of (tools.words l) ++ devices_in ls

  -- `online_devices`.
  unfoldable pub online_devices : List String
  unfolding devices_in device_of
  online_devices =
      let args = "devices" ∷ "-l" ∷ [] in
      let res = run_adb tools adb args timeout (exec (adb ∷ args)) in
      if res.ok then devices_in (tools.split_lines res.stdout) else []
