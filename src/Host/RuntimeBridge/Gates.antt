-- ===== src/Host/RuntimeBridge/Gates.antt =====
-- What the gates let through.
use zygisk_frida_packet_tcp.Base.{
  String, ◌≡◌, refl, ap, ◌∙◌, inl, inr, true, Option, none, some, List, [], ◌∷◌, arith, All,
  Bool-cases,
}
use zygisk_frida_packet_tcp.Json.{Fields}
use zygisk_frida_packet_tcp.Protocol.Errors.{returns, ok, outcome, bind-returns, outcome-returns}
use zygisk_frida_packet_tcp.Tools.Spec.{ToolSpec}
use zygisk_frida_packet_tcp.Tools.Specs.{spec_by_name}
use zygisk_frida_packet_tcp.Bridge.Session.{Session, require}
use zygisk_frida_packet_tcp.Bridge.Client.{Client}
use zygisk_frida_packet_tcp.Bridge.Calls.{is_linked}
use zygisk_frida_packet_tcp.Host.RuntimeBridge.{granted, session_gaps, no_gaps, check_gaps, gate}

-- Each required pair of a group and a name is declared true.
abbrev pub AllGranted : Fields → List (String × String) → Type 0
AllGranted caps rs = All (λ (r : String × String). granted caps r.0 r.1 ≡ returns true) rs

gaps-nil :
    (caps : Fields) (rs : List (String × String))
    → session_gaps caps rs ≡ returns []
    → AllGranted caps rs
unfolding session_gaps
gaps-nil caps [] h = tt
gaps-nil caps ((group, key) ∷ rs) h =
    let (there, first, rest) = bind-returns (granted caps group key) _ [] h in
    let (missing, others, none_) = bind-returns (session_gaps caps rs) _ [] rest in
    elim (Bool-cases there) [
      | inl e ↦
          let nil : missing ≡ [] = ground (arith, none_, e) in
          (first ∙ ap returns e, gaps-nil caps rs (others ∙ ap returns nil))
      | inr e ↦ absurd (ground (arith, none_, e))
    ]

no_gaps-nil :
    (spec : ToolSpec) (sess : Session) (gaps : List String) (command : String)
    → no_gaps spec sess gaps ≡ returns command
    → (gaps ≡ []) × (command ≡ spec.command)
unfolding no_gaps
no_gaps-nil spec sess [] command h = (refl, cc)
no_gaps-nil spec sess (gap ∷ gaps) command h = absurd cc

-- What a call that is let through has: it is no tool's and names the command itself, or it is a
-- tool's, whose command is called and whose requirements are all granted.
abbrev pub Allowed : String → Session → String → Option ToolSpec → Type 0
Allowed name sess command none = command ≡ name
Allowed name sess command (some spec) =
    (command ≡ spec.command) × AllGranted sess.capabilities spec.requires

check_gaps-Allowed :
    (sess : Session) (name command : String) (o : Option ToolSpec)
    → check_gaps sess name o ≡ returns command
    → Allowed name sess command o
unfolding check_gaps
check_gaps-Allowed sess name command none h = cc
check_gaps-Allowed sess name command (some spec) h =
    let (gaps, found, passed) =
      bind-returns (session_gaps sess.capabilities spec.requires) _ command h in
    let (nil, same) = no_gaps-nil spec sess gaps command passed in
    (same, gaps-nil sess.capabilities spec.requires (found ∙ ap returns nil))

-- A call that the gates let through: the link is up, there is a session that can be used, and a
-- tool's own command is called and all that the tool requires is declared true by that session;
-- a name that is no tool's is taken for the command.
pub gate-Allowed :
    (endpoint : String) (c : Client) (name command : String)
    → gate endpoint c name ≡ returns command
    → (is_linked c.link ≡ true)
      × (sess : Session) × (require c.sessions ≡ ok sess)
      × Allowed name sess command (spec_by_name name)
unfolding gate
gate-Allowed endpoint c name command h = elim (Bool-cases (is_linked c.link)) [
  | inl up ↦
      let (sess, live, passed) =
        bind-returns (outcome (require c.sessions)) _ command (rw up at h) in
      (
        up,
        sess,
        outcome-returns (require c.sessions) sess live,
        check_gaps-Allowed sess name command (spec_by_name name) passed,
      )
  | inr down ↦ absurd (ground (arith, h, down))
]
