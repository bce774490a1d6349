-- ===== src/Bridge/Lifecycle/Refines.antt =====
-- What the users of a client may rely on: a link that is up or down, and the number of the session.
use zygisk_frida_packet_tcp.Base.{ℕ, ◌+◌, ◌<◌, ◌≤◌, ◌≡◌, ◌⊎◌, Bool, true, false}
use zygisk_frida_packet_tcp.Bridge.Client.{Client}
use zygisk_frida_packet_tcp.Bridge.Calls.{is_linked}
use zygisk_frida_packet_tcp.Bridge.Lifecycle.{
  Setting, Kind, whole_connect, late_write, opening, kind_of, Reach, start, then_,
}

pub record Link : Type 0 where
  pub up : Bool
  pub generation : ℕ

-- The whole behaviour: nothing happens or the link goes down, whatever the step; a whole connection
-- brings it up under the next session; one whose parts are apart opens the session and writes the
-- link later; and such a late write marks the link up, under the session that there is.
pub data LinkStep (l : Link) : Kind → Link → Type 0 where
  stays : (k : Kind) → LinkStep l k l
  goes_down : (k : Kind) → LinkStep l k (record l { up = false })
  comes_up : LinkStep l whole_connect (record { up = true; generation = l.generation + 1 })
  renewed : LinkStep l opening (record l { generation = l.generation + 1 })
  marked_up : LinkStep l late_write (record l { up = true })

-- What of a client the users see.
abbrev pub link_of : Client → Link
link_of c = record { up = is_linked c.link; generation = c.sessions.generation }

-- That somewhere in a run, with the link down and no session opened since the run began, a link state
-- was written that was decided on before: by a heartbeat, a PONG, or a `connect` that had opened
-- its session earlier.
unfoldable pub LateMark : {env : Setting} {c d : Client} → Reach env c d → Type 0
LateMark start = ⊥
LateMark {c = c} (then_ {d = mid} r s) =
    LateMark r
    ⊎ ((is_linked mid.link ≡ false)
        × (mid.sessions.generation ≡ c.sessions.generation)
        × (kind_of s ≡ late_write))

-- Since a moment when the link was down: it is still down, or another session was opened.
abbrev Since : Link → Link → Type 0
Since l m = ((m.up ≡ false) × (l.generation ≤ m.generation)) ⊎ (l.generation < m.generation)
