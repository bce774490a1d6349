-- ===== src/Bridge/Session/Stale.antt =====
-- A session that was replaced or closed stays refused.
use zygisk_frida_packet_tcp.Base.{
  false, Option-cases, ◌⊎◌, ℕ, String, ◌≡◌, ◌≢◌, ◌↔◌, refl, ap, ◌∙◌, Option, none, some, List, [],
  ◌∷◌, ◌++◌, arith, true, Bool-cases, inl, inr, eq_iff, mem_text, All,
}
use zygisk_frida_packet_tcp.Json.{Fields}
use zygisk_frida_packet_tcp.Protocol.Errors.{
  ProtocolError, e_not_ready, e_session_stale, ok, Raises, ◌>>=◌,
}
use zygisk_frida_packet_tcp.Protocol.Constants.{SessionState, closed}
use zygisk_frida_packet_tcp.Bridge.Session.{
  require, Session, SessionManager, retire, retire_current, is_live, live_or, id_is,
  require_matching, matching, open_session, degrade, close_session, sweep, touch, Op, opens,
  degrades, closes, sweeps, touches, step, run,
}

-- The current session, if there is one, has another id.
abbrev pub IsOther : Option Session → String → Type 0
IsOther none id = Unit
IsOther (some s) id = s.session_id ≢ id

-- The id is in the history and the current session has another.
abbrev pub IsStale : SessionManager → String → Type 0
IsStale m id = (mem_text id m.history ≡ true) × IsOther m.current id

-- The call does not open a session under the id.
abbrev pub OpensOther : String → Op → Type 0
OpensOther id (opens new state caps now) = new ≢ id
OpensOther id _ = Unit

mem_text-append :
    (id : String) (xs ys : List String) → mem_text id xs ≡ true → mem_text id (xs ++ ys) ≡ true
unfolding mem_text
mem_text-append id [] ys h = absurd (cc)
mem_text-append id (x ∷ xs) ys h = ground (arith, mem_text-append id xs ys)

mem_text-append_last : (id : String) (xs : List String) → mem_text id (xs ++ id ∷ []) ≡ true
unfolding mem_text
mem_text-append_last id [] = ground (arith, eq_iff id id)
mem_text-append_last id (x ∷ xs) = ground (arith, mem_text-append_last id xs)

retire-keeps :
    (m : SessionManager) (o : Option Session) (state : SessionState) (id : String)
    → mem_text id m.history ≡ true
    → mem_text id (retire_current m o state).history ≡ true
unfolding retire_current retire
retire-keeps m none state id h = h
retire-keeps m (some s) state id h = mem_text-append id m.history (s.session_id ∷ []) h

step-IsStale :
    (m : SessionManager) (o : Op) (id : String)
    → OpensOther id o
    → IsStale m id
    → IsStale (step m o) id
unfolding open_session degrade close_session sweep touch
step-IsStale m (opens new state caps now) id other h =
    (retire-keeps m m.current closed id h.0, other)
step-IsStale m degrades id other h = ground arith
step-IsStale m (closes state) id other h = (retire-keeps m m.current state id h.0, tt)
step-IsStale m (sweeps now) id other h = ground (arith, retire-keeps m m.current closed id)
step-IsStale m (touches now) id other h = ground arith

pub run-IsStale :
    (m : SessionManager) (os : List Op) (id : String)
    → All (OpensOther id) os
    → IsStale m id
    → IsStale (run m os) id
unfolding run
run-IsStale m [] id others h = h
run-IsStale m (o ∷ os) id others h =
    run-IsStale (step m o) os id others.1 (step-IsStale m o id others.0 h)

id_is_iff : (id : Option String) (given : String) → (id_is id given ≡ true) ↔ (id ≡ some given)
id_is_iff none given = ((λ h. cc), (λ h. cc))
id_is_iff (some got) given =
    ((λ h. ap some ((eq_iff got given).0 h)), (λ h. (eq_iff got given).1 (cc)))

matched :
    (o : Option Session) (e : ProtocolError) (id : Option String) (s : Session)
    → (live_or o e >>= matching id) ≡ ok s
    → (o ≡ some s) × (is_live s ≡ true) × (id ≡ some s.session_id)
unfolding matching
matched none e id s h = absurd (cc)
matched (some c) e id s h = elim (Bool-cases (is_live c)) [
  | inl live ↦ elim (Bool-cases (id_is id c.session_id)) [
    | inl same ↦
        let c_s : c ≡ s = ground (arith, live, same) in
        (
          ap some c_s,
          rw (← c_s) live,
          (id_is_iff id c.session_id).0 same ∙ ap (λ (x : Session). some x.session_id) c_s,
        )
    | inr differs ↦ absurd (ground (arith, live, differs))
  ]
  | inr dead ↦ absurd (ground (arith, dead))
]

-- What `require_matching` can come to, with the session that is current.
abbrev pub Accepts : SessionManager → Option String → Type 0
Accepts m id =
    (s : Session) × (m.current ≡ some s)
    × (is_live s ≡ true)
    × (id ≡ some s.session_id)
    × (require_matching m id ≡ ok s)

abbrev pub Refuses : SessionManager → Option String → Type 0
Refuses m id =
    (s : Session) × (m.current ≡ some s)
    × (is_live s ≡ true)
    × (id ≢ some s.session_id)
    × Raises (require_matching m id) e_session_stale

abbrev pub Lacks : SessionManager → Option String → Type 0
Lacks m id =
    ((s : Session) → m.current ≡ some s → is_live s ≡ false)
    × Raises (require_matching m id) e_not_ready

-- `require_matching` returns the current session if it is live and its id is the one given; it
-- raises E_SESSION_STALE if the session is live and the id is another; and it raises E_NOT_READY
-- if there is no session or it is not live.
pub require_matching_exact :
    (m : SessionManager) (id : Option String) → Accepts m id ⊎ Refuses m id ⊎ Lacks m id
unfolding require_matching require matching
require_matching_exact m id = elim (Option-cases m.current) [
  | inl none_open ↦ inr (inr ((λ s e. absurd (cc)), rw none_open refl))
  | inr (s, cur) ↦ elim (Bool-cases (is_live s)) [
    | inl live ↦ elim (Bool-cases (id_is id s.session_id)) [
      | inl same ↦ inl (s, cur, live, (id_is_iff id s.session_id).0 same, rw (cur, live, same) refl)
      | inr differs ↦ inr (
          inl (
            s,
            cur,
            live,
            (λ e. absurd (ground (arith, (id_is_iff id s.session_id).1 e))),
            rw (cur, live, differs) refl,
          ))
    ]
    | inr dead ↦ inr (inr ((λ s' e. ground (arith, cur)), rw (cur, dead) refl))
  ]
]

retired :
    (m : SessionManager) (old : Session)
    → m.current ≡ some old
    → mem_text old.session_id (retire_current m m.current closed).history ≡ true
unfolding retire_current retire
retired m old cur = rw cur (mem_text-append_last old.session_id m.history)

not_current :
    (o : Option Session) (id : String) (s : Session) → IsOther o id → o ≡ some s → s.session_id ≢ id
not_current none id s other e h = absurd (cc)
not_current (some c) id s other e h = other (ground (arith, h))

never :
    (m : SessionManager) (id : String)
    → IsOther m.current id
    → (s : Session) → require_matching m (some id) ≢ ok s
unfolding require_matching require
never m id other s e =
    let (is_cur, live, same) = matched m.current _ (some id) s e in
    not_current m.current id s other is_cur (cc)

-- Opening a session retires the one before it for good: after the new session is opened under
-- another id, and whatever calls follow, as long as none opens a session under the old id again, the
-- old id is in the history and is never accepted.
pub reopened_stays_stale :
    (m : SessionManager) (old : Session) (new : String) (state : SessionState) (caps : Fields)
    (now : ℕ) (os : List Op)
    → m.current ≡ some old
    → new ≢ old.session_id
    → All (OpensOther old.session_id) os
    → let m' = run (open_session m new state caps now) os in
      (mem_text old.session_id m'.history ≡ true)
      × ((s : Session) → require_matching m' (some old.session_id) ≢ ok s)
reopened_stays_stale m old new state caps now os cur other others =
    let stale =
      run-IsStale (open_session m new state caps now) os old.session_id others
        (unfold open_session in (retired m old cur, other)) in
    (stale.0, never (run (open_session m new state caps now) os) old.session_id stale.1)
