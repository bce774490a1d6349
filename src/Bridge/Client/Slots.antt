-- ===== src/Bridge/Client/Slots.antt =====
-- The slots that wait, as a dict from their ids.
use zygisk_frida_packet_tcp.Base.{
  String, ◌≡◌, refl, inl, inr, Bool, true, false, not, ◌&&◌, List, [], ◌∷◌, arith, str_eq, eq_iff,
  Bool-cases,
}
use zygisk_frida_packet_tcp.Bridge.Client.{Slot, has_slot, without_slot}

-- No two slots have one id, as in a dict.
unfoldable pub distinct : List Slot → Bool
distinct [] = true
distinct (s ∷ ss) = not (has_slot ss s.request_id) && distinct ss

without_slot-lacks :
    (ss : List Slot) (id x : String)
    → has_slot ss x ≡ false
    → has_slot (without_slot ss id) x ≡ false
unfolding has_slot without_slot
without_slot-lacks [] id x h = refl
without_slot-lacks (s ∷ ss) id x h = elim (Bool-cases (str_eq s.request_id id)) [
  | inl same ↦ rw same (ground (arith, h))
  | inr other ↦ rw other (ground (arith, h, without_slot-lacks ss id x))
]

pub without_slot-gone :
    (ss : List Slot) (id : String) → distinct ss ≡ true → has_slot (without_slot ss id) id ≡ false
unfolding has_slot without_slot distinct
without_slot-gone [] id h = refl
without_slot-gone (s ∷ ss) id h = elim (Bool-cases (str_eq s.request_id id)) [
  | inl same ↦ rw (same, ← (eq_iff s.request_id id).0 same) (ground (arith, h))
  | inr other ↦ rw (other, other) (without_slot-gone ss id (ground (arith, h)))
]

pub without_slot-distinct :
    (ss : List Slot) (id : String) → distinct ss ≡ true → distinct (without_slot ss id) ≡ true
unfolding without_slot distinct
without_slot-distinct [] id h = refl
without_slot-distinct (s ∷ ss) id h = elim (Bool-cases (str_eq s.request_id id)) [
  | inl same ↦ rw same (ground (arith, h))
  | inr other ↦
      rw other
        (ground (arith, h, without_slot-lacks ss id s.request_id, without_slot-distinct ss id))
]
