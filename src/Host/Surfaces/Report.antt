-- ===== src/Host/Surfaces/Report.antt =====
-- The report: a partition of the candidates by their gaps.
use mathlib.Core.List.{Perm, perm_middle}
use mathlib.Core.List.Perm
use zygisk_frida_packet_tcp.Base.{
  ◌≤◌, String, ◌+◌, ◌≡◌, refl, ap, Bool, true, false, Option, none, some, List, [], ◌∷◌, ◌++◌, map,
  arith, All, Bool-cases, inl, inr, length, keep,
}
use zygisk_frida_packet_tcp.Tools.Spec.{
  ToolSpec, is_core, Capabilities, capability, capability_gaps, gaps_of,
}
use zygisk_frida_packet_tcp.Host.Surfaces.{
  RemovalNotice, SurfaceManager, candidates, filter_caps, gaps, is_nil, split, report, core_number,
  visible,
}

abbrev pub tool_names : List ToolSpec → List String
tool_names = map (λ s. s.name)

abbrev pub removed_names : List RemovalNotice → List String
removed_names = map (λ r. r.tool)

length-keep-le : (test : ToolSpec → Bool) (ss : List ToolSpec) → length (keep test ss) ≤ length ss
unfolding keep
length-keep-le test [] = omega arith
length-keep-le test (s ∷ ss) = ground (arith, length-keep-le test ss)

granted_of_gaps :
    (rs : List (String × String)) (caps : Capabilities)
    → gaps_of rs caps ≡ []
    → All (λ (r : String × String). capability caps r.0 r.1 ≡ true) rs
unfolding gaps_of
granted_of_gaps [] caps h = tt
granted_of_gaps ((g, k) ∷ rs) caps h = elim (Bool-cases (capability caps g k)) [
  | inl yes' ↦ (yes', granted_of_gaps rs caps (rw (yes', gaps_of) at h))
  | inr no' ↦ absurd (ground (arith, no'))
]

nil_of_is_nil : (xs : List String) → is_nil xs ≡ true → xs ≡ []
nil_of_is_nil [] h = refl
nil_of_is_nil (x ∷ xs) h = cc

module _ (capabilities : Option Capabilities) where
  abbrev Visible : List ToolSpec → Type 0
  Visible = All (λ s. gaps capabilities s ≡ [])

  abbrev Removed : List RemovalNotice → Type 0
  Removed = All (λ r. is_nil r.missing_capabilities ≡ false)

  abbrev Partition : List ToolSpec → List ToolSpec × List RemovalNotice → Type 0
  Partition ss p =
      Perm (tool_names p.0 ++ removed_names p.1) (tool_names ss) × Visible p.0 × Removed p.1

  split_lem : (ss : List ToolSpec) → Partition ss (split capabilities ss)
  unfolding split
  split_lem [] = (Perm.refl [], tt, tt)
  split_lem (s ∷ ss) =
      let (perm, shown, gone) = split_lem ss in
      elim (Bool-cases (is_nil (gaps capabilities s))) [
        | inl open' ↦
            rw open'
              (Perm.cons s.name perm, (nil_of_is_nil (gaps capabilities s) open', shown), gone)
        | inr closed ↦ rw closed (
          Perm.trans
              (perm_middle (tool_names (split capabilities ss).0)
                (removed_names (split capabilities ss).1))
              (Perm.cons s.name perm),
          shown,
          (closed, gone),
        )
      ]

-- The report splits the candidates, which are the core tools and those of the mounted groups: the
-- visible and the removed names together are the candidates' names, in some order; a visible tool
-- lacks no capability that is filtered by, a removed one is listed with at least one; and the two
-- counts add up to the visible tools.
pub report_partition :
    (sm : SurfaceManager) (capabilities : Option Capabilities)
    → let r = report sm capabilities in
      Perm (tool_names r.visible ++ removed_names r.removed) (tool_names (candidates sm))
      × All (λ (s : ToolSpec). gaps capabilities s ≡ []) r.visible
      × All (λ (n : RemovalNotice). is_nil n.missing_capabilities ≡ false) r.removed
      × (r.core_count + r.expert_count ≡ length r.visible)
unfolding report core_number
report_partition sm capabilities =
    let (perm, shown, gone) = split_lem capabilities (candidates sm) in
    (
      perm,
      shown,
      gone,
      omega (arith, length-keep-le (λ s. is_core s.surface) (split capabilities (candidates sm)).0),
    )

granted :
    (c : String × List (String × Bool)) (caps : Capabilities) (ss : List ToolSpec)
    → All (λ (s : ToolSpec). gaps (some (c ∷ caps)) s ≡ []) ss
    → All
        (λ (s : ToolSpec).
          All (λ (r : String × String). capability (c ∷ caps) r.0 r.1 ≡ true) s.requires)
        ss
unfolding gaps capability_gaps
granted c caps [] h = tt
granted c caps (s ∷ ss) h = (granted_of_gaps s.requires (c ∷ caps) h.0, granted c caps ss h.1)

-- With capabilities that are not empty, every tool in the visible set has all that it requires: each
-- of its pairs of a group and a name is declared true.
pub visible_granted :
    (sm : SurfaceManager) (c : String × List (String × Bool)) (caps : Capabilities)
    → All
        (λ (s : ToolSpec).
          All (λ (r : String × String). capability (c ∷ caps) r.0 r.1 ≡ true) s.requires)
        (visible sm (some (c ∷ caps)))
visible_granted sm c caps =
    granted c caps (visible sm (some (c ∷ caps))) (report_partition sm (some (c ∷ caps))).1

split_unfiltered :
    (capabilities : Option Capabilities) (ss : List ToolSpec)
    → filter_caps capabilities ≡ false
    → split capabilities ss ≡ (ss, [])
unfolding split gaps
split_unfiltered capabilities [] h = refl
split_unfiltered capabilities (s ∷ ss) h = rw h (
    ap (λ (p : List ToolSpec × List RemovalNotice). (s ∷ p.0, p.1))
      (split_unfiltered capabilities ss h))

-- Without capabilities, and with an empty dict of capabilities as well, nothing is filtered: every
-- candidate is visible and none is removed, whatever it requires.
pub report_unfiltered :
    (sm : SurfaceManager)
    → (report sm none ≡ report sm (some []))
      × (visible sm none ≡ candidates sm)
      × ((report sm none).removed ≡ [])
unfolding report
report_unfiltered sm =
    let a = split_unfiltered none (candidates sm) refl in
    let b = split_unfiltered (some []) (candidates sm) refl in
    (rw (a, b) refl, (λ i. (a i).0), (λ i. (a i).1))
