-- ===== src/Protocol/Commands/Table.antt =====
-- Facts about the register that hold of every command in it.
use zygisk_frida_packet_tcp.Base.{
  String, ◌≡◌, refl, sym, ap, ◌∙◌, subst, inl, inr, Bool, true, not, ◌&&◌, ◌||◌, some, List, [],
  ◌∷◌, arith, str_eq, eq_iff, mem_text, if◌then◌else◌, check_all, All, All-check_all, Bool-cases,
}
use zygisk_frida_packet_tcp.Protocol.Commands.{
  CommandSpec, all_specs, find_spec, find_command, is_fast, is_job, fast_commands, job_commands,
  write_guarded_commands,
}

-- What holds of all entries of a list holds of the one that a search finds.
find_spec-All :
    (P : CommandSpec → Type 0) (ss : List CommandSpec) (name : String) (s : CommandSpec)
    → All P ss
    → find_spec ss name ≡ some s
    → P s × (s.name ≡ name)
unfolding find_spec
find_spec-All P [] name s h e = absurd (cc)
find_spec-All P (x ∷ ss) name s h e = elim (Bool-cases (str_eq x.name name)) [
  | inl same ↦
      let x_s : x ≡ s = ground (arith, same, e) in
      (subst P x_s h.0, sym (ap (λ (c : CommandSpec). c.name) x_s) ∙ (eq_iff x.name name).0 same)
  | inr other ↦ find_spec-All P ss name s h.1 (ground (arith, other, e))
]

agree : Bool → Bool → Bool
agree a b = if a then b else not b

-- The entry's place in the lists, and the marks that must go together.
flags_agree : Bool → Bool → Bool → Bool → Bool → Bool → Bool → Bool
unfolding agree
flags_agree in_fast fast? in_job job? guarded destructive writes =
    agree in_fast fast?
    && agree in_job job?
    && (not guarded || writes)
    && (not destructive || writes)

flags_sound :
    (f f' j j' g d w : Bool)
    → flags_agree f f' j j' g d w ≡ true
    → (f ≡ f') × (j ≡ j') × (not g || w ≡ true) × (not d || w ≡ true)
unfolding flags_agree
flags_sound f f' j j' g d w h = ground arith

consistent : CommandSpec → Bool
consistent s =
    flags_agree (mem_text s.name fast_commands) (is_fast s.cls) (mem_text s.name job_commands)
      (is_job s.cls) (mem_text s.name write_guarded_commands) s.destructive s.writes

table : check_all consistent all_specs ≡ true
unfolding check_all consistent flags_agree mem_text fast_commands job_commands all_specs
table = refl

abbrev pub Consistent : CommandSpec → String → Type 0
Consistent s name =
    (mem_text name fast_commands ≡ is_fast s.cls)
    × (mem_text name job_commands ≡ is_job s.cls)
    × (not (mem_text name write_guarded_commands) || s.writes ≡ true)
    × (not s.destructive || s.writes ≡ true)

consistent_sound : (s : CommandSpec) → consistent s ≡ true → Consistent s s.name
unfolding consistent
consistent_sound s h =
    flags_sound (mem_text s.name fast_commands) (is_fast s.cls) (mem_text s.name job_commands)
      (is_job s.cls) (mem_text s.name write_guarded_commands) s.destructive s.writes h

-- A command that the register has stands in exactly one of the lists FAST_COMMANDS and JOB_COMMANDS,
-- the one of its class; if it is one of the write-guarded commands, or destructive, then it is
-- marked as writing.
pub find_command-Consistent :
    (name : String) (s : CommandSpec)
    → find_command name ≡ some s
    → (s.name ≡ name) × Consistent s name
unfolding find_command
find_command-Consistent name s e =
    let (ok, same) =
      find_spec-All (λ x. consistent x ≡ true) all_specs name s
        (All-check_all consistent all_specs table) e in
    (same, subst (Consistent s) same (consistent_sound s ok))
