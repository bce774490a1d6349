-- ===== src/Host/Adb/Verified.antt =====
-- What a verified forwarding has behind it.
use zygisk_frida_packet_tcp.Base.{
  ℕ, String, ◌≡◌, refl, inl, inr, Bool, true, false, Option, List, [], ◌∷◌, arith, keep, Bool-cases,
  pos, negsuc, zero, suc, mem_text, eq_iff,
}
use zygisk_frida_packet_tcp.Host.Adb.{
  TextTools, AdbResult, Process, ends, no_file, no_permission, times_out, os_error, is_nil,
  tcp_text, list_args, has_text, run_adb, forward_list_of, stripped_lines, hits_in, checked,
  forward_args, ensure_forward,
}

-- A member that a list is kept for.
keep-member :
    (p : String → Bool) (xs : List String)
    → is_nil (keep p xs) ≡ false
    → (x : String) × (p x ≡ true) × (mem_text x xs ≡ true)
unfolding keep mem_text
keep-member p [] h = absurd cc
keep-member p (x ∷ xs) h = elim (Bool-cases (p x)) [
  | inl kept ↦ (x, kept, ground (arith, (eq_iff x x).1 refl))
  | inr gone ↦
      let (y, holds, inside) = keep-member p xs (rw gone at h) in (y, holds, ground (arith, inside))
]

-- A run that counts as good ended with the code 0.
run_adb-ok :
    (tools : TextTools) (adb : String) (args : List String) (timeout : String) (p : Process)
    → (run_adb tools adb args timeout p).ok ≡ true
    → (out : String) × (err : String) × (p ≡ ends (pos 0) out err)
      × ((run_adb tools adb args timeout p).stdout ≡ out)
unfolding run_adb
run_adb-ok tools adb args timeout (ends (pos zero) out err) h = (out, err, refl, refl)
run_adb-ok tools adb args timeout (ends (pos (suc n)) out err) h = absurd (ground (arith, h))
run_adb-ok tools adb args timeout (ends (negsuc n) out err) h = absurd (ground (arith, h))
run_adb-ok tools adb args timeout no_file h = absurd cc
run_adb-ok tools adb args timeout no_permission h = absurd cc
run_adb-ok tools adb args timeout times_out h = absurd cc
run_adb-ok tools adb args timeout (os_error exc) h = absurd cc

module _ (tools : TextTools) (adb timeout : String) (exec : List String → Process) where
  checked-verified :
      (local device : ℕ) (serial : Option String) (res listed : AdbResult)
      → (checked tools adb timeout exec local device serial res listed).verified ≡ true
      → (res.ok ≡ true)
        × (listed.ok ≡ true)
        × (line : String) × (has_text (tools.lower (tcp_text local)) (tools.lower line) ≡ true)
        × (mem_text line (stripped_lines tools adb timeout exec (tools.split_lines listed.stdout))
            ≡ true)
  unfolding checked hits_in
  checked-verified local device serial res listed h = elim (Bool-cases res.ok) [
    | inl good ↦
        let both = rw good at h in
        let lines = stripped_lines tools adb timeout exec (tools.split_lines listed.stdout) in
        let hits = keep (λ l. has_text (tools.lower (tcp_text local)) (tools.lower l)) lines in
        let some_hit : is_nil hits ≡ false = ground (arith, both) in
        let (line, hit, inside) =
          keep-member (λ l. has_text (tools.lower (tcp_text local)) (tools.lower l)) lines
            some_hit in
        (good, ground (arith, both), line, hit, inside)
    | inr bad ↦ absurd (let no : false ≡ true = rw bad at h in ground (arith, no))
  ]

  -- A forwarding is reported as verified only if the command `adb forward` ended with the code 0, the
  -- command `adb forward --list` did so too, and one of the lines that it printed, stripped, contains
  -- the text `tcp:` and the local port, after both have been lowered. The line may go on with a
  -- digit: it need not be of that port, nor of the device's port.
  pub ensure_forward-verified :
      (local device : ℕ) (serial : Option String)
      → (ensure_forward tools adb timeout exec local device serial).verified ≡ true
      → (out : String) × (err : String) × (listed : String) × (err' : String) × (exec
            (adb ∷ forward_args tools adb timeout exec local device serial)
          ≡ ends (pos 0) out err)
        × (exec (adb ∷ list_args serial) ≡ ends (pos 0) listed err')
        × (line : String) × (has_text (tools.lower (tcp_text local)) (tools.lower line) ≡ true)
        × (mem_text line (stripped_lines tools adb timeout exec (tools.split_lines listed)) ≡ true)
  unfolding ensure_forward forward_list_of
  ensure_forward-verified local device serial h =
      let args = forward_args tools adb timeout exec local device serial in
      let res = run_adb tools adb args timeout (exec (adb ∷ args)) in
      let shown = run_adb tools adb (list_args serial) timeout (exec (adb ∷ list_args serial)) in
      let (good, list_good, line, hit, inside) = checked-verified local device serial res shown h in
      let (out, err, ran, same) = run_adb-ok tools adb args timeout (exec (adb ∷ args)) good in
      let (listed, err', ran', same') =
        run_adb-ok tools adb (list_args serial) timeout (exec (adb ∷ list_args serial)) list_good in
      (out, err, listed, err', ran, ran', line, hit, rw (← same') inside)
