-- ===== src/Bridge/Connect/Backoff.antt =====
-- How long the loop waits.
use zygisk_frida_packet_tcp.Base.{ℕ, zero, suc, ◌*◌, ◌^◌, ◌≤◌, ◌≡◌, refl, sym, arith, min}
use native.Mathlib.Numerals.{unary_clauses}
use zygisk_frida_packet_tcp.Bridge.Connect.{delay}

pow_positive : (n : ℕ) → 1 ≤ 2 ^ n
pow_positive zero = ground arith
pow_positive (suc n) = simp unary_clauses (omega (arith, pow_positive n))

-- Before each attempt the loop waits twice as long as before the last one, from one second on, and
-- never longer than thirty seconds: two to the power of the failed attempts, or thirty if less.
pub delay_doubles : (attempt : ℕ) → delay attempt ≡ min (2 ^ attempt) 30
unfolding delay
delay_doubles zero = refl
delay_doubles (suc zero) = refl
delay_doubles (suc (suc zero)) = refl
delay_doubles (suc (suc (suc zero))) = refl
delay_doubles (suc (suc (suc (suc zero)))) = refl
delay_doubles (suc (suc (suc (suc (suc n))))) =
    let last : min (suc (suc (suc (suc (suc n))))) 5 ≡ 5 = omega arith in
    let late : min (2 ^ n * 2 * 2 * 2 * 2 * 2) 30 ≡ 30 = omega (arith, pow_positive n) in
    simp unary_clauses (rw last (sym late))
