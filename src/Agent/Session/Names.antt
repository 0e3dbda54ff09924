-- ===== src/Agent/Session/Names.antt =====
-- The ids of tasks that are scheduled without one, `task-` and a number in decimal.
use Prim.Native.Nat.{◌/◌, ◌%◌}
use Prim.Native.Char.{code}
use Prim.Native.String
use Prim.Native.String.{[], ◌∷◌}
use text.Mathlib.TextLemmas.{cons-append, nil-append, append_cancel_left}
use channel_plugin.Prelude.{
  ℕ, zero, suc, ◌+◌, ◌-◌, ◌*◌, ◌<◌, String, arith, ◌≡◌, ◌≢◌, refl, sym, ap, ◌∙◌, ltb, Bool-cases,
  inl, inr,
}
use channel_plugin.Agent.Session.Defs.{digit, decimal_from, decimal, task_name}

-- the number that decimal digits denote, behind a number that was read
abbrev pub read_decimal : ℕ → String → ℕ
read_decimal n [] = n
read_decimal n (c ∷ s) = read_decimal (n * 10 + (code c - 48)) s

read_decimal-append :
    (n : ℕ) (s t : String)
    → read_decimal n (Prim.Native.String.◌++◌ s t) ≡ read_decimal (read_decimal n s) t
read_decimal-append n [] t = rw (nil-append t) refl
read_decimal-append n (c ∷ s) t =
    rw (cons-append c s t) (read_decimal-append (n * 10 + (code c - 48)) s t)

read_decimal-digit : (n d : ℕ) → d < 10 → read_decimal n (digit d) ≡ n * 10 + d
unfolding digit
read_decimal-digit n zero h = omega arith
read_decimal-digit n (suc zero) h = omega arith
read_decimal-digit n (suc (suc zero)) h = omega arith
read_decimal-digit n (suc (suc (suc zero))) h = omega arith
read_decimal-digit n (suc (suc (suc (suc zero)))) h = omega arith
read_decimal-digit n (suc (suc (suc (suc (suc zero))))) h = omega arith
read_decimal-digit n (suc (suc (suc (suc (suc (suc zero)))))) h = omega arith
read_decimal-digit n (suc (suc (suc (suc (suc (suc (suc zero))))))) h = omega arith
read_decimal-digit n (suc (suc (suc (suc (suc (suc (suc (suc zero)))))))) h = omega arith
read_decimal-digit n (suc (suc (suc (suc (suc (suc (suc (suc (suc zero))))))))) h = omega arith
read_decimal-digit n (suc (suc (suc (suc (suc (suc (suc (suc (suc (suc d)))))))))) h = omega arith

-- Fuel above the number is enough for all of its digits: they denote the number again.
pub decimal_from_lem : (fuel n : ℕ) → n < fuel → read_decimal 0 (decimal_from fuel n) ≡ n
unfolding decimal_from
decimal_from_lem zero n h = omega arith
decimal_from_lem (suc fuel) n h = elim (Bool-cases (ltb n 10)) [
  | inl t ↦ rw (t) (omega (arith, read_decimal-digit 0 n (ground (arith, t))))
  | inr f ↦
      let tail = read_decimal-digit (n / 10) (n % 10) (omega arith) in
      let front = decimal_from_lem fuel (n / 10) (ground (arith, f)) in
      rw (f, read_decimal-append 0 (decimal_from fuel (n / 10)) (digit (n % 10)), front, tail)
        (omega arith)
]

read-task_name :
    (n : ℕ) (digits : String)
    → task_name n ≡ Prim.Native.String.◌++◌ "task-" digits
    → read_decimal 0 digits ≡ n
unfolding task_name decimal
read-task_name n digits e =
    let same = append_cancel_left "task-" (decimal n) digits e in
    ap (read_decimal 0) (sym same) ∙ decimal_from_lem (suc n) n (omega arith)

-- Two tasks with different numbers have different ids.
pub task_names_differ : (m n : ℕ) → m ≢ n → task_name m ≢ task_name n
unfolding task_name decimal
task_names_differ m n h e =
    h (sym (read-task_name m (decimal n) e) ∙ decimal_from_lem (suc n) n (omega arith))
