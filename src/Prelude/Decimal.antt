-- ===== src/Prelude/Decimal.antt =====
-- `String(n)` and `${n}` of a whole number, in decimal.
use Prim.Native.Char.{Char, code}
use Prim.Native.Nat.{ℕ, zero, suc, ◌+◌, ◌-◌, ◌*◌, ◌/◌, ◌%◌, ◌<◌}
use Prim.Native.String.{String}
use mathlib.Core.Path.{◌≡◌, refl, ap, sym, ◌∙◌}
use mathlib.Core.Logic.{inl, inr}
use native.Mathlib.Omega.{arith}
use nestjs_microservice_mono.Prelude.Tests.{ltb, ltb→lt, Bool-cases, if◌then◌else◌}

abbrev digit : ℕ → Char
digit zero = "0"
digit (suc zero) = "1"
digit (suc (suc zero)) = "2"
digit (suc (suc (suc zero))) = "3"
digit (suc (suc (suc (suc zero)))) = "4"
digit (suc (suc (suc (suc (suc zero))))) = "5"
digit (suc (suc (suc (suc (suc (suc zero)))))) = "6"
digit (suc (suc (suc (suc (suc (suc (suc zero))))))) = "7"
digit (suc (suc (suc (suc (suc (suc (suc (suc zero)))))))) = "8"
digit _ = "9"

-- The digits of `n` in front of a text. The fuel is a bound on their number.
decimal_onto : ℕ → ℕ → String → String
decimal_onto zero n s = s
decimal_onto (suc fuel) n s =
    let shorter = decimal_onto fuel (n / 10) (String.◌∷◌ (digit (n % 10)) s) in
    if ltb n 10 then String.◌∷◌ (digit n) s else shorter

unfoldable pub decimal : ℕ → String
unfolding decimal_onto
decimal n = decimal_onto (suc n) n ""

-- The number that a run of digits continues.
value_from : ℕ → String → ℕ
value_from v String.[] = v
value_from v (String.◌∷◌ c s) = value_from (10 * v + (code c - 48)) s

code-digit : (n : ℕ) → n < 10 → code (digit n) - 48 ≡ n
code-digit zero h = refl
code-digit (suc zero) h = refl
code-digit (suc (suc zero)) h = refl
code-digit (suc (suc (suc zero))) h = refl
code-digit (suc (suc (suc (suc zero)))) h = refl
code-digit (suc (suc (suc (suc (suc zero))))) h = refl
code-digit (suc (suc (suc (suc (suc (suc zero)))))) h = refl
code-digit (suc (suc (suc (suc (suc (suc (suc zero))))))) h = refl
code-digit (suc (suc (suc (suc (suc (suc (suc (suc zero)))))))) h = refl
code-digit (suc (suc (suc (suc (suc (suc (suc (suc (suc zero))))))))) h = refl
code-digit (suc (suc (suc (suc (suc (suc (suc (suc (suc (suc n)))))))))) h = omega arith

only_digit : (n : ℕ) → n < 10 → 0 + (code (digit n) - 48) ≡ n
only_digit n h = rw (code-digit n h) (omega arith)

quotient_and_remainder : (n : ℕ) → 10 * (n / 10) + (code (digit (n % 10)) - 48) ≡ n
quotient_and_remainder n = rw (code-digit (n % 10) (omega arith)) omega arith

value_from-decimal_onto :
    (fuel n : ℕ) (s : String) → n < fuel → value_from 0 (decimal_onto fuel n s) ≡ value_from n s
unfolding decimal_onto value_from
value_from-decimal_onto zero n s h = omega arith
value_from-decimal_onto (suc fuel) n s h =
    let shorter = value_from-decimal_onto fuel (n / 10) (String.◌∷◌ (digit (n % 10)) s) in
    elim (Bool-cases (ltb n 10)) [
      | inl small ↦ rw small (ap (λ v. value_from v s) (only_digit n (ltb→lt n 10 small)))
      | inr large ↦
          rw large (shorter (ground arith) ∙ ap (λ v. value_from v s) (quotient_and_remainder n))
    ]

-- Two numbers with one decimal text are the same.
pub decimal_injective : (m n : ℕ) → decimal m ≡ decimal n → m ≡ n
unfolding decimal value_from
decimal_injective m n e =
    sym (value_from-decimal_onto (suc m) m "" (omega arith))
    ∙ ap (value_from 0) e
    ∙ value_from-decimal_onto (suc n) n "" (omega arith)

decimal_test : decimal 503 ≡ "503"
unfolding decimal
decimal_test = refl
