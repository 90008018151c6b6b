-- ===== src/Prelude/Decimal.antt =====
-- `str(n)` of a natural number, and that different numbers are written differently.
use Prim.Native.Nat.{ℕ, zero, suc, ◌+◌, ◌-◌, ◌*◌, ◌/◌, ◌%◌, ◌<◌}
use mathlib.Core.Path.{◌≡◌, ap, sym, ◌∙◌}
use mathlib.Core.List.{[], ◌∷◌}
use native.Mathlib.Omega.{arith}
use mkc.Prelude.Tests.{ltb, if◌then◌else◌, Bool-cases}
use mathlib.Core.Logic.{inl, inr}
use mkc.Prelude.Text.{Text}

-- Digits in front of `acc`, on fuel; `n + 1` rounds are enough, since a round divides by ten.
unfoldable pub digits_onto : ℕ → ℕ → Text → Text
digits_onto zero n acc = acc
digits_onto (suc f) n acc =
    let d = b'0' + n % 10 in
    let rest = digits_onto f (n / 10) (d ∷ acc) in if ltb n 10 then d ∷ acc else rest

unfoldable pub decimal : ℕ → Text
unfolding digits_onto
decimal n = digits_onto (n + 1) n []

-- The number that digits stand for, behind those of `n`.
unfoldable pub value_onto : ℕ → Text → ℕ
value_onto n [] = n
value_onto n (d ∷ ds) = value_onto (n * 10 + (d - b'0')) ds

value_onto-digits_onto :
    (f n : ℕ) (acc : Text) → n < f → value_onto 0 (digits_onto f n acc) ≡ value_onto n acc
unfolding digits_onto value_onto
value_onto-digits_onto zero n acc h = absurd (omega arith)
value_onto-digits_onto (suc f) n acc h = elim (Bool-cases (ltb n 10)) [
  | inl e ↦
      let last : 0 * 10 + (b'0' + n % 10 - b'0') ≡ n = ground arith in
      rw e (ap (λ k. value_onto k acc) last)
  | inr e ↦
      let all : n / 10 * 10 + (b'0' + n % 10 - b'0') ≡ n = omega arith in
      rw e (
        value_onto-digits_onto f (n / 10) ((b'0' + n % 10) ∷ acc) (ground arith)
        ∙ ap (λ k. value_onto k acc) all)
]

-- the digits of a number stand for it
pub value-decimal : (n : ℕ) → value_onto 0 (decimal n) ≡ n
unfolding decimal value_onto
value-decimal n = value_onto-digits_onto (n + 1) n [] (omega arith)

pub decimal_injective : (m n : ℕ) → decimal m ≡ decimal n → m ≡ n
decimal_injective m n h = sym (value-decimal m) ∙ ap (value_onto 0) h ∙ value-decimal n
