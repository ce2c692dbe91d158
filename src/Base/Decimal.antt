-- ===== src/Base/Decimal.antt =====
-- `std::to_string` of a number that is not negative, and that it tells numbers apart.
use ircord_client.Base.Tests.{◌==◌, if◌then◌else◌, Bool-cases}
use ircord_client.Base.Texts.{Text}
use Prim.Native.Nat.{ℕ, zero, suc, ◌+◌, ◌-◌, ◌*◌, ◌/◌, ◌%◌, ◌<◌}
use mathlib.Core.Path.{◌≡◌, sym, ap, ◌∙◌}
use mathlib.Core.Logic.{inl, inr}
use mathlib.Core.List.{[], ◌∷◌}
use native.Mathlib.Omega.{arith}

-- The digits of `n` in front of `digits`; `n + 1` rounds are enough.
unfoldable pub decimal_onto : ℕ → ℕ → Text → Text
decimal_onto zero n digits = digits
decimal_onto (suc fuel) n digits =
    let all = (48 + n % 10) ∷ digits in
    let more = decimal_onto fuel (n / 10) all in if n / 10 == 0 then all else more

unfoldable pub decimal : ℕ → Text
unfolding decimal_onto
decimal n = decimal_onto (suc n) n []

-- What a text of digits stands for, behind a number that was read before it.
abbrev value_from : ℕ → Text → ℕ
value_from v [] = v
value_from v (d ∷ ds) = value_from (v * 10 + (d - 48)) ds

value-decimal_onto :
    (fuel n : ℕ) (ds : Text) → n < fuel → value_from 0 (decimal_onto fuel n ds) ≡ value_from n ds
unfolding decimal_onto
value-decimal_onto zero n ds h = absurd (omega arith)
value-decimal_onto (suc fuel) n ds h = elim (Bool-cases (n / 10 == 0)) [
  | inl e ↦ let d : 0 + (48 + n % 10 - 48) ≡ n = ground arith in rw e (ap (λ v. value_from v ds) d)
  | inr e ↦
      let d : n / 10 * 10 + (48 + n % 10 - 48) ≡ n = omega arith in
      rw e (value-decimal_onto fuel (n / 10) ((48 + n % 10) ∷ ds) (ground arith) ∙ rw d)
]

-- Different numbers are printed differently.
pub decimal_inj : (a b : ℕ) → decimal a ≡ decimal b → a ≡ b
unfolding decimal
decimal_inj a b h =
    sym (value-decimal_onto (suc a) a [] (omega arith))
    ∙ ap (value_from 0) h
    ∙ value-decimal_onto (suc b) b [] (omega arith)
