-- ===== src/VariableByte/Bytes.antt =====
-- The top bit of a byte; the table is checked by evaluation.
use Prim.Native.Nat.{bit_or}
use mathlib.Core.Logic.{ite}
use native.Mathlib.Decide.{ℕ_discrete}
use anytime_daat.Prelude.{ℕ, zero, suc, ◌+◌, ◌<◌, ◌≡◌, refl, Bool, true, false, arith}

module _ (f g : ℕ → ℕ) where
  agree_below : ℕ → Bool
  unfolding ℕ_discrete
  agree_below zero = true
  agree_below (suc n) = ite (ℕ_discrete (f n) (g n)) (agree_below n) false

  agree_below→eq : (n : ℕ) → agree_below n ≡ true → (i : ℕ) → i < n → f i ≡ g i
  unfolding agree_below
  agree_below→eq zero e i h = absurd (omega arith)
  agree_below→eq (suc n) e i h = ground (arith, agree_below→eq n (ground arith) i)

pub set_top_bit : (b : ℕ) → b < 128 → bit_or b 128 ≡ b + 128
unfolding agree_below
set_top_bit = agree_below→eq _ _ 128 refl
