-- ===== src/Stats/Score.antt =====
-- `CallStats.mos_estimate` of src/baresip/stats.py. Python's floating-point numbers are a parameter:
-- a type with the operations, comparison and conversions that the code uses.
pub mod Range
use baresip_python.Base.{ℕ, zero, suc, ◌+◌, ◌-◌, Bool, true, false, ltb, if◌then◌else◌}
use baresip_python.Events.{ℤ, pos, negsuc}
use baresip_python.Stats.{Thousandths, CallStats}

-- `literal m d` is the literal `m` with its last `d` digits behind the point.
pub record Floats (F : Type 0) : Type 0 where
  pub literal : ℕ → ℕ → F
  pub of_int : ℤ → F
  pub of_thousandths : Thousandths → F
  pub add : F → F → F
  pub sub : F → F → F
  pub mul : F → F → F
  pub div : F → F → F
  pub less : F → F → Bool
  pub round_two : F → F

-- Addition of integers.
abbrev pub minus : ℕ → ℕ → ℤ
minus m n = if ltb m n then negsuc (n - m - 1) else pos (m - n)

infixl 60 ◌+ℤ◌
unfoldable pub ◌+ℤ◌ : ℤ → ℤ → ℤ
(pos m) +ℤ (pos n) = pos (m + n)
(pos m) +ℤ (negsuc n) = minus m (suc n)
(negsuc m) +ℤ (pos n) = minus n (suc m)
(negsuc m) +ℤ (negsuc n) = negsuc (suc (m + n))

-- `max(1, n)`
unfoldable pub at_least_one : ℤ → ℤ
at_least_one (pos zero) = pos 1
at_least_one (pos (suc n)) = pos (suc n)
at_least_one (negsuc n) = pos 1

module _ {F : Type 0} (floats : Floats F) where
  -- Python's `max` and `min` keep the first of two values unless the second is beyond it.
  abbrev pub max : F → F → F
  max x y = if floats.less x y then y else x

  abbrev pub min : F → F → F
  min x y = if floats.less y x then y else x

  unfoldable pub loss_pct : CallStats → F
  unfolding at_least_one ◌+ℤ◌
  loss_pct s =
      floats.div (floats.mul (floats.literal 1000 1) (floats.of_int s.rx_lost))
        (floats.of_int (at_least_one (s.rx_packets +ℤ s.rx_lost)))

  unfoldable pub effective : CallStats → F
  effective s =
      floats.add
        (floats.add (floats.div (floats.of_thousandths s.rtt_ms) (floats.literal 2 0))
          (floats.mul (floats.literal 2 0) (floats.of_thousandths s.rx_jitter_ms)))
        (floats.literal 100 1)

  unfoldable pub delay_impairment : F → F
  delay_impairment e =
      if floats.less e (floats.literal 160 0)
      then floats.div e (floats.literal 40 0)
      else floats.div (floats.sub e (floats.literal 120 0)) (floats.literal 10 0)

  -- The E-model's `r`, clamped.
  unfoldable pub rating : CallStats → F
  unfolding loss_pct effective delay_impairment
  rating s = max (floats.literal 0 1) (
      min (floats.literal 1000 1) (
        floats.sub (floats.sub (floats.literal 932 1) (delay_impairment (effective s)))
          (floats.mul (floats.literal 25 1) (loss_pct s))))

  -- `1 + 0.035 * r + 7e-6 * r * (r - 60) * (100 - r)`
  unfoldable pub mos_of : F → F
  mos_of r = floats.add (floats.add (floats.literal 1 0) (floats.mul (floats.literal 35 3) r)) (
      floats.mul
        (floats.mul (floats.mul (floats.literal 7 6) r) (floats.sub r (floats.literal 60 0)))
        (floats.sub (floats.literal 100 0) r))

  -- `mos_estimate`
  unfoldable pub mos_estimate : CallStats → F
  unfolding rating mos_of
  mos_estimate s =
      max (floats.literal 10 1) (min (floats.literal 50 1) (floats.round_two (mos_of (rating s))))
