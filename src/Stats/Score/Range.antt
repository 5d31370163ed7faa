-- ===== src/Stats/Score/Range.antt =====
-- The range of `mos_estimate` of src/baresip/stats.py.
use baresip_python.Base.{ℕ, zero, suc, ◌≡◌, refl, true, false, Bool-cases, inl, inr}
use baresip_python.Events.{ℤ, pos, negsuc}
use baresip_python.Stats.{CallStats}
use baresip_python.Stats.Score.{Floats, at_least_one, max, min, rating, mos_of, mos_estimate}

-- What the code relies on of floating-point comparison: two values are never each below the other,
-- and the order of two literals.
pub record IsOrdered {F : Type 0} (floats : Floats F) : Type 0 where
  pub asymmetric : (x y : F) → floats.less x y ≡ true → floats.less y x ≡ false
  pub one_below_five : floats.less (floats.literal 10 1) (floats.literal 50 1) ≡ true

module _ {F : Type 0} (floats : Floats F) (ordered : IsOrdered floats) where
  irreflexive : (x : F) → floats.less x x ≡ false
  irreflexive x = elim (Bool-cases (floats.less x x)) [
    | inl below ↦ ordered.asymmetric x x below
    | inr fine ↦ fine
  ]

  not_below_max : (low y : F) → floats.less (max floats low y) low ≡ false
  not_below_max low y = elim (Bool-cases (floats.less low y)) [
    | inl below ↦ rw below (ordered.asymmetric low y below)
    | inr above ↦ rw above (irreflexive low)
  ]

  not_above_min : (high y : F) → floats.less high (min floats high y) ≡ false
  not_above_min high y = elim (Bool-cases (floats.less y high)) [
    | inl below ↦ rw below (ordered.asymmetric y high below)
    | inr above ↦ rw above (irreflexive high)
  ]

  not_above_max :
      (low high y : F)
      → floats.less low high ≡ true
      → floats.less high y ≡ false
      → floats.less high (max floats low y) ≡ false
  not_above_max low high y apart fine = elim (Bool-cases (floats.less low y)) [
    | inl below ↦ rw below fine
    | inr above ↦ rw above (ordered.asymmetric low high apart)
  ]

  -- The estimate is neither below 1.0 nor above 5.0, whatever the counters are and whatever
  -- floating-point arithmetic makes of them, a NaN included.
  pub mos_estimate_range :
      (s : CallStats)
      → (floats.less (mos_estimate floats s) (floats.literal 10 1) ≡ false)
        × (floats.less (floats.literal 50 1) (mos_estimate floats s) ≡ false)
  unfolding mos_estimate
  mos_estimate_range s =
      let score = floats.round_two (mos_of floats (rating floats s)) in
      (
        not_below_max (floats.literal 10 1) (min floats (floats.literal 50 1) score),
        not_above_max (floats.literal 10 1) (floats.literal 50 1)
            (min floats (floats.literal 50 1) score) ordered.one_below_five
            (not_above_min (floats.literal 50 1) score),
      )

-- The divisor of the loss is not zero.
pub at_least_one_positive : (n : ℤ) → (k : ℕ) × (at_least_one n ≡ pos (suc k))
unfolding at_least_one
at_least_one_positive (pos zero) = (0, refl)
at_least_one_positive (pos (suc n)) = (n, refl)
at_least_one_positive (negsuc n) = (0, refl)
