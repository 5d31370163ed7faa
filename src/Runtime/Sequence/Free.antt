-- ===== src/Runtime/Sequence/Free.antt =====
-- The loop of `_next_seq` of src/baresip/runtime.py and the numbers in use.
use baresip_python.Base.{
  ℕ, zero, suc, ◌+◌, ◌-◌, ◌≤◌, ◌<◌, ◌≡◌, refl, ◌≢◌, List, [], ◌∷◌, ltb, if◌then◌else◌, contains,
  without, IsDistinct, length, true, false, arith, All, Bool-cases, inl, inr, subst, ◌%◌, ◌==◌,
}
use baresip_python.Runtime.Sequence.{seq_mod, advance, skip, next_seq}

advance_range : (s : ℕ) → (1 ≤ advance s) × (advance s < seq_mod)
unfolding advance
advance_range s = ground arith

skip_range :
    (fuel s : ℕ) (used : List ℕ)
    → 1 ≤ s
    → s < seq_mod
    → (1 ≤ skip fuel s used) × (skip fuel s used < seq_mod)
unfolding skip
skip_range zero s used low high = (low, high)
skip_range (suc fuel) s used low high = ground (
  arith,
  advance_range s,
  skip_range fuel (advance s) used (advance_range s).0 (advance_range s).1,
)

-- The `k`-th number after `s`, round the wheel of `seq_mod - 1` numbers that leaves out 0.
abbrev wheel : ℕ → ℕ → ℕ
wheel s k = if ltb (s + k) seq_mod then s + k else s + k - (seq_mod - 1)

advance-wheel :
    (s k : ℕ) → 1 ≤ s → s < seq_mod → k + 1 < seq_mod → advance (wheel s k) ≡ wheel s (suc k)
unfolding advance
advance-wheel s k low high h = ground arith

wheel_inj : (s i j : ℕ) → 1 ≤ s → s < seq_mod → i < j → j < seq_mod - 1 → wheel s i ≢ wheel s j
wheel_inj s i j low high lt bound e = ground arith

abbrev turns : ℕ → ℕ → ℕ → List ℕ
turns s k zero = []
turns s k (suc n) = wheel s k ∷ turns s (suc k) n

fresh-turns :
    (s i k n : ℕ)
    → 1 ≤ s
    → s < seq_mod
    → i < k
    → k + n ≤ seq_mod - 1
    → contains (wheel s i) (turns s k n) ≡ false
fresh-turns s i k zero low high lt bound = refl
fresh-turns s i k (suc n) low high lt bound = ground (
  arith,
  wheel_inj s i k low high lt (omega arith),
  fresh-turns s i (suc k) n low high (omega arith) (omega arith),
)

turns-IsDistinct :
    (s k n : ℕ) → 1 ≤ s → s < seq_mod → k + n ≤ seq_mod - 1 → IsDistinct (turns s k n)
turns-IsDistinct s k zero low high bound = tt
turns-IsDistinct s k (suc n) low high bound = (
  fresh-turns s k (suc k) n low high (omega arith) (omega arith),
  turns-IsDistinct s (suc k) n low high (omega arith),
)

abbrev Within : List ℕ → ℕ → Type 0
Within used x = contains x used ≡ true

length-without :
    (x : ℕ) (xs : List ℕ) → contains x xs ≡ true → length xs ≡ suc (length (without x xs))
length-without x [] h = ground arith
length-without x (y ∷ ys) h = ground (arith, length-without x ys)

Within-without : (x y : ℕ) (used : List ℕ) → x ≢ y → Within used y → Within (without x used) y
Within-without x y [] ne h = ground arith
Within-without x y (z ∷ used) ne h = ground (arith, Within-without x y used ne)

All-without :
    (x : ℕ) (xs used : List ℕ)
    → contains x xs ≡ false
    → All (Within used) xs
    → All (Within (without x used)) xs
All-without x [] used h a = tt
All-without x (y ∷ ys) used h a =
    (Within-without x y used (λ e. ground arith) a.0, All-without x ys used (ground arith) a.1)

pigeonhole : (xs used : List ℕ) → IsDistinct xs → All (Within used) xs → length xs ≤ length used
pigeonhole [] used d a = omega arith
pigeonhole (x ∷ xs) used d a = omega (
  arith,
  length-without x used a.0,
  pigeonhole xs (without x used) d.1 (All-without x xs used d.0 a.1),
)

length-turns : (s k n : ℕ) → length (turns s k n) ≡ n
length-turns s k zero = refl
length-turns s k (suc n) = omega (arith, length-turns s (suc k) n)

-- A loop that ends at a number in use met only numbers in use.
skip_stuck :
    (fuel s k : ℕ) (used : List ℕ)
    → 1 ≤ s
    → s < seq_mod
    → k + fuel < seq_mod - 1
    → Within used (skip fuel (wheel s k) used)
    → All (Within used) (turns s k (suc fuel))
unfolding skip
skip_stuck zero s k used low high bound h = (h, tt)
skip_stuck (suc fuel) s k used low high bound h = elim (Bool-cases (contains (wheel s k) used)) [
  | inl busy ↦ (
    busy,
    skip_stuck fuel s (suc k) used low high (omega arith)
        (rw (advance-wheel s k low high (omega arith)) at (rw (busy, skip) at h)),
  )
  | inr free ↦ absurd (ground arith)
]

skip-free :
    (s : ℕ) (used : List ℕ)
    → 1 ≤ s
    → s < seq_mod
    → length used < seq_mod - 1
    → contains (skip (length used) s used) used ≡ false
skip-free s used low high room = elim (Bool-cases (contains (skip (length used) s used) used)) [
  | inr free ↦ free
  | inl busy ↦ absurd (
      omega (
        arith,
        length-turns s 0 (suc (length used)),
        pigeonhole (turns s 0 (suc (length used))) used
            (turns-IsDistinct s 0 (suc (length used)) low high (omega arith))
            (skip_stuck (length used) s 0 used low high (omega arith) (ground arith)),
      ))
]

-- With a number left over, the next sequence number fits 32 bits, is not 0 and is not in use.
pub next_seq-free :
    (seq : ℕ) (used : List ℕ)
    → length used < seq_mod - 1
    → (1 ≤ next_seq seq used)
      × (next_seq seq used < seq_mod)
      × (contains (next_seq seq used) used ≡ false)
unfolding next_seq
next_seq-free seq used room =
    let (low, high) = advance_range seq in
    let range = skip_range (length used) (advance seq) used low high in
    (range.0, range.1, skip-free (advance seq) used low high room)

-- The `k`-th number after `seq` when counting 1, 2, …, 2 ^ 32 - 1 in a circle.
abbrev pub nth_after : ℕ → ℕ → ℕ
nth_after seq zero = seq
nth_after seq (suc k) = (seq + k) % (seq_mod - 1) + 1

advance-nth_after : (seq k : ℕ) → seq < seq_mod → advance (nth_after seq k) ≡ nth_after seq (suc k)
unfolding advance
advance-nth_after seq zero h = ground arith
advance-nth_after seq (suc k) h = ground arith

abbrev pub FirstUnused : List ℕ → ℕ → ℕ → Type 0
FirstUnused used seq x =
    (k : ℕ) × (x ≡ nth_after seq (suc k))
    × (contains x used ≡ false)
    × ((j : ℕ) → j < k → contains (nth_after seq (suc j)) used ≡ true)

skip_first :
    (fuel seq k : ℕ) (used : List ℕ)
    → seq < seq_mod
    → contains (skip fuel (nth_after seq (suc k)) used) used ≡ false
    → ((j : ℕ) → j < k → contains (nth_after seq (suc j)) used ≡ true)
    → FirstUnused used seq (skip fuel (nth_after seq (suc k)) used)
unfolding skip
skip_first zero seq k used low free busy = (k, refl, free, busy)
skip_first (suc fuel) seq k used low free busy =
    elim (Bool-cases (contains (nth_after seq (suc k)) used)) [
      | inr unused ↦ rw (unused, skip) (k, refl, unused, busy)
      | inl taken ↦
          rw (taken, skip, advance-nth_after seq (suc k) low)
            (skip_first fuel seq (suc k) used low
              (rw (taken, skip, advance-nth_after seq (suc k) low) at free)
              (λ j lt. elim (Bool-cases (j == k)) [
                | inl same ↦
                    subst (λ (i : ℕ). contains (nth_after seq (suc i)) used ≡ true) {x = k}
                      (ground arith) taken
                | inr other ↦ busy j (ground arith)
              ]))
    ]

-- With a number left over, the next sequence number is the first one after the last, counted in a
-- circle of 2 ^ 32 - 1 numbers without 0, that is not in use: all in between are in use.
pub next_seq-FirstUnused :
    (seq : ℕ) (used : List ℕ)
    → seq < seq_mod
    → length used < seq_mod - 1
    → FirstUnused used seq (next_seq seq used)
unfolding next_seq
next_seq-FirstUnused seq used low room =
    let (positive, high) = advance_range seq in
    rw (advance-nth_after seq 0 low) (
      skip_first (length used) seq 0 used low
        (rw (advance-nth_after seq 0 low) at (skip-free (advance seq) used positive high room))
        (λ j lt. absurd (omega arith)))
