-- ===== src/Base/Decimal.antt =====
-- Decimal text of a number, and what reads it back.
use Prim.Native.Nat.{ℕ, zero, suc, ◌+◌, ◌-◌, ◌*◌, ◌/◌, ◌%◌, ◌<◌}
use mathlib.Core.Path.{◌≡◌, refl}
use mathlib.Core.Bool.{Bool, true}
use mathlib.Core.List.{[], ◌∷◌, ◌++◌}
use native.Mathlib.Omega.{arith}
use baresip_python.Base.Tests.{ltb, if◌then◌else◌, Bool-cases}
use baresip_python.Base.Lists.{all, all-append}
use baresip_python.Base.Texts.{Text, int_of}
use mathlib.Core.Logic.{inl, inr}

unfoldable pub digits : ℕ → ℕ → Text
digits zero n = []
digits (suc fuel) n =
    let front = digits fuel (n / 10) in
    if ltb n 10 then (b'0' + n) ∷ [] else front ++ (b'0' + n % 10) ∷ []

-- `str(n)`: as many rounds as the number itself are enough.
unfoldable pub decimal : ℕ → Text
unfolding digits
decimal n = digits (suc n) n

digits-all :
    (p : ℕ → Bool)
    → ((d : ℕ) → d < 10 → p (b'0' + d) ≡ true)
    → (fuel n : ℕ) → all p (digits fuel n) ≡ true
unfolding digits
digits-all p h zero n = refl
digits-all p h (suc fuel) n = ground (
  arith,
  all-append p (digits fuel (n / 10)) ((b'0' + n % 10) ∷ []),
  digits-all p h fuel (n / 10),
  h n,
  h (n % 10),
)

-- Every character of a decimal text passes a test that the ten digits pass.
pub decimal-all :
    (p : ℕ → Bool) → ((d : ℕ) → d < 10 → p (b'0' + d) ≡ true) → (n : ℕ) → all p (decimal n) ≡ true
unfolding decimal
decimal-all p h n = digits-all p h (suc n) n

int_of-append : (s : Text) (c n : ℕ) → int_of (s ++ c ∷ []) n ≡ int_of s n * 10 + (c - b'0')
unfolding int_of
int_of-append [] c n = refl
int_of-append (x ∷ s) c n = int_of-append s c (n * 10 + (x - b'0'))

int_of-digits : (fuel n : ℕ) → n < fuel → int_of (digits fuel n) 0 ≡ n
unfolding digits int_of
int_of-digits zero n h = absurd (omega arith)
int_of-digits (suc fuel) n h = elim (Bool-cases (ltb n 10)) [
  | inl low ↦ ground arith
  | inr high ↦ ground (
    arith,
    int_of-append (digits fuel (n / 10)) (b'0' + n % 10) 0,
    int_of-digits fuel (n / 10) (ground arith),
  )
]

-- Reading the decimal text of a number gives the number.
pub int_of-decimal : (n : ℕ) → int_of (decimal n) 0 ≡ n
unfolding decimal
int_of-decimal n = int_of-digits (suc n) n (omega arith)
