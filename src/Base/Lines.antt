-- ===== src/Base/Lines.antt =====
-- Line feeds in a text.
use Prim.Native.Nat.{ℕ, suc, ◌+◌}
use mathlib.Core.Path.{◌≡◌, refl}
use mathlib.Core.Bool.{Bool, true, not}
use mathlib.Core.List.{[], ◌∷◌, ◌++◌}
use native.Mathlib.Omega.{arith}
use baresip_python.Base.Tests.{◌==◌, if◌then◌else◌}
use baresip_python.Base.Lists.{all}
use baresip_python.Base.Texts.{Text}
use baresip_python.Base.Decimal.{decimal, decimal-all}

-- How many line feeds a text holds.
abbrev pub line_feeds : Text → ℕ
line_feeds [] = 0
line_feeds (c ∷ s) = if c == 10 then suc (line_feeds s) else line_feeds s

pub line_feeds-append : (s t : Text) → line_feeds (s ++ t) ≡ line_feeds s + line_feeds t
line_feeds-append [] t = omega arith
line_feeds-append (c ∷ s) t = ground (arith, line_feeds-append s t)

abbrev pub is_plain : ℕ → Bool
is_plain c = not (c == 10)

pub line_feeds-plain : (s : Text) → all is_plain s ≡ true → line_feeds s ≡ 0
line_feeds-plain [] h = refl
line_feeds-plain (c ∷ s) h = ground (arith, line_feeds-plain s)

pub line_feeds-decimal : (n : ℕ) → line_feeds (decimal n) ≡ 0
line_feeds-decimal n = line_feeds-plain (decimal n) (decimal-all is_plain (λ d h. ground arith) n)
