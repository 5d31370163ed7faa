-- ===== src/BuildPolicy/Exports.antt =====
-- The lines of static.c that scripts/build_native.py reads, written and read back.
use baresip_python.Base.{
  ℕ, ◌≡◌, refl, ◌∙◌, ap, true, false, Option, none, some, List, [], ◌∷◌, ◌++◌, all, Text, codes,
  starts_with, is_digit, if◌then◌else◌, if_true, if_false, arith, All, and_true,
}
use baresip_python.BuildPolicy.Scan.{
  is_word, export_prefix, word_before_semicolon, export_here, parse_modules_from_static_c,
}

-- A module's name: word characters, at least one.
abbrev pub IsName : Text → Type 0
IsName [] = ⊥
IsName (c ∷ s) = all is_word (c ∷ s) ≡ true

-- static.c as cmake writes it, a line for each module.
abbrev pub static_c_of : List Text → Text
static_c_of [] = []
static_c_of (name ∷ names) = export_prefix ++ (name ++ b';' ∷ 10 ∷ static_c_of names)

-- No text of word characters in front of a semicolon begins with a pattern that has a space behind
-- its first word.
no_start :
    (w p q r : Text)
    → all is_word w ≡ true
    → all is_word p ≡ true
    → starts_with (w ++ b';' ∷ r) (p ++ b' ' ∷ q) ≡ false
unfolding starts_with is_word is_digit
no_start [] [] q r h k = refl
no_start [] (x ∷ p) q r h k =
    let (word, rest) = and_true (is_word x) (all is_word p) k in ground arith
no_start (c ∷ w) [] q r h k =
    let (word, rest) = and_true (is_word c) (all is_word w) h in ground arith
no_start (c ∷ w) (x ∷ p) q r h k =
    let (word, rest) = and_true (is_word c) (all is_word w) h in
    let (word', rest') = and_true (is_word x) (all is_word p) k in
    ground (arith, no_start w p q r rest rest')

no_export : (w r : Text) → all is_word w ≡ true → export_here (w ++ b';' ∷ r) ≡ none
unfolding export_here is_word is_digit
no_export w r h =
    if_false (starts_with (w ++ b';' ∷ r) export_prefix) _ _
      (no_start w (codes "extern") (codes "const struct mod_export exports_") r h refl)

-- Behind the name, the rest of its line names no module.
skip_name :
    (w r : Text)
    → all is_word w ≡ true
    → parse_modules_from_static_c (w ++ b';' ∷ 10 ∷ r) ≡ parse_modules_from_static_c r
unfolding parse_modules_from_static_c export_here starts_with
skip_name [] r h = refl
skip_name (c ∷ w) r h =
    let (word, rest) = and_true (is_word c) (all is_word w) h in
    rw (no_export (c ∷ w) (10 ∷ r) h, parse_modules_from_static_c) (skip_name w r rest)

longer_name :
    (c : ℕ) (t name : Text)
    → is_word c ≡ true
    → word_before_semicolon t ≡ some name
    → word_before_semicolon (c ∷ t) ≡ some (c ∷ name)
unfolding word_before_semicolon
longer_name c t name word e =
    if_true (is_word c) _ _ word
    ∙ ap
        (λ (o : Option Text). elim o [
          | some n ↦ some (c ∷ n)
          | none ↦ if starts_with t (b';' ∷ []) then some (c ∷ []) else none
        ])
        e

name_read :
    (c : ℕ) (s r : Text)
    → all is_word (c ∷ s) ≡ true
    → word_before_semicolon (c ∷ (s ++ b';' ∷ r)) ≡ some (c ∷ s)
unfolding word_before_semicolon starts_with
name_read c [] r h = if_true (is_word c) _ _ (and_true (is_word c) true h).0
name_read c (d ∷ s) r h =
    let (word, rest) = and_true (is_word c) (all is_word (d ∷ s)) h in
    longer_name c (d ∷ (s ++ b';' ∷ r)) (d ∷ s) word (name_read d s r rest)

prefix_read :
    (x : Text)
    → parse_modules_from_static_c (export_prefix ++ x) ≡ elim (word_before_semicolon x) [
      | some name ↦ name ∷ parse_modules_from_static_c x
      | none ↦ parse_modules_from_static_c x
    ]
unfolding parse_modules_from_static_c export_here starts_with
prefix_read x = refl

-- The module names of static.c are read back as they were written, in order, whatever they are, as
-- long as each is a word.
pub parse_modules_from_static_c-static_c_of :
    (names : List Text) → All IsName names → parse_modules_from_static_c (static_c_of names) ≡ names
unfolding parse_modules_from_static_c
parse_modules_from_static_c-static_c_of [] h = refl
parse_modules_from_static_c-static_c_of ([] ∷ names) h = absurd h.0
parse_modules_from_static_c-static_c_of ((c ∷ s) ∷ names) h =
    let rest = static_c_of names in
    prefix_read ((c ∷ s) ++ b';' ∷ 10 ∷ rest)
    ∙ ap
        (λ (o : Option Text). elim o [
          | some name ↦ name ∷ parse_modules_from_static_c ((c ∷ s) ++ b';' ∷ 10 ∷ rest)
          | none ↦ parse_modules_from_static_c ((c ∷ s) ++ b';' ∷ 10 ∷ rest)
        ])
        (name_read c s (10 ∷ rest) h.0)
    ∙ ap (λ (l : List Text). (c ∷ s) ∷ l)
        (skip_name (c ∷ s) rest h.0 ∙ parse_modules_from_static_c-static_c_of names h.1)
