-- ===== src/BuildPolicy/Links.antt =====
-- What the pattern GPL_LINK_TOKEN of scripts/build_native.py finds in a link command.
use baresip_python.Base.{
  ℕ, ◌≡◌, refl, sym, ◌∙◌, ap, Bool, true, false, not, ◌&&◌, ◌||◌, List, [], ◌∷◌, ◌++◌, any, all,
  Text, codes, text_eq, eq_of_text_eq, starts_with, is_space, ==_refl, Bool-cases, inl, inr, arith,
  and_true, or_true_right,
}
use baresip_python.BuildPolicy.{has_module}
use baresip_python.BuildPolicy.Scan.{
  gpl_libraries, suffixes, library_file, path_to_library, gpl_token, separates, later_token,
  has_gpl_link,
}

-- Only characters of a path: `\S*`
abbrev pub is_path : Text → Bool
is_path path = all (λ (c : ℕ). not (is_space c)) path

or_left : (a b : Bool) → a ≡ true → (a || b) ≡ true
or_left true b h = refl
or_left false b h = absurd (ground arith)

or_right : (a b : Bool) → b ≡ true → (a || b) ≡ true
or_right true b h = refl
or_right false b h = h

starts_with-append : (p s : Text) → starts_with (p ++ s) p ≡ true
unfolding starts_with
starts_with-append [] s = refl
starts_with-append (c ∷ p) s = ground (arith, ==_refl c, starts_with-append p s)

-- A test that one member of a list passes.
any-member :
    (p : Text → Bool) (m : Text) (xs : List Text)
    → has_module m xs ≡ true
    → p m ≡ true
    → any p xs ≡ true
any-member p m [] h k = absurd (ground arith)
any-member p m (x ∷ xs) h k = elim (Bool-cases (text_eq m x)) [
  | inl same ↦ or_left (p x) (any p xs) (ap p (sym (eq_of_text_eq m x same)) ∙ k)
  | inr other ↦
      or_right (p x) (any p xs)
        (any-member p m xs (or_true_right (text_eq m x) (has_module m xs) other h) k)
]

library_file-member :
    (name suffix rest : Text)
    → has_module name gpl_libraries ≡ true
    → has_module suffix suffixes ≡ true
    → library_file ((codes "lib" ++ (name ++ suffix)) ++ rest) ≡ true
unfolding library_file
library_file-member name suffix rest n s =
    let text : Text = (codes "lib" ++ (name ++ suffix)) ++ rest in
    any-member
      (λ (x : Text). any (λ (y : Text). starts_with text (codes "lib" ++ (x ++ y))) suffixes) name
      gpl_libraries n
      (any-member (λ (y : Text). starts_with text (codes "lib" ++ (name ++ y))) suffix suffixes s
        (starts_with-append (codes "lib" ++ (name ++ suffix)) rest))

path_to_library-file :
    (path t : Text)
    → is_path path ≡ true
    → library_file t ≡ true
    → path_to_library (path ++ t) ≡ true
unfolding path_to_library library_file starts_with
path_to_library-file [] [] h k = absurd (ground arith)
path_to_library-file [] (c ∷ t) h k = or_left _ _ k
path_to_library-file (c ∷ path) t h k =
    let (first, rest) = and_true (not (is_space c)) (is_path path) h in
    or_right (library_file (c ∷ (path ++ t))) _
      (ap (λ b. b && path_to_library (path ++ t)) first ∙ path_to_library-file path t rest k)

later_token-at :
    (earlier : Text) (c : ℕ) (t : Text)
    → separates c ≡ true
    → gpl_token t ≡ true
    → later_token (earlier ++ c ∷ t) ≡ true
unfolding gpl_token
later_token-at [] c t h k =
    or_left (separates c && gpl_token t) _ (ap (λ b. b && gpl_token t) h ∙ k)
later_token-at (d ∷ earlier) c t h k = or_right _ _ (later_token-at earlier c t h k)

-- `-l` and the name of a library, behind a separator.
pub has_gpl_link-flag :
    (earlier name rest : Text) (c : ℕ)
    → separates c ≡ true
    → has_module name gpl_libraries ≡ true
    → has_gpl_link (earlier ++ c ∷ ((codes "-l" ++ name) ++ rest)) ≡ true
unfolding has_gpl_link gpl_token
has_gpl_link-flag earlier name rest c h n = or_right _ _ (
    later_token-at earlier c ((codes "-l" ++ name) ++ rest) h (
      or_left _ (path_to_library ((codes "-l" ++ name) ++ rest)) (
        any-member (λ (x : Text). starts_with ((codes "-l" ++ name) ++ rest) (codes "-l" ++ x)) name
          gpl_libraries n (starts_with-append (codes "-l" ++ name) rest))))

-- A file of a library, with its directory, behind a separator.
pub has_gpl_link-file :
    (earlier path name suffix rest : Text) (c : ℕ)
    → separates c ≡ true
    → is_path path ≡ true
    → has_module name gpl_libraries ≡ true
    → has_module suffix suffixes ≡ true
    → has_gpl_link (earlier ++ c ∷ (path ++ ((codes "lib" ++ (name ++ suffix)) ++ rest))) ≡ true
unfolding has_gpl_link gpl_token
has_gpl_link-file earlier path name suffix rest c h p n s = or_right _ _ (
    later_token-at earlier c (path ++ ((codes "lib" ++ (name ++ suffix)) ++ rest)) h
      (or_right _ _ (path_to_library-file path _ p (library_file-member name suffix rest n s))))
