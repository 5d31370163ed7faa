-- ===== src/BuildPolicy/Gate.antt =====
-- What a build that passes the checks of scripts/build_native.py contains.
use baresip_python.Base.{
  ℕ, ◌++◌, codes, ◌≡◌, refl, sym, ◌∙◌, ap, Bool, true, false, not, ◌||◌, Option, none, some, List,
  [], ◌∷◌, any, all, Text, text_eq, eq_of_text_eq, Bool-cases, inl, inr, arith, and_true,
  or_false_both, or_true_right, implied,
}
use baresip_python.BuildPolicy.Scan.{
  parse_modules_from_static_c, parse_modules_detected, has_gpl_link, separates, gpl_libraries,
  suffixes,
}
use baresip_python.BuildPolicy.Links.{is_path, has_gpl_link-flag, has_gpl_link-file}
use baresip_python.BuildPolicy.{
  has_module, ffmpeg_modules, wanted_modules, PolicyError, is_within, unless, check_gpl_modules,
  gpl_requested, check_gpl_link_lines, check_completeness, check_detected, or_next, check_build,
}

unless-none : (b : Bool) (e : PolicyError) → unless b e ≡ none → b ≡ true
unless-none true e h = refl
unless-none false e h = absurd (ground arith)

or_next-none : (x y : Option PolicyError) → or_next x y ≡ none → (x ≡ none) × (y ≡ none)
or_next-none none y h = (refl, h)
or_next-none (some e) y h = absurd (ground arith)

-- A member of a list passes the test that all entries pass.
all-has_module :
    (p : Text → Bool) (m : Text) (xs : List Text)
    → all p xs ≡ true
    → has_module m xs ≡ true
    → p m ≡ true
all-has_module p m [] h k = absurd (ground arith)
all-has_module p m (x ∷ xs) h k =
    let (first, rest) = and_true (p x) (all p xs) h in
    elim (Bool-cases (text_eq m x)) [
      | inl same ↦ ap p (eq_of_text_eq m x same) ∙ first
      | inr other ↦
          all-has_module p m xs rest (or_true_right (text_eq m x) (has_module m xs) other k)
    ]

either_way : (a b : Bool) → (a ≡ true → b ≡ true) → (b ≡ true → a ≡ true) → a ≡ b
either_way true b f g = sym (f refl)
either_way false true f g = g refl
either_way false false f g = refl

any_none :
    (p : Text → Bool) (t : Text) (ts : List Text)
    → any p ts ≡ false
    → has_module t ts ≡ true
    → p t ≡ false
any_none p t [] h k = absurd (ground arith)
any_none p t (x ∷ ts) h k = elim (Bool-cases (text_eq t x)) [
  | inl same ↦ ap p (eq_of_text_eq t x same) ∙ (or_false_both (p x) (any p ts) h).0
  | inr other ↦
      any_none p t ts (or_false_both (p x) (any p ts) h).1
        (or_true_right (text_eq t x) (has_module t ts) other k)
]

-- What the checks promise of a build.
pub record IsAllowed (system : Text) (extras : List Text) (debug : Bool) (static_c : Text)
    (links : List Text) : Type 0 where
  pub complete :
      (m : Text)
      → has_module m (parse_modules_from_static_c static_c)
        ≡ has_module m (wanted_modules system extras debug)
  pub asked_for :
      (m : Text)
      → has_module m (parse_modules_from_static_c static_c) ≡ true
      → has_module m ffmpeg_modules ≡ true
      → has_module m extras ≡ true
  pub unlinked :
      gpl_requested extras ≡ false
      → (earlier path name suffix rest : Text) (c : ℕ) → separates c ≡ true
      → is_path path ≡ true
      → has_module name gpl_libraries ≡ true
      → has_module suffix suffixes ≡ true
      → (has_module (earlier ++ c ∷ ((codes "-l" ++ name) ++ rest)) links ≡ false)
        × (has_module (earlier ++ c ∷ (path ++ ((codes "lib" ++ (name ++ suffix)) ++ rest))) links
            ≡ false)

check_completeness-same :
    (actual expected : List Text) (m : Text)
    → check_completeness actual expected ≡ none
    → has_module m actual ≡ has_module m expected
unfolding check_completeness is_within
check_completeness-same actual expected m h =
    let (grown, shrunk) =
      and_true (is_within expected actual) (is_within actual expected)
        (unless-none _ PolicyError.module_mismatch h) in
    either_way (has_module m actual) (has_module m expected)
      (all-has_module (λ (x : Text). has_module x expected) m actual shrunk)
      (all-has_module (λ (x : Text). has_module x actual) m expected grown)

check_gpl_modules-asked_for :
    (enabled extras : List Text) (m : Text)
    → check_gpl_modules enabled extras ≡ none
    → has_module m enabled ≡ true
    → has_module m ffmpeg_modules ≡ true
    → has_module m extras ≡ true
unfolding check_gpl_modules
check_gpl_modules-asked_for enabled extras m h k f =
    implied (has_module m ffmpeg_modules) (has_module m extras) f (
      all-has_module (λ (x : Text). not (has_module x ffmpeg_modules) || has_module x extras) m
        enabled (unless-none _ PolicyError.ffmpeg_enabled h) k)

check_gpl_link_lines-unlinked :
    (links extras : List Text) (link : Text)
    → check_gpl_link_lines links extras ≡ none
    → gpl_requested extras ≡ false
    → has_module link links ≡ true
    → has_gpl_link link ≡ false
unfolding check_gpl_link_lines
check_gpl_link_lines-unlinked links extras link h unasked k =
    any_none has_gpl_link link links
      (clean (any has_gpl_link links) (gpl_requested extras) unasked
        (unless-none _ PolicyError.gpl_linked h))
      k
  where
    clean : (a b : Bool) → b ≡ false → (not a || b) ≡ true → a ≡ false
    clean true b e h = absurd (ground arith)
    clean false b e h = refl

-- A link command that the pattern finds is none of the build's.
absent :
    (links extras : List Text) (link : Text)
    → check_gpl_link_lines links extras ≡ none
    → gpl_requested extras ≡ false
    → has_gpl_link link ≡ true
    → has_module link links ≡ false
absent links extras link h unasked found = elim (Bool-cases (has_module link links)) [
  | inr missing ↦ missing
  | inl there ↦
      let clean = check_gpl_link_lines-unlinked links extras link h unasked there in
      absurd (ground arith)
]

-- A build that passes has exactly the modules that it was asked for; each ffmpeg module among them
-- was asked for by name; and unless one was, no link command names one of the eight libraries
-- avcodec, avformat, avutil, avfilter, avdevice, swscale, swresample and x264 behind white
-- space, a quotation mark or an equals sign, neither as `-l` with the name nor as a file
-- `lib`, name and .a, .so or .dylib, with or without its directory.
pub check_build-IsAllowed :
    (system : Text) (extras : List Text) (debug : Bool) (configure_output static_c : Text)
    (links : List Text)
    → check_build system extras debug configure_output static_c links ≡ none
    → IsAllowed system extras debug static_c links
unfolding check_build
check_build-IsAllowed system extras debug configure_output static_c links h =
    let enabled = parse_modules_from_static_c static_c in
    let (agreed, h1) =
      or_next-none (check_detected (parse_modules_detected configure_output) enabled) _ h in
    let (modules, h2) = or_next-none (check_gpl_modules enabled extras) _ h1 in
    let (lines, complete) = or_next-none (check_gpl_link_lines links extras) _ h2 in
    record {
      complete =
          λ m. check_completeness-same enabled (wanted_modules system extras debug) m complete;
      asked_for = λ m. check_gpl_modules-asked_for enabled extras m modules;
      unlinked = λ unasked earlier path name suffix rest c h p n s. (
        absent links extras _ lines unasked (has_gpl_link-flag earlier name rest c h n),
        absent links extras _ lines unasked
            (has_gpl_link-file earlier path name suffix rest c h p n s),
      );
    }
