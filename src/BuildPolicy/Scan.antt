-- ===== src/BuildPolicy/Scan.antt =====
-- The texts that scripts/build_native.py takes apart: static.c, the output of configure, the value of
-- `--extra-modules`, and link commands.
use baresip_python.Base.{
  ℕ, zero, suc, Bool, false, not, ◌&&◌, ◌||◌, Option, none, some, List, [], ◌∷◌, ◌++◌, any,
  contains, Text, codes, strip, starts_with, is_space, is_digit, leb, ◌==◌, if◌then◌else◌,
}
use baresip_python.Call.Refer.{skip_text}

-- `\w`
unfoldable pub is_word : ℕ → Bool
unfolding is_digit
is_word c =
    is_digit c || ((leb b'a' c && leb c b'z') || ((leb b'A' c && leb c b'Z') || (c == b'_')))

abbrev pub export_prefix : Text
export_prefix = codes "extern const struct mod_export exports_"

-- `(\w+);`: the name in front of a semicolon.
unfoldable pub word_before_semicolon : Text → Option Text
unfolding is_word
word_before_semicolon [] = none
word_before_semicolon (c ∷ s) =
    let rest = word_before_semicolon s in
    if is_word c
    then elim rest [
      | some name ↦ some (c ∷ name)
      | none ↦ if starts_with s (b';' ∷ []) then some (c ∷ []) else none
    ]
    else none

unfoldable pub export_here : Text → Option Text
unfolding word_before_semicolon starts_with
export_here s =
    if starts_with s export_prefix then word_before_semicolon (skip_text export_prefix s) else none

unfoldable pub parse_modules_from_static_c : Text → List Text
unfolding export_here
parse_modules_from_static_c [] = []
parse_modules_from_static_c (c ∷ s) =
    let rest = parse_modules_from_static_c s in
    elim (export_here (c ∷ s)) [ some name ↦ name ∷ rest | none ↦ rest ]

-- The pieces between separators, without the empty ones.
abbrev pub add_char : ℕ → List Text → List Text
add_char c [] = (c ∷ []) ∷ []
add_char c (piece ∷ pieces) = (c ∷ piece) ∷ pieces

abbrev pub pieces_by : (ℕ → Bool) → Text → List Text
pieces_by is_separator [] = [] ∷ []
pieces_by is_separator (c ∷ s) =
    let rest = pieces_by is_separator s in if is_separator c then [] ∷ rest else add_char c rest

abbrev pub nonempty : List Text → List Text
nonempty [] = []
nonempty ([] ∷ pieces) = nonempty pieces
nonempty ((c ∷ s) ∷ pieces) = (c ∷ s) ∷ nonempty pieces

-- `{m for m in value.split(";") if m}`
unfoldable pub split_list : Text → List Text
split_list value = nonempty (pieces_by (λ (c : ℕ). c == b';') value)

-- `extra_modules.replace(",", ";")` is split the same way.
unfoldable pub split_modules : Text → List Text
split_modules value = nonempty (pieces_by (λ (c : ℕ). (c == b';') || (c == b',')) value)

-- How much of `\x1b\[[0-9;]*m` stands behind its first character.
abbrev pub sgr_end : Text → Option ℕ
unfolding is_digit
sgr_end [] = none
sgr_end (c ∷ s) =
    let rest = sgr_end s in
    if c == b'm'
    then some 1
    else if is_digit c || (c == b';')
    then elim rest [ some n ↦ some (suc n) | none ↦ none ]
    else none

unfoldable pub sgr_rest : Text → Option ℕ
unfolding sgr_end
sgr_rest [] = none
sgr_rest (c ∷ s) =
    if c == b'[' then elim (sgr_end s) [ some n ↦ some (suc n) | none ↦ none ] else none

-- `_ANSI_SGR.sub("", s)`; the number is how many characters are still to be dropped.
unfoldable pub drop_sgr : ℕ → Text → Text
unfolding sgr_rest
drop_sgr n [] = []
drop_sgr (suc n) (c ∷ s) = drop_sgr n s
drop_sgr zero (c ∷ s) =
    let kept = c ∷ drop_sgr zero s in
    if c == 27 then elim (sgr_rest s) [ some n ↦ drop_sgr n s | none ↦ kept ] else kept

abbrev pub detected_key : Text
detected_key = codes "MODULES_DETECTED="

-- `_MODULES_DETECTED.search`, with the group.
unfoldable pub detected_in : Text → Option Text
unfolding starts_with
detected_in [] = none
detected_in (c ∷ s) =
    let rest = detected_in s in
    if starts_with (c ∷ s) detected_key then some (skip_text detected_key (c ∷ s)) else rest

-- A line break of `splitlines`.
abbrev pub is_line_break : ℕ → Bool
is_line_break c = (leb 10 c && leb c 13) || (leb 28 c && leb c 30)

abbrev pub first_detected : List Text → List Text
unfolding detected_in drop_sgr split_list strip
first_detected [] = []
first_detected (line ∷ lines) =
    let rest = first_detected lines in
    elim (detected_in (drop_sgr zero line)) [ some value ↦ split_list (strip value) | none ↦ rest ]

unfoldable pub parse_modules_detected : Text → List Text
unfolding first_detected
parse_modules_detected output = first_detected (pieces_by is_line_break output)

abbrev pub gpl_libraries : List Text
gpl_libraries =
    codes "avcodec"
    ∷ codes "avformat"
    ∷ codes "avutil"
    ∷ codes "avfilter"
    ∷ codes "avdevice"
    ∷ codes "swscale"
    ∷ codes "swresample"
    ∷ codes "x264"
    ∷ []

abbrev pub suffixes : List Text
suffixes = codes ".a" ∷ codes ".so" ∷ codes ".dylib" ∷ []

-- `lib…\.(?:a|so|dylib)` at the head of a text.
unfoldable pub library_file : Text → Bool
unfolding starts_with
library_file s =
    any
      (λ (name : Text).
        any (λ (suffix : Text). starts_with s (codes "lib" ++ (name ++ suffix))) suffixes)
      gpl_libraries

-- `\S*` and such a file name.
unfoldable pub path_to_library : Text → Bool
unfolding library_file is_space
path_to_library [] = false
path_to_library (c ∷ s) =
    let rest = path_to_library s in library_file (c ∷ s) || (not (is_space c) && rest)

-- A token of GPL_LINK_TOKEN behind its separator.
unfoldable pub gpl_token : Text → Bool
unfolding path_to_library starts_with
gpl_token s =
    any (λ (name : Text). starts_with s (codes "-l" ++ name)) gpl_libraries || path_to_library s

abbrev pub separates : ℕ → Bool
unfolding is_space
separates c = is_space c || contains c (34 ∷ 39 ∷ b'=' ∷ [])

abbrev pub later_token : Text → Bool
unfolding gpl_token separates
later_token [] = false
later_token (c ∷ s) = (separates c && gpl_token s) || later_token s

-- `find_gpl_link_tokens` finds something.
unfoldable pub has_gpl_link : Text → Bool
unfolding gpl_token later_token
has_gpl_link text = gpl_token text || later_token text
