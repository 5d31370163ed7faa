-- ===== src/Call/Refer.antt =====
-- `_parse_refer_to` of src/baresip/call.py: a Refer-To value taken apart.
use baresip_python.Base.{
  ◌≡◌, Bool, Option, none, some, [], ◌∷◌, map, Text, codes, before, after, strip, lstrip, inl, inr,
  ap, refl, Bool-cases, if_true, if_false, starts_with, has_infix, to_upper, to_lower, ◌==◌,
  if◌then◌else◌,
}

pub record TransferRequest : Type 0 where
  pub target : Text
  pub raw : Text
  pub replaces : Bool
  pub method : Text

-- `s[len(prefix):]` where `prefix` was seen.
abbrev pub skip_text : Text → Text → Text
skip_text [] s = s
skip_text (p ∷ ps) [] = []
skip_text (p ∷ ps) (c ∷ s) = skip_text ps s

abbrev method_key : Text
method_key = codes "method="

-- `\s*method=([^;]+)` at the head of a text, whatever the case; the group may not be empty.
unfoldable pub method_here : Text → Option Text
method_here s =
    let t = lstrip s in
    if starts_with (map to_lower t) method_key
    then elim (before b';' (skip_text method_key t)) [ [] ↦ none | x ∷ v ↦ some (x ∷ v) ]
    else none

-- The first match behind a `;`.
unfoldable pub method_later : Text → Option Text
unfolding method_here
method_later [] = none
method_later (c ∷ s) =
    let rest = method_later s in
    if c == b';' then elim (method_here s) [ some m ↦ some m | none ↦ rest ] else rest

-- `re.search(r"(?:^|;)\s*method=([^;]+)", params, re.IGNORECASE)`
unfoldable pub method_param : Text → Option Text
unfolding method_later
method_param s = elim (method_here s) [ some m ↦ some m | none ↦ method_later s ]

abbrev pub invite : Text
invite = codes "INVITE"

unfoldable pub method_of : Option Text → Text
method_of none = invite
method_of (some m) = map to_upper (strip m)

abbrev request : Text → Text → Text → TransferRequest
request raw addr params = record {
  target = strip (before b'?' addr);
  raw = raw;
  replaces = has_infix (codes "replaces=") (map to_lower addr);
  method = method_of (method_param params);
}

abbrev split_refer : Text → Text → TransferRequest
split_refer raw [] = request raw (before b';' []) (after b';' [])
split_refer raw (c ∷ value) =
    if c == b'<'
    then request raw (before b'>' value) (after b'>' value)
    else request raw (before b';' (c ∷ value)) (after b';' (c ∷ value))

-- `_parse_refer_to`
unfoldable pub parse_refer_to : Text → TransferRequest
unfolding method_param method_of
parse_refer_to raw = split_refer raw (strip raw)

raw-split_refer : (raw s : Text) → (split_refer raw s).raw ≡ raw
raw-split_refer raw [] = refl
raw-split_refer raw (c ∷ value) = elim (Bool-cases (c == b'<')) [
  | inl angle ↦ ap (λ (r : TransferRequest). r.raw) (if_true (c == b'<') _ _ angle)
  | inr bare ↦ ap (λ (r : TransferRequest). r.raw) (if_false (c == b'<') _ _ bare)
]

pub raw-parse_refer_to : (text : Text) → (parse_refer_to text).raw ≡ text
unfolding parse_refer_to
raw-parse_refer_to text = raw-split_refer text (strip text)
