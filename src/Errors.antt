-- ===== src/Errors.antt =====
-- src/baresip/errors.py: the exception types, the split of a status line, and the exception that
-- a close reason stands for. A message's wording is not modelled, its `status` and `reason` are.
pub mod Status
use baresip_python.Base.{
  ℕ, Bool, true, false, ◌&&◌, Option, none, some, Text, codes, text_eq, before, after, is_digit,
  int_of, length, all, any, List, [], ◌∷◌, leb, ◌||◌, ◌==◌, if◌then◌else◌,
}

-- Every exception that the library raises, with Python's own that it lets through.
pub data Error : Type 0 where
  value_error type_error key_error cancelled_error : Error
  baresip_error command_queue_full command_timeout draining_error runtime_dead : Error
  stale_handle_error unsupported_feature_error no_local_address_error : Error
  registration_error : Option ℕ → Text → Error
  call_failed call_busy call_declined : Option ℕ → Text → Error
  call_timeout : Error
  transfer_failed : Option ℕ → Text → Error
  audio_not_active audio_restarted video_not_active video_restarted : Error

-- `isinstance(e, BaresipError)`
unfoldable pub is_baresip_error : Error → Bool
is_baresip_error Error.value_error = false
is_baresip_error Error.type_error = false
is_baresip_error Error.key_error = false
is_baresip_error Error.cancelled_error = false
is_baresip_error _ = true

-- `isinstance(e, CallFailed)`
unfoldable pub is_call_failed : Error → Bool
is_call_failed (Error.call_failed s r) = true
is_call_failed (Error.call_busy s r) = true
is_call_failed (Error.call_declined s r) = true
is_call_failed Error.call_timeout = true
is_call_failed _ = false

pub data Result {ℓ} (A : Type ℓ) : Type ℓ where
  ok : A → Result A
  err : Error → Result A

-- The characters that `isdigit` takes and `int` refuses: superscripts, circled digits and the like.
abbrev pub refused_digits : List (ℕ × ℕ)
refused_digits =
    (178, 179)
    ∷ (185, 185)
    ∷ (4969, 4977)
    ∷ (6618, 6618)
    ∷ (8304, 8304)
    ∷ (8308, 8313)
    ∷ (8320, 8329)
    ∷ (9312, 9320)
    ∷ (9332, 9340)
    ∷ (9352, 9360)
    ∷ (9450, 9450)
    ∷ (9461, 9469)
    ∷ (9471, 9471)
    ∷ (10102, 10110)
    ∷ (10112, 10120)
    ∷ (10122, 10130)
    ∷ (68160, 68163)
    ∷ (69216, 69224)
    ∷ (69714, 69722)
    ∷ (127232, 127242)
    ∷ []

unfoldable pub passes_isdigit : ℕ → Bool
unfolding is_digit
passes_isdigit c = is_digit c || any (λ (r : ℕ × ℕ). leb r.0 c && leb c r.1) refused_digits

-- "486 Busy Here" is (some 486, "Busy Here"); a text with no status code is (none, text).
-- Where three characters pass `isdigit` and are not all decimal, `int` raises.
unfoldable pub split_status : Text → Result (Option ℕ × Text)
unfolding passes_isdigit
split_status text =
    let head = before b' ' text in
    if (length head == 3) && all is_digit head
    then ok (some (int_of head 0), after b' ' text)
    else if (length head == 3) && all passes_isdigit head
    then err Error.value_error
    else ok (none, text)

-- The stack's text for a call that ended in a successful transfer, with its spelling.
abbrev pub transfer_success : Text
transfer_success = codes "Call transfered"

unfoldable pub of_status : Option ℕ → Text → Error
of_status none reason = Error.call_failed none reason
of_status (some status) reason =
    if status == 486
    then Error.call_busy (some status) reason
    else if status == 603
    then Error.call_declined (some status) reason
    else Error.call_failed (some status) reason

-- An exception made of a status line that could be split.
abbrev pub with_status : (Option ℕ → Text → Error) → Result (Option ℕ × Text) → Result Error
with_status make (err e) = err e
with_status make (ok (status, reason)) = ok (make status reason)

-- `CallFailed.from_close_reason`, which makes an exception or raises one.
unfoldable pub from_close_reason : Text → Result Error
unfolding of_status split_status
from_close_reason text =
    if text_eq text transfer_success
    then ok (Error.call_failed none text)
    else with_status of_status (split_status text)
