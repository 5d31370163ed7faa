-- ===== src/Call/Keys.antt =====
-- `send_dtmf` and `_send_digit` of src/baresip/call.py.
pub mod Sent
pub mod Completed
use baresip_python.Base.{
  ℕ, suc, Bool, true, false, not, Option, none, some, List, [], ◌∷◌, map, Text, codes, to_upper,
  all, contains, if◌then◌else◌,
}
use baresip_python.Errors.{Error, Result, ok, err}
use baresip_python.Call.Session.{Method, handle_of, request}
use baresip_python.Call.Transfer.{and_then}
use baresip_python.Events.{ℤ, pos, negsuc}
use baresip_python.Wire.{Command, call_send_digit}
use baresip_python.World.{World, pause, reply_error}

abbrev pub dtmf_digits : Text
dtmf_digits = codes "0123456789ABCD*#"

-- `_send_digit`
unfoldable pub send_digit : ℕ → ℕ → Method (Unit {0})
unfolding request
send_digit i key w = request reply_error (call_send_digit (handle_of i w) key) w

-- `asyncio.sleep`
abbrev pub sleep : Method (Unit {0})
sleep w = (ok tt, pause w)

-- One round of the loop without the spacing: the key goes down, sounds, and goes up.
unfoldable pub press : ℕ → ℕ → Method (Unit {0})
unfolding send_digit
press i digit w = and_then (and_then (send_digit i digit w) sleep) (send_digit i b'R')

-- The loop over the digits: no spacing behind the last.
unfoldable pub press_all : ℕ → Text → Method (Unit {0})
unfolding press
press_all i [] w = (ok tt, w)
press_all i (d ∷ []) w = press i d w
press_all i (d ∷ e ∷ rest) w = and_then (and_then (press i d w) sleep) (press_all i (e ∷ rest))

unfoldable pub is_dtmf : ℕ → Bool
is_dtmf d = contains d dtmf_digits

abbrev pub is_negative : ℤ → Bool
is_negative (pos n) = false
is_negative (negsuc n) = true

-- `send_dtmf`
unfoldable pub send_dtmf : ℕ → Text → ℤ → Method (Unit {0})
unfolding press_all is_dtmf
send_dtmf i digits interdigit_ms w =
    if not (all is_dtmf (map to_upper digits))
    then (err Error.value_error, w)
    else if is_negative interdigit_ms
    then (err Error.value_error, w)
    else press_all i (map to_upper digits) w
