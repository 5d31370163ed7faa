-- ===== src/UserAgent/Dial.antt =====
-- `dial` of src/baresip/ua.py.
pub mod Dialing
use baresip_python.Base.{
  ℕ, zero, suc, Bool, true, false, not, ◌&&◌, ◌||◌, Option, none, some, List, [], ◌∷◌, ◌++◌, Text,
  codes, text_eq, starts_with, ◌==◌, if◌then◌else◌, any, contains, without, or_empty,
}
use baresip_python.Errors.{Error, Result, ok, err, split_status, is_baresip_error}
use baresip_python.Events.{Payload, ℤ, pos, negsuc, StackEvent}
use baresip_python.Events.Numbering.{Event}
use baresip_python.Runtime.Commands.{ReplyData}
use baresip_python.Call.{Call, CallState, Arrival, birth, from_incoming}
use baresip_python.Call.Refer.{TransferRequest, parse_refer_to, invite}
use baresip_python.Call.Session.{Method}
use baresip_python.Call.Transfer.{or_later, has_any, new_handle}
use baresip_python.Wire.{
  Command, Reply, stale_handle, ua_alloc, ua_register, ua_unregister, ua_connect,
  call_transfer_accept, call_transfer_reject,
}
use baresip_python.World.{World, Turn, head_turn, head_wait, command, pause, allocate}

-- The `video` argument of `dial`.
pub data VideoOffer : Type 0 where
  plain : Bool → VideoOffer
  direction : Text → VideoOffer

-- `_VIDEO_DIRS`
unfoldable pub video_number : VideoOffer → Option ℕ
video_number (plain false) = some 0
video_number (plain true) = some 1
video_number (direction d) =
    if text_eq d (codes "sendrecv")
    then some 1
    else if text_eq d (codes "inactive")
    then some 2
    else if text_eq d (codes "sendonly")
    then some 3
    else if text_eq d (codes "recvonly")
    then some 4
    else none

abbrev pub line_breaks : Text
line_breaks = 13 ∷ 10 ∷ []

unfoldable pub bad_uri : Text → Bool
bad_uri [] = true
bad_uri (c ∷ s) = has_any line_breaks (c ∷ s)

unfoldable pub bad_name : Text → Bool
bad_name [] = true
bad_name (c ∷ s) = has_any (13 ∷ 10 ∷ b':' ∷ b' ' ∷ []) (c ∷ s)

unfoldable pub bad_header : Text × Text → Bool
unfolding bad_name
bad_header (name, value) = bad_name name || has_any line_breaks value

-- `dial` behind its command.
unfoldable pub dial_refused : Payload ReplyData → Result (Option ℕ)
dial_refused Payload.absent = err Error.type_error
dial_refused Payload.empty = err Error.value_error
dial_refused Payload.unparseable = err Error.value_error
dial_refused (Payload.parsed d) = elim d.error [
  | none ↦ ok d.handle
  | some e ↦
      if text_eq e (codes "no_laddr")
      then err Error.no_local_address_error
      else err Error.baresip_error
]

unfoldable pub dialed : Result Reply → Result (Option ℕ)
unfolding dial_refused
dialed (err e) = err e
dialed (ok r) =
    if r.ev == stale_handle then err Error.stale_handle_error else dial_refused r.payload

unfoldable pub finish_dial : ℕ → Text → Result (Option ℕ) → Method ℕ
unfolding birth
finish_dial ua uri (err e) w = (err e, w)
finish_dial ua uri (ok none) w = (err Error.key_error, w)
finish_dial ua uri (ok (some handle)) w =
    (ok w.next_object, allocate (birth handle ua CallState.outgoing (some uri) none []) w)

unfoldable pub dial_with : ℕ → Text → List (Text × Text) → Option ℕ → Method ℕ
unfolding bad_header finish_dial dialed
dial_with ua uri headers none w = (err Error.value_error, w)
dial_with ua uri headers (some n) w =
    if w.draining
    then (err Error.draining_error, w)
    else if any bad_header headers
    then (err Error.value_error, w)
    else finish_dial ua uri (dialed (head_turn w.turns).reply)
        (command (ua_connect ua n uri headers) w)

-- `dial` of the agent with the handle `ua`; the result is the place of the new object.
unfoldable pub dial : ℕ → Text → List (Text × Text) → VideoOffer → Method ℕ
unfolding dial_with bad_uri video_number
dial ua uri headers video w =
    if bad_uri uri
    then (err Error.value_error, w)
    else dial_with ua uri headers (video_number video) w
