-- ===== src/Call/Session.antt =====
-- src/baresip/call.py: `answer`, `reject`, `hangup`, `hold`, `resume`, `set_video_direction` and
-- their helpers. A method of the object `i` takes the world to its result and the world that it
-- leaves; it is cut in two where it awaits.
pub mod Hold
use baresip_python.Base.{
  ℕ, Bool, true, false, not, ◌&&◌, Option, none, some, List, [], ◌∷◌, Text, codes, text_eq, ◌==◌,
  if◌then◌else◌, any, or_empty, is_some,
}
use baresip_python.Errors.{Error, Result, ok, err}
use baresip_python.Events.{StackEvent, Payload}
use baresip_python.Events.Numbering.{Event}
use baresip_python.Call.{Call, CallState, Arrival}
use baresip_python.Wire.{
  Command, Reply, stale_handle, call_answer, call_reject, call_hangup, call_hold,
  call_set_video_dir,
}
use baresip_python.World.{World, Turn, head_turn, command, update, reply_error}

abbrev pub Method : Type 0 → Type 0
Method A = World → Result A × World

-- `await self._runtime.cmd(...)` where only a stale handle counts, of `_end`.
unfoldable pub stale_error : Result Reply → Option Error
stale_error (err e) = some e
stale_error (ok r) = if r.ev == stale_handle then some Error.stale_handle_error else none

abbrev pub outcome : Option Error → Result (Unit {0})
outcome none = ok tt
outcome (some e) = err e

abbrev pub handle_of : ℕ → World → ℕ
handle_of i w = (w.calls i).handle

-- A command that ends the method by the checks of its reply.
unfoldable pub request : (Result Reply → Option Error) → Command → Method (Unit {0})
request check c w = (outcome (check (head_turn w.turns).reply), command c w)

-- `answer`: `headers` are refused before anything is sent.
unfoldable pub answer : ℕ → Bool → Option (List (Text × Text)) → Method (Unit {0})
unfolding request
answer i video headers w =
    if is_some headers
    then (err Error.unsupported_feature_error, w)
    else request reply_error (call_answer (handle_of i w) video) w

unfoldable pub reject : ℕ → Method (Unit {0})
unfolding request
reject i w = request stale_error (call_reject (handle_of i w)) w

unfoldable pub hangup : ℕ → Method (Unit {0})
unfolding request
hangup i w = request stale_error (call_hangup (handle_of i w)) w

unfoldable pub is_up : CallState → Bool
is_up CallState.established = true
is_up _ = false

unfoldable pub is_local_sdp : Event → Bool
is_local_sdp Event.call_local_sdp = true
is_local_sdp _ = false

-- The listener of `_set_hold` and of `set_video_direction`: the re-INVITE of this call went out.
unfoldable pub is_offer : ℕ → Arrival → Bool
unfolding is_local_sdp
is_offer handle a =
    (a.event.call == handle)
    && (is_local_sdp a.event.event && text_eq (or_empty a.event.text) (codes "offer"))

abbrev pub saw_offer : ℕ → List Arrival → Bool
saw_offer handle arrivals = any (is_offer handle) arrivals

abbrev pub same_bool : Bool → Bool → Bool
same_bool true b = b
same_bool false b = not b

abbrev pub set_on_hold : Bool → Call → Call
set_on_hold hold c = record c { on_hold = hold }

abbrev pub or_error : Result Reply → Error → Error
or_error (ok r) e = e
or_error (err x) e = x

-- No re-INVITE went out: the stack's flag is flipped back.
unfoldable pub roll_back : ℕ → Bool → Method (Unit {0})
roll_back i hold w = (
  err (or_error (head_turn w.turns).reply Error.baresip_error),
  command (call_hold (handle_of i w) (not hold)) w,
)

unfoldable pub finish_hold : ℕ → Bool → Option Error → Bool → Method (Unit {0})
unfolding roll_back
finish_hold i hold (some e) offer w = (err e, w)
finish_hold i hold none false w = roll_back i hold w
finish_hold i hold none true w = (ok tt, update i (set_on_hold hold) w)

unfoldable pub request_hold : ℕ → Bool → Method (Unit {0})
unfolding finish_hold
request_hold i hold w =
    finish_hold i hold (reply_error (head_turn w.turns).reply)
      (saw_offer (handle_of i w) (head_turn w.turns).arrivals)
      (command (call_hold (handle_of i w) hold) w)

-- `_set_hold`: `hold` with `true`, `resume` with `false`.
unfoldable pub set_hold : ℕ → Bool → Method (Unit {0})
unfolding request_hold is_up
set_hold i hold w =
    if same_bool (w.calls i).on_hold hold
    then (ok tt, w)
    else if is_up (w.calls i).state
    then request_hold i hold w
    else (err Error.baresip_error, w)

unfoldable pub hold : ℕ → Method (Unit {0})
unfolding set_hold
hold i w = set_hold i true w

unfoldable pub resume : ℕ → Method (Unit {0})
unfolding set_hold
resume i w = set_hold i false w

-- `_VIDEO_DIRECTIONS` of a call.
unfoldable pub direction_number : Text → Option ℕ
direction_number d =
    if text_eq d (codes "inactive")
    then some 0
    else if text_eq d (codes "recvonly")
    then some 1
    else if text_eq d (codes "sendonly")
    then some 2
    else if text_eq d (codes "sendrecv")
    then some 3
    else none

abbrev staged : Option Error → Bool → Result (Unit {0})
staged (some e) offer = err e
staged none true = ok tt
staged none false = err Error.baresip_error

unfoldable pub set_direction : ℕ → Option ℕ → Method (Unit {0})
unfolding is_up
set_direction i none w = (err Error.value_error, w)
set_direction i (some n) w =
    if is_up (w.calls i).state
    then (
      staged (reply_error (head_turn w.turns).reply)
          (saw_offer (handle_of i w) (head_turn w.turns).arrivals),
      command (call_set_video_dir (handle_of i w) n) w,
    )
    else (err Error.baresip_error, w)

unfoldable pub set_video_direction : ℕ → Text → Method (Unit {0})
unfolding set_direction direction_number
set_video_direction i direction w = set_direction i (direction_number direction) w

unfoldable pub add_video : ℕ → Method (Unit {0})
unfolding set_video_direction
add_video i w = set_video_direction i (codes "sendrecv") w

unfoldable pub remove_video : ℕ → Method (Unit {0})
unfolding set_video_direction
remove_video i w = set_video_direction i (codes "inactive") w
