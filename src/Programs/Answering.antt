-- ===== src/Programs/Answering.antt =====
-- The programs of src/examples that answer a call or let a user steer it: `serve` of
-- 05_dtmf_ivr.py and the loop of 06_softphone.py. The call is the object `i`, the tone that a key
-- plays changes no call and is left out. A program that waits on has no result.
pub mod Ends
use baresip_python.Base.{
  ℕ, Bool, true, false, not, ◌||◌, Option, none, some, List, [], ◌∷◌, Text, codes, text_eq, any,
  contains, strip, if◌then◌else◌, map,
}
use baresip_python.Errors.{Error, Result, ok, err}
use baresip_python.Events.{pos}
use baresip_python.Events.Numbering.{Event}
use baresip_python.Call.{Call, CallState, Listener, Notice}
use baresip_python.Call.Listeners.{on, on_dtmf}
use baresip_python.Call.Session.{Method, answer, hangup}
use baresip_python.Call.Transfer.{and_then}
use baresip_python.Call.Keys.{send_dtmf}
use baresip_python.World.{World, pause, update}

-- The numbers of `on_digit` and `on_event`.
abbrev pub digit_callback : ℕ
digit_callback = 0

abbrev pub event_callback : ℕ
event_callback = 1

abbrev pub is_closing : Event → Bool
is_closing Event.call_closed = true
is_closing _ = false

-- What is given to `on_digit` or `on_event` resolves the future `done`: the key 2, or the call's end.
unfoldable pub finishes : Notice → Bool
finishes (Notice.digit_notice l d) = text_eq d.digit (codes "2")
finishes (Notice.event_notice l e) = is_closing e.event
finishes _ = false

abbrev pub watched : Call → Call
unfolding on on_dtmf
watched c = on (Listener.callback event_callback) (on_dtmf digit_callback c)

abbrev pub is_closed : CallState → Bool
is_closed CallState.closed = true
is_closed _ = false

-- Behind `await done`.
unfoldable pub finish_call : ℕ → Method (Unit {0})
unfolding hangup
finish_call i w = if is_closed (w.calls i).state then (ok tt, w) else hangup i w

abbrev pub is_done : ℕ → World → Bool
unfolding finishes
is_done i w = any finishes (w.calls i).notices

-- `await done`, for at most as many waits as the environment has left.
unfoldable pub await_done : {A : Type 0} → ℕ → List A → World → Option World
unfolding is_done
await_done i [] w = if is_done i w then some w else none
await_done i (wait ∷ waits) w =
    let rest = await_done i waits (pause w) in if is_done i w then some w else rest

abbrev pub finish_if_done : ℕ → Option World → Option (Result (Unit {0}) × World)
unfolding finish_call
finish_if_done i none = none
finish_if_done i (some w) = some (finish_call i w)

abbrev pub serve_answered : ℕ → Result (Unit {0}) × World → Option (Result (Unit {0}) × World)
unfolding await_done finish_if_done
serve_answered i (err e, w) = some (err e, w)
serve_answered i (ok u, w) = finish_if_done i (await_done i w.waits w)

-- `serve`, behind `incoming.get()`.
unfoldable pub serve : ℕ → World → Option (Result (Unit {0}) × World)
unfolding answer watched serve_answered
serve i w = serve_answered i (answer i false none (update i watched w))

abbrev pub keypad : Text
keypad = codes "0123456789*#"

-- The digits of a line; other characters are skipped.
unfoldable pub type_line : ℕ → Text → Method (Unit {0})
unfolding send_dtmf
type_line i [] w = (ok tt, w)
type_line i (c ∷ line) w =
    if contains c keypad
    then and_then (send_dtmf i (c ∷ []) (pos 120) w) (type_line i line)
    else type_line i line w

abbrev pub is_quit : Text → Bool
is_quit line = text_eq line (codes "h") || text_eq line (codes "q")

abbrev pub go_on :
    Result (Unit {0}) × World
    → (World → Option (Result (Unit {0}) × World))
    → Option (Result (Unit {0}) × World)
go_on (err e, w) rest = some (err e, w)
go_on (ok u, w) rest = rest w

-- The loop of 06_softphone.py over the lines that the user types; the prompt is a wait.
unfoldable pub softphone : ℕ → List Text → World → Option (Result (Unit {0}) × World)
unfolding type_line hangup
softphone i [] w = if is_closed (w.calls i).state then some (ok tt, w) else none
softphone i (line ∷ lines) w =
    let v = pause w in
    let next = go_on (type_line i (strip line) v) (softphone i lines) in
    if is_closed (w.calls i).state
    then some (ok tt, w)
    else if is_closed (v.calls i).state
    then some (ok tt, v)
    else if is_quit (strip line)
    then some (hangup i v)
    else next
