-- ===== src/Call/Establish.antt =====
-- `wait_established` of src/baresip/call.py: the outcome of an outbound call.
pub mod Outcome
use baresip_python.Base.{
  ℕ, Bool, true, false, ◌&&◌, Option, none, some, List, [], ◌∷◌, ◌++◌, Text, ◌==◌, if◌then◌else◌,
  or_empty,
}
use baresip_python.Errors.{Error, Result, ok, err, from_close_reason, is_baresip_error}
use baresip_python.Events.{StackEvent}
use baresip_python.Events.Numbering.{Event}
use baresip_python.Call.{Call, CallState, Arrival, Listener}
use baresip_python.Call.Session.{Method, handle_of, hangup}
use baresip_python.Call.Transfer.{or_later, raised_verdict}
use baresip_python.World.{World, head_wait, pause, update}

-- What an event of the call makes of the wait, if anything.
unfoldable pub establish_verdict : Event → Option Text → Option (Result (Unit {0}))
establish_verdict Event.call_established text = some (ok tt)
establish_verdict Event.call_closed text = raised_verdict (from_close_reason (or_empty text))
establish_verdict _ text = none

unfoldable pub first_answer : ℕ → List Arrival → Option (Result (Unit {0}))
unfolding establish_verdict
first_answer handle [] = none
first_answer handle (a ∷ rest) =
    or_later (if a.event.call == handle then establish_verdict a.event.event a.event.text else none)
      (first_answer handle rest)

abbrev pub is_waiter : Listener → Bool
is_waiter Listener.waiter = true
is_waiter (Listener.callback l) = false
is_waiter (Listener.warning_adapter l n) = false
is_waiter (Listener.rtcp_adapter l n) = false

abbrev pub add_waiter : Call → Call
add_waiter c = record c { listeners = c.listeners ++ Listener.waiter ∷ [] }

abbrev pub remove_waiter : List Listener → List Listener
remove_waiter [] = []
remove_waiter (l ∷ ls) = if is_waiter l then ls else l ∷ remove_waiter ls

abbrev pub drop_waiter : Call → Call
drop_waiter c = record c { listeners = remove_waiter c.listeners }

-- The timeout: the call is hung up, and a BaresipError of that is logged and no more.
abbrev pub after_hangup : Result (Unit {0}) × World → Result (Unit {0}) × World
after_hangup (ok u, w) = (err Error.call_timeout, w)
after_hangup (err e, w) = (err (if is_baresip_error e then Error.call_timeout else e), w)

unfoldable pub settle_wait : ℕ → Option (Result (Unit {0})) → Method (Unit {0})
unfolding hangup
settle_wait i (some r) w = (r, w)
settle_wait i none w = after_hangup (hangup i w)

-- The `finally` clause.
abbrev pub forget_waiter : ℕ → Result (Unit {0}) × World → Result (Unit {0}) × World
forget_waiter i (r, w) = (r, update i drop_waiter w)

unfoldable pub await_established : ℕ → Method (Unit {0})
unfolding settle_wait
await_established i w = forget_waiter i (
    settle_wait i (first_answer (handle_of i w) (head_wait w.waits))
      (pause (update i add_waiter w)))

-- `raise` of an exception that is made, or what making it raises.
abbrev pub either_error : Result Error → Error
either_error (ok e) = e
either_error (err e) = e

unfoldable pub wait_in_state : CallState → ℕ → Method (Unit {0})
unfolding await_established
wait_in_state CallState.established i w = (ok tt, w)
wait_in_state CallState.closed i w =
    (err (either_error (from_close_reason (or_empty (w.calls i).close_reason))), w)
wait_in_state other i w = await_established i w

unfoldable pub wait_established : ℕ → Method (Unit {0})
unfolding wait_in_state
wait_established i w = wait_in_state (w.calls i).state i w
