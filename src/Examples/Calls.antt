-- ===== src/Examples/Calls.antt =====
-- Calls on concrete inputs.
use baresip_python.Base.{
  Bool, false, all, ℕ, ◌≡◌, refl, ◌<◌, inl, true, none, some, List, [], ◌∷◌, ◌++◌, arith, codes,
  to_upper,
}
use baresip_python.Errors.{Error, ok, err, transfer_success}
use baresip_python.Events.{pos}
use baresip_python.Events.Numbering.{Event}
use baresip_python.Call.{
  Call, digit_notices, fan_out, CallState, Listener, Arrival, receive, receive_all,
}
use baresip_python.Call.Life.{IsTruthful, reported, receive_all-closed}
use baresip_python.Call.Session.{answer, reject, hangup, hold, resume, set_hold, is_up}
use baresip_python.Call.Session.Hold.{Sets, set_hold-Sets}
use baresip_python.Call.Transfer.{transfer, transfer_error, bad_target}
use baresip_python.Call.Transfer.Outcome.{transfer-closed}
use baresip_python.Call.Transfer.Ending.{succeeds, transfer-TransferEnds}
use baresip_python.Call.Transfer.Ending
use baresip_python.Call.Establish.{wait_established}
use baresip_python.Call.Establish.Outcome.{establishes, hears, skips, wait_established-FirstAnswer}
use baresip_python.Call.Keys.{send_dtmf, is_dtmf}
use baresip_python.Call.Keys.Sent.{keystrokes}
use baresip_python.Call.Keys.Completed.{send_dtmf-completes}
use baresip_python.Call.Listeners.{on_audio_warning, off_audio_warning}
use baresip_python.Call.Listeners.Registration.{off_audio_warning-on_twice}
use baresip_python.Call.Digits.{receive_all-digit}
use baresip_python.Call.Documented.{Raises}
use baresip_python.Call.Documented.Waits.{WaitRaises, Call-Raises}
use baresip_python.Call.Advance.{Offers}
use baresip_python.Call.Run.{CallMethod, run, state-run}
use baresip_python.World.{World, reply_error}
use baresip_python.Examples.Data.{call_in, heard_at, turn, world}

abbrev talking : World
talking = world CallState.established (turn [] ∷ []) []

-- The stack reports the offer of the re-INVITE while `hold` awaits its command.
abbrev offering : World
offering =
    world CallState.established
      (turn (heard_at 1 Event.call_local_sdp (some (codes "offer")) ∷ []) ∷ []) []

set_hold-Sets_example : Sets 0 true talking (set_hold 0 true talking)
set_hold-Sets_example = set_hold-Sets 0 true talking

-- The far end reports that the transfer went through.
abbrev transferring : World
transferring =
    world CallState.established (turn [] ∷ [])
      ((heard_at 1 Event.call_closed (some transfer_success) ∷ []) ∷ [])

transfer-TransferEnds_example : (transfer 0 (codes "sip:c@d") transferring).0 ≡ ok tt
unfolding bad_target is_up transfer_error reply_error
transfer-TransferEnds_example =
    transfer-TransferEnds 0 (codes "sip:c@d") transferring (ok tt) refl refl refl refl
      (Ending.hears refl (succeeds refl refl))

abbrev closing_event : Arrival
closing_event = heard_at 5 Event.call_closed (some (codes "bye"))

receive_all-closed_example :
    (receive_all
        (heard_at 9 Event.call_established none ∷ [])
        (receive closing_event (call_in CallState.established))
      ≡ receive closing_event (call_in CallState.established))
    × ((receive closing_event (call_in CallState.established)).state ≡ CallState.closed)
    × ((receive closing_event (call_in CallState.established)).close_reason ≡ some (codes "bye"))
receive_all-closed_example =
    receive_all-closed closing_event (heard_at 9 Event.call_established none ∷ [])
      (call_in CallState.established) refl refl refl

live-IsTruthful : IsTruthful (call_in CallState.outgoing)
live-IsTruthful = (λ e. ground arith, λ e. ground arith)

transfer-closed_example :
    ((transfer 0 (codes "sip:c@d") transferring).1.calls 0).state ≡ CallState.closed
unfolding bad_target is_up transfer_error reply_error
transfer-closed_example = transfer-closed 0 (codes "sip:c@d") transferring refl (
    transfer-TransferEnds 0 (codes "sip:c@d") transferring (ok tt) refl refl refl refl
      (Ending.hears refl (succeeds refl refl)))

-- Another call ends.
abbrev of_other : Arrival
of_other =
    let a = heard_at 0 Event.call_closed none in record a { event = record a.event { call = 8 } }

-- The call is answered while `wait_established` waits.
abbrev answered : World
answered =
    world CallState.outgoing [] ((of_other ∷ heard_at 1 Event.call_established none ∷ []) ∷ [])

wait_established-FirstAnswer_example :
    ((wait_established 0 answered).0 ≡ ok tt) × ((wait_established 0 answered).1.sent ≡ [])
wait_established-FirstAnswer_example =
    wait_established-FirstAnswer 0 answered (ok tt) refl
      (skips (inl (ground arith)) (hears refl (establishes refl)))

abbrev unanswered : World
unanswered = world CallState.outgoing (turn [] ∷ []) ([] ∷ [])

abbrev keying : World
keying = world CallState.established (turn [] ∷ turn [] ∷ turn [] ∷ turn [] ∷ []) []

send_dtmf-completes_example :
    ((send_dtmf 0 (codes "1a") (pos 100) keying).0 ≡ ok tt)
    × ((send_dtmf 0 (codes "1a") (pos 100) keying).1.sent ≡ keystrokes 7 (codes "1A"))
unfolding is_dtmf to_upper reply_error
send_dtmf-completes_example =
    send_dtmf-completes 0 (codes "1a") (pos 100) keying refl refl (refl, (refl, (refl, (refl, tt))))

off_audio_warning-on_twice_example :
    (off_audio_warning 3
      (on_audio_warning 3 (on_audio_warning 3 (call_in CallState.incoming)))).listeners
    ≡ Listener.warning_adapter 3 0 ∷ []
off_audio_warning-on_twice_example = off_audio_warning-on_twice 3 (call_in CallState.incoming) tt

state-run_example :
    (arrivals : List Arrival) × ((p : Arrival → Bool) → Offers p answered → all p arrivals ≡ true)
    × ((k : ℕ)
        → k < 1
        → (answered.calls k).subscribed ≡ true
        → ((run 0 CallMethod.waits answered).calls k).state
          ≡ reported 7 CallState.outgoing arrivals)
state-run_example = state-run 0 CallMethod.waits answered

-- A call with two listeners for digits hears the key 5 for 120 ms, with a hold in between.
abbrev listening : Call
listening = record (call_in CallState.established) { dtmf_listeners = 3 ∷ 4 ∷ [] }

receive_all-digit_example :
    let held =
      receive_all
        (heard_at 50000 Event.call_hold none ∷ [])
        (receive (heard_at 1000 Event.call_dtmf_start (some (codes "5"))) listening) in
    let d = receive (heard_at 121000 Event.call_dtmf_end none) held in
    (d.dtmf_pressed ≡ none)
    × (d.notices
        ≡ (held.notices
            ++ digit_notices (3 ∷ 4 ∷ []) (record { digit = codes "5"; duration_ms = 120 }))
          ++ fan_out (heard_at 121000 Event.call_dtmf_end none).event held.listeners)
receive_all-digit_example =
    receive_all-digit (heard_at 1000 Event.call_dtmf_start (some (codes "5")))
      (heard_at 121000 Event.call_dtmf_end none) (heard_at 50000 Event.call_hold none ∷ [])
      listening b'5' [] refl refl refl refl refl refl refl

-- The stack is gone: the command meets its timeout.
abbrev timed_out_once : World
timed_out_once =
    world CallState.outgoing
      (record { arrivals = []; reply = err Error.command_timeout } ∷ turn [] ∷ []) []

Call-Raises_example :
    Raises (answer 0 false none timed_out_once).0
    × Raises (reject 0 timed_out_once).0
    × Raises (hangup 0 timed_out_once).0
    × Raises (hold 0 timed_out_once).0
    × Raises (resume 0 timed_out_once).0
    × WaitRaises CallState.outgoing 0 timed_out_once (wait_established 0 timed_out_once).0
Call-Raises_example = Call-Raises 0 false timed_out_once (refl, (tt, tt))
