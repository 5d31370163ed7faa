-- ===== src/Call/Transfer.antt =====
-- src/baresip/call.py: `transfer`, `attended_transfer` and `_execute_transfer`, and the pending
-- request of the peer: `accept_transfer` and `reject_transfer`.
pub mod Outcome
pub mod Ending
use baresip_python.Base.{
  ℕ, Bool, true, false, not, ◌&&◌, ◌||◌, Option, none, some, List, [], ◌∷◌, ◌++◌, Text, codes,
  text_eq, ◌==◌, leb, if◌then◌else◌, any, contains, or_empty,
}
use baresip_python.Errors.{Error, Result, ok, err, split_status, with_status, transfer_success}
use baresip_python.Events.{StackEvent, Payload}
use baresip_python.Events.Numbering.{Event}
use baresip_python.Runtime.Commands.{ReplyData}
use baresip_python.Call.{Call, CallState, Arrival, birth}
use baresip_python.Call.Refer.{TransferRequest}
use baresip_python.Call.Session.{Method, handle_of, is_up, set_hold}
use baresip_python.Wire.{
  Command, Reply, stale_handle, call_transfer, call_replace_transfer, call_transfer_accept,
  call_transfer_reject,
}
use baresip_python.World.{
  World, Turn, head_turn, head_wait, command, pause, update, allocate, failure, reply_error,
}

-- What a listener raises is logged, and its future stays as it is.
abbrev pub raised_verdict : Result Error → Option (Result (Unit {0}))
raised_verdict (err e) = none
raised_verdict (ok e) = some (err e)

-- What an event about the call makes of the outcome, if anything.
unfoldable pub transfer_verdict : Event → Option Text → Option (Result (Unit {0}))
transfer_verdict Event.call_transfer_failed text = raised_verdict (
    with_status (λ status reason. Error.transfer_failed status reason)
      (split_status (or_empty text)))
transfer_verdict Event.call_closed (some t) =
    if text_eq t transfer_success then some (ok tt) else some (err (Error.transfer_failed none []))
transfer_verdict Event.call_closed none = some (err (Error.transfer_failed none []))
transfer_verdict _ text = none

abbrev pub or_later {ℓ} : {A : Type ℓ} → Option A → Option A → Option A
or_later (some a) later = some a
or_later none later = later

-- The future that the listener settles: the first verdict stands.
unfoldable pub first_verdict : ℕ → List Arrival → Option (Result (Unit {0}))
unfolding transfer_verdict
first_verdict handle [] = none
first_verdict handle (a ∷ rest) =
    or_later (if a.event.call == handle then transfer_verdict a.event.event a.event.text else none)
      (first_verdict handle rest)

abbrev pub set_pending : Bool → Call → Call
set_pending p c = record c { transfer_pending = p }

-- The refusal of `_execute_transfer`'s command, by the payload's "error".
unfoldable pub refused_transfer : Payload ReplyData → Option Error
refused_transfer Payload.absent = none
refused_transfer Payload.empty = some Error.value_error
refused_transfer Payload.unparseable = some Error.value_error
refused_transfer (Payload.parsed d) =
    if text_eq (or_empty d.error) (codes "replaces_unsupported")
    then some (Error.transfer_failed none [])
    else some Error.baresip_error

unfoldable pub transfer_error : Result Reply → Option Error
unfolding refused_transfer
transfer_error (err e) = some e
transfer_error (ok r) =
    if r.ev == stale_handle then some Error.stale_handle_error else refused_transfer r.payload

-- `wait_for(outcome, timeout)`
abbrev pub or_no_outcome : Option (Result (Unit {0})) → Result (Unit {0})
or_no_outcome none = err (Error.transfer_failed none [])
or_no_outcome (some r) = r

-- The rest of the wait, if the events of the command's await did not settle the outcome.
unfoldable pub await_verdict : ℕ → Option (Result (Unit {0})) → Method (Unit {0})
await_verdict i (some r) w = (r, w)
await_verdict i none w =
    (or_no_outcome (first_verdict (handle_of i w) (head_wait w.waits)), pause w)

unfoldable pub await_outcome : ℕ → List Arrival → Option Error → Method (Unit {0})
unfolding await_verdict
await_outcome i arrivals (some e) w = (err e, w)
await_outcome i arrivals none w = await_verdict i (first_verdict (handle_of i w) arrivals) w

-- The `finally` clause.
abbrev pub release : ℕ → Result (Unit {0}) × World → Result (Unit {0}) × World
release i (r, w) = (r, update i (set_pending false) w)

-- `_execute_transfer`
unfoldable pub execute_transfer : ℕ → Command → Method (Unit {0})
unfolding transfer_error await_outcome
execute_transfer i c w = release i (
    await_outcome i (head_turn w.turns).arrivals (transfer_error (head_turn w.turns).reply)
      (command c (update i (set_pending true) w)))

-- `any(c in uri for c in deny)`
abbrev pub has_any : Text → Text → Bool
has_any deny uri = any (λ c. contains c deny) uri

unfoldable pub bad_target : Text → Bool
bad_target [] = true
bad_target (c ∷ s) = has_any (b' ' ∷ 13 ∷ 10 ∷ []) (c ∷ s)

-- `transfer`
unfoldable pub transfer : ℕ → Text → Method (Unit {0})
unfolding bad_target is_up execute_transfer
transfer i uri w =
    if bad_target uri
    then (err Error.value_error, w)
    else if not (is_up (w.calls i).state)
    then (err Error.baresip_error, w)
    else if (w.calls i).transfer_pending
    then (err Error.baresip_error, w)
    else execute_transfer i (call_transfer (handle_of i w) uri) w

-- `m` and then, unless it raised, `n` from the world that it left.
abbrev pub and_then : Result (Unit {0}) × World → Method (Unit {0}) → Result (Unit {0}) × World
and_then (ok u, w) n = n w
and_then (err e, w) n = (err e, w)

-- `attended_transfer` of the object `i` to the object `j`.
unfoldable pub attended_transfer : ℕ → ℕ → Method (Unit {0})
unfolding is_up execute_transfer
attended_transfer i j w =
    if i == j
    then (err Error.value_error, w)
    else if not (is_up (w.calls i).state) || not (is_up (w.calls j).state)
    then (err Error.baresip_error, w)
    else if (w.calls i).transfer_pending
    then (err Error.baresip_error, w)
    else and_then (and_then (set_hold i true w) (set_hold j true))
        (λ v. execute_transfer i (call_replace_transfer (handle_of i v) (handle_of j v)) v)

abbrev pub clear_request : Call → Call
clear_request c = record c { transfer_request = none }

-- The new call's handle, if the object has one; an "error" key raises.
unfoldable pub new_handle : Payload ReplyData → Result (Option ℕ)
new_handle Payload.absent = err Error.type_error
new_handle Payload.empty = err Error.value_error
new_handle Payload.unparseable = err Error.value_error
new_handle (Payload.parsed d) = elim d.error [
  | some t ↦ err Error.baresip_error
  | none ↦ ok d.handle
]

unfoldable pub accepted_handle : Result Reply → Result (Option ℕ)
unfolding new_handle
accepted_handle (err e) = err e
accepted_handle (ok r) =
    if r.ev == stale_handle then err Error.stale_handle_error else new_handle r.payload

-- The request is cleared behind the check for an error and before the handle is read.
unfoldable pub finish_accept : ℕ → Text → Result (Option ℕ) → Method ℕ
unfolding birth
finish_accept i target (err e) w = (err e, w)
finish_accept i target (ok none) w = (err Error.key_error, update i clear_request w)
finish_accept i target (ok (some h)) w =
    let v = update i clear_request w in
    let call = birth h (w.calls i).ua_handle CallState.outgoing (some target) none [] in
    (ok w.next_object, allocate call v)

unfoldable pub accept_request : ℕ → Option TransferRequest → Method ℕ
unfolding finish_accept accepted_handle
accept_request i none w = (err Error.baresip_error, w)
accept_request i (some r) w =
    finish_accept i r.target (accepted_handle (head_turn w.turns).reply)
      (command (call_transfer_accept (handle_of i w) r.raw) w)

-- `accept_transfer`: the result is the place of the new object.
unfoldable pub accept_transfer : ℕ → Method ℕ
unfolding accept_request
accept_transfer i w = accept_request i (w.calls i).transfer_request w

abbrev pub finish_reject : ℕ → Option Error → Method (Unit {0})
finish_reject i (some e) w = (err e, w)
finish_reject i none w = (ok tt, update i clear_request w)

unfoldable pub reject_request : ℕ → ℕ → Option TransferRequest → Method (Unit {0})
reject_request i status none w = (err Error.baresip_error, w)
reject_request i status (some r) w =
    finish_reject i (reply_error (head_turn w.turns).reply)
      (command (call_transfer_reject (handle_of i w) status) w)

-- `reject_transfer`
unfoldable pub reject_transfer : ℕ → ℕ → Method (Unit {0})
unfolding reject_request
reject_transfer i status w =
    if leb 300 status && leb status 699
    then reject_request i status (w.calls i).transfer_request w
    else (err Error.value_error, w)
