-- ===== src/Call/Truth.antt =====
-- Each method of a call, src/baresip/call.py, as a run of commands, waits and writes that leave the
-- calls' states to the stack's events.
use baresip_python.Base.{
  ℕ, refl, Bool, true, false, not, Option, none, some, List, [], ◌∷◌, Text, ◌==◌, if◌then◌else◌,
  ◌||◌,
}
use baresip_python.Errors.{Error, Result, ok, err}
use baresip_python.Call.{Call, CallState, Arrival}
use baresip_python.Call.Refer.{TransferRequest}
use baresip_python.Call.Session.{
  Method, request, answer, reject, hangup, set_hold, finish_hold, set_on_hold, is_up, same_bool,
  set_direction, handle_of,
}
use baresip_python.Call.Transfer.{
  transfer, attended_transfer, execute_transfer, finish_reject, await_outcome, await_verdict,
  set_pending, and_then, accept_request, finish_accept, reject_request, clear_request,
  first_verdict, bad_target,
}
use baresip_python.Call.Establish.{
  wait_in_state, await_established, settle_wait, add_waiter, drop_waiter, after_hangup,
}
use baresip_python.Call.Keys.{press_all, press, send_digit}
use baresip_python.Wire.{Command, Reply}
use baresip_python.World.{World, command, pause, update, allocate, reply_error}
use baresip_python.Call.Advance.{
  SameLife, Advances, Advances-trans, Advances-command, Advances-pause, Advances-update,
  Advances-allocate,
}

module _ (w v : World) (so_far : Advances w v) where
  onto-command : (c : Command) → Advances w (command c v)
  onto-command c = Advances-trans w v (command c v) so_far (Advances-command c v)

  onto-pause : Advances w (pause v)
  onto-pause = Advances-trans w v (pause v) so_far (Advances-pause v)

  onto-update :
      (i : ℕ) (f : Call → Call) → ((c : Call) → SameLife (f c) c) → Advances w (update i f v)
  onto-update i f h = Advances-trans w v (update i f v) so_far (Advances-update i f v h)

  onto-allocate : (c : Call) → Advances w (allocate c v)
  onto-allocate c = Advances-trans w v (allocate c v) so_far (Advances-allocate c v)

-- The world that a method leaves is one that `w` leads to.
pub record Leads {A : Type 0} (w : World) (x : Result A × World) : Type 0 where
  pub advance : Advances w x.1

module _ {A : Type 0} {w : World} where
  pub Leads-stop : {r : Result A} {v : World} → Advances w v → Leads w (r, v)
  Leads-stop h = record { advance = h }

  pub Leads-if :
      (b : Bool) (x y : Result A × World) → Leads w x → Leads w y → Leads w (if b then x else y)
  Leads-if true x y p q = p
  Leads-if false x y p q = q

pub Leads-then :
    {w : World} {x : Result (Unit {0}) × World} {n : Method (Unit {0})}
    → Leads w x
    → ((v : World) → Advances w v → Leads w (n v))
    → Leads w (and_then x n)
Leads-then {x = (ok u, v)} p q = q v p.advance
Leads-then {x = (err e, v)} p q = record { advance = p.advance }

-- From any world that `w` has led to, the method leads on by events only.
abbrev pub IsTrue : {A : Type 0} → Method A → Type 0
IsTrue m = (w v : World) → Advances w v → Leads w (m v)

pub request-IsTrue : (check : Result Reply → Option Error) (c : Command) → IsTrue (request check c)
unfolding request
request-IsTrue check c w v h = Leads-stop (onto-command w v h c)

pub answer-IsTrue :
    (i : ℕ) (video : Bool) (headers : Option (List (Text × Text))) → IsTrue (answer i video headers)
unfolding answer
answer-IsTrue i video none w v h = request-IsTrue reply_error _ w v h
answer-IsTrue i video (some hs) w v h = Leads-stop h

pub reject-IsTrue : (i : ℕ) → IsTrue (reject i)
unfolding reject
reject-IsTrue i w v h = Leads-stop (onto-command w v h _)

pub hangup-IsTrue : (i : ℕ) → IsTrue (hangup i)
unfolding hangup
hangup-IsTrue i w v h = Leads-stop (onto-command w v h _)

pub finish_hold-IsTrue :
    (i : ℕ) (hold : Bool) (e : Option Error) (offer : Bool) → IsTrue (finish_hold i hold e offer)
unfolding finish_hold
finish_hold-IsTrue i hold (some e) offer w v h = Leads-stop h
finish_hold-IsTrue i hold none false w v h = Leads-stop (onto-command w v h _)
finish_hold-IsTrue i hold none true w v h = Leads-stop (
    onto-update w v h i (set_on_hold hold)
      (λ c. record { state = refl; subscribed = refl; handle = refl }))

pub set_hold-IsTrue : (i : ℕ) (hold : Bool) → IsTrue (set_hold i hold)
unfolding set_hold
set_hold-IsTrue i hold w v h = Leads-if (same_bool (v.calls i).on_hold hold) _ _ (Leads-stop h) (
    Leads-if (is_up (v.calls i).state) _ _
      (finish_hold-IsTrue i hold _ _ w _ (onto-command w v h _)) (Leads-stop h))

pub set_direction-IsTrue : (i : ℕ) (n : Option ℕ) → IsTrue (set_direction i n)
unfolding set_direction
set_direction-IsTrue i none w v h = Leads-stop h
set_direction-IsTrue i (some n) w v h =
    Leads-if (is_up (v.calls i).state) _ _ (Leads-stop (onto-command w v h _)) (Leads-stop h)

set_pending-SameLife : (p : Bool) (c : Call) → SameLife (set_pending p c) c
set_pending-SameLife p c = record { state = refl; subscribed = refl; handle = refl }

pub await_verdict-IsTrue : (i : ℕ) (o : Option (Result (Unit {0}))) → IsTrue (await_verdict i o)
unfolding await_verdict
await_verdict-IsTrue i (some r) w v h = Leads-stop h
await_verdict-IsTrue i none w v h = Leads-stop (onto-pause w v h)

pub await_outcome-IsTrue :
    (i : ℕ) (arrivals : List Arrival) (e : Option Error) → IsTrue (await_outcome i arrivals e)
unfolding await_outcome
await_outcome-IsTrue i arrivals (some e) w v h = Leads-stop h
await_outcome-IsTrue i arrivals none w v h =
    await_verdict-IsTrue i (first_verdict (handle_of i v) arrivals) w v h

pub execute_transfer-IsTrue : (i : ℕ) (c : Command) → IsTrue (execute_transfer i c)
unfolding execute_transfer
execute_transfer-IsTrue i c w v h = Leads-stop (
    onto-update w _
      (await_outcome-IsTrue i _ _ w _ (
        onto-command w _ (onto-update w v h i (set_pending true) (set_pending-SameLife true))
          c)).advance
      i (set_pending false) (set_pending-SameLife false))

pub transfer-IsTrue : (i : ℕ) (uri : Text) → IsTrue (transfer i uri)
unfolding transfer
transfer-IsTrue i uri w v h = Leads-if (bad_target uri) _ _ (Leads-stop h) (
    Leads-if (not (is_up (v.calls i).state)) _ _ (Leads-stop h) (
      Leads-if (v.calls i).transfer_pending _ _ (Leads-stop h) (execute_transfer-IsTrue i _ w v h)))

pub attended_transfer-IsTrue : (i j : ℕ) → IsTrue (attended_transfer i j)
unfolding attended_transfer
attended_transfer-IsTrue i j w v h = Leads-if (i == j) _ _ (Leads-stop h) (
    Leads-if (not (is_up (v.calls i).state) || not (is_up (v.calls j).state)) _ _ (Leads-stop h) (
      Leads-if (v.calls i).transfer_pending _ _ (Leads-stop h) (
        Leads-then (Leads-then (set_hold-IsTrue i true w v h) (set_hold-IsTrue j true w))
          (λ x k. execute_transfer-IsTrue i _ w x k))))

clear_request-SameLife : (c : Call) → SameLife (clear_request c) c
clear_request-SameLife c = record { state = refl; subscribed = refl; handle = refl }

pub finish_accept-IsTrue :
    (i : ℕ) (target : Text) (r : Result (Option ℕ)) → IsTrue (finish_accept i target r)
unfolding finish_accept
finish_accept-IsTrue i target (err e) w v h = Leads-stop h
finish_accept-IsTrue i target (ok none) w v h =
    Leads-stop (onto-update w v h i clear_request clear_request-SameLife)
finish_accept-IsTrue i target (ok (some n)) w v h =
    Leads-stop (onto-allocate w _ (onto-update w v h i clear_request clear_request-SameLife) _)

pub accept_request-IsTrue : (i : ℕ) (r : Option TransferRequest) → IsTrue (accept_request i r)
unfolding accept_request
accept_request-IsTrue i none w v h = Leads-stop h
accept_request-IsTrue i (some r) w v h =
    finish_accept-IsTrue i r.target _ w _ (onto-command w v h _)

pub finish_reject-IsTrue : (i : ℕ) (e : Option Error) → IsTrue (finish_reject i e)
finish_reject-IsTrue i (some e) w v h = Leads-stop h
finish_reject-IsTrue i none w v h =
    Leads-stop (onto-update w v h i clear_request clear_request-SameLife)

pub reject_request-IsTrue :
    (i status : ℕ) (r : Option TransferRequest) → IsTrue (reject_request i status r)
unfolding reject_request
reject_request-IsTrue i status none w v h = Leads-stop h
reject_request-IsTrue i status (some r) w v h = finish_reject-IsTrue i _ w _ (onto-command w v h _)

Leads-hangup : {w : World} (x : Result (Unit {0}) × World) → Leads w x → Leads w (after_hangup x)
Leads-hangup (ok u, v) p = record { advance = p.advance }
Leads-hangup (err e, v) p = record { advance = p.advance }

pub settle_wait-IsTrue : (i : ℕ) (o : Option (Result (Unit {0}))) → IsTrue (settle_wait i o)
unfolding settle_wait
settle_wait-IsTrue i (some r) w v h = Leads-stop h
settle_wait-IsTrue i none w v h = Leads-hangup (hangup i v) (hangup-IsTrue i w v h)

pub await_established-IsTrue : (i : ℕ) → IsTrue (await_established i)
unfolding await_established
await_established-IsTrue i w v h = Leads-stop (
    onto-update w _
      (settle_wait-IsTrue i _ w _ (
        onto-pause w _ (
          onto-update w v h i add_waiter
            (λ c. record { state = refl; subscribed = refl; handle = refl })))).advance
      i drop_waiter (λ c. record { state = refl; subscribed = refl; handle = refl }))

pub wait_in_state-IsTrue : (s : CallState) (i : ℕ) → IsTrue (wait_in_state s i)
unfolding wait_in_state
wait_in_state-IsTrue CallState.established i w v h = Leads-stop h
wait_in_state-IsTrue CallState.closed i w v h = Leads-stop h
wait_in_state-IsTrue CallState.incoming i w v h = await_established-IsTrue i w v h
wait_in_state-IsTrue CallState.outgoing i w v h = await_established-IsTrue i w v h

pub press-IsTrue : (i d : ℕ) → IsTrue (press i d)
unfolding press send_digit
press-IsTrue i d w v h =
    Leads-then
      (Leads-then (request-IsTrue reply_error _ w v h) (λ x k. Leads-stop (onto-pause w x k)))
      (λ x k. request-IsTrue reply_error _ w x k)

pub press_all-IsTrue : (i : ℕ) (ds : Text) → IsTrue (press_all i ds)
unfolding press_all
press_all-IsTrue i [] w v h = Leads-stop h
press_all-IsTrue i (d ∷ []) w v h = press-IsTrue i d w v h
press_all-IsTrue i (d ∷ e ∷ rest) w v h =
    Leads-then (Leads-then (press-IsTrue i d w v h) (λ x k. Leads-stop (onto-pause w x k)))
      (press_all-IsTrue i (e ∷ rest) w)
