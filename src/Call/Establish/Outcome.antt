-- ===== src/Call/Establish/Outcome.antt =====
-- What `wait_established` ends with, and what it leaves of the call.
use baresip_python.Base.{
  ℕ, ◌≡◌, refl, ◌∙◌, ap, true, none, some, Option, List, [], ◌∷◌, ◌++◌, Text, arith, ==_refl,
  ==_iff, ◌≢◌, ◌⊎◌, inl, inr, ◌==◌, if◌then◌else◌, if_true, if_false, if_same, or_empty,
}
use baresip_python.Errors.{Error, Result, ok, err, is_baresip_error, from_close_reason}
use baresip_python.Events.{StackEvent}
use baresip_python.Events.Numbering.{Event}
use baresip_python.Call.{CallState, Arrival}
use baresip_python.Call.Life.{receive_all-keeps}
use baresip_python.Call.Session.{handle_of, hangup, request, stale_error, outcome}
use baresip_python.Call.Transfer.{or_later}
use baresip_python.Call.Establish.{
  establish_verdict, first_answer, add_waiter, after_hangup, settle_wait, await_established,
  wait_in_state, wait_established,
}
use baresip_python.Wire.{Reply, call_hangup}
use baresip_python.World.{World, head_turn, head_wait, command, pause, update, deliver}

-- What an event of the call says of an outbound call: it is established, or it is over.
pub data Answers (s : StackEvent) : Result (Unit {0}) → Type 0 where
  establishes : s.event ≡ Event.call_established → Answers s (ok tt)
  closes :
      (e : Error)
      → s.event ≡ Event.call_closed
      → from_close_reason (or_empty s.text) ≡ ok e
      → Answers s (err e)

-- An event that says neither, or that is another call's.
abbrev IsNoAnswer : ℕ → StackEvent → Type 0
IsNoAnswer handle s =
    (s.call ≢ handle) ⊎ ((s.event ≢ Event.call_established) × (s.event ≢ Event.call_closed))

-- The first of the events that says either.
pub data FirstAnswer (handle : ℕ) : List Arrival → Result (Unit {0}) → Type 0 where
  hears :
      {a : Arrival} {later : List Arrival} {r : Result (Unit {0})}
      → a.event.call ≡ handle
      → Answers a.event r
      → FirstAnswer handle (a ∷ later) r
  skips :
      {a : Arrival} {later : List Arrival} {r : Result (Unit {0})}
      → IsNoAnswer handle a.event
      → FirstAnswer handle later r
      → FirstAnswer handle (a ∷ later) r

establish_verdict-Answers :
    (s : StackEvent) (r : Result (Unit {0}))
    → Answers s r
    → establish_verdict s.event s.text ≡ some r
unfolding establish_verdict
establish_verdict-Answers s _ (establishes e) = rw (e, establish_verdict)
establish_verdict-Answers s _ (closes x e made) = rw (e, establish_verdict, made)

establish_verdict-none :
    (e : Event) (text : Option Text)
    → e ≢ Event.call_established
    → e ≢ Event.call_closed
    → establish_verdict e text ≡ none
unfolding establish_verdict
establish_verdict-none Event.call_established text h k = absurd (h refl)
establish_verdict-none Event.call_closed text h k = absurd (k refl)
establish_verdict-none _ text h k = refl

no_answer :
    (handle : ℕ) (s : StackEvent)
    → IsNoAnswer handle s
    → (if s.call == handle then establish_verdict s.event s.text else none) ≡ none
no_answer handle s (inl other) = if_false (s.call == handle) _ _ (ground arith)
no_answer handle s (inr (h, k)) =
    if_same (s.call == handle) _ none (establish_verdict-none s.event s.text h k)

first_answer-FirstAnswer :
    (handle : ℕ) (arrivals : List Arrival) (r : Result (Unit {0}))
    → FirstAnswer handle arrivals r
    → first_answer handle arrivals ≡ some r
unfolding first_answer
first_answer-FirstAnswer handle _ r (hears {a} {later} own says) =
    ap (λ o. or_later o (first_answer handle later))
      (if_true _ _ _ ((==_iff a.event.call handle).1 own)
        ∙ establish_verdict-Answers a.event r says)
first_answer-FirstAnswer handle _ r (skips {a} {later} silent rest) =
    ap (λ o. or_later o (first_answer handle later)) (no_answer handle a.event silent)
    ∙ first_answer-FirstAnswer handle later r rest

wait_established-answer :
    (i : ℕ) (w : World) (r : Result (Unit {0}))
    → (w.calls i).state ≡ CallState.outgoing
    → first_answer (handle_of i w) (head_wait w.waits) ≡ some r
    → ((wait_established i w).0 ≡ r) × ((wait_established i w).1.sent ≡ w.sent)
unfolding wait_established wait_in_state await_established settle_wait pause deliver update
wait_established-answer i w r out e =
    rw (out, wait_established, wait_in_state, e, await_established) (refl, refl)

-- On an outgoing call, a wait ends with the first CALL_ESTABLISHED or CALL_CLOSED of this call
-- among the events that it hears, where the text of a CALL_CLOSED makes an exception: it returns
-- for a CALL_ESTABLISHED, it raises that exception for a CALL_CLOSED, and it sends nothing.
pub wait_established-FirstAnswer :
    (i : ℕ) (w : World) (r : Result (Unit {0}))
    → (w.calls i).state ≡ CallState.outgoing
    → FirstAnswer (handle_of i w) (head_wait w.waits) r
    → ((wait_established i w).0 ≡ r) × ((wait_established i w).1.sent ≡ w.sent)
wait_established-FirstAnswer i w r out first =
    wait_established-answer i w r out
      (first_answer-FirstAnswer (handle_of i w) (head_wait w.waits) r first)

after_hangup_known :
    (x : Result Reply) (w : World)
    → ((e : Error) → x ≡ err e → is_baresip_error e ≡ true)
    → after_hangup (outcome (stale_error x), w) ≡ (err Error.call_timeout, w)
unfolding stale_error
after_hangup_known (err e) w known = rw (known e refl)
after_hangup_known (ok r) w known = unfold is_baresip_error in ground arith

hangup_lem :
    (i : ℕ) (w : World)
    → ((e : Error) → (head_turn w.turns).reply ≡ err e → is_baresip_error e ≡ true)
    → after_hangup (hangup i w) ≡ (err Error.call_timeout, command (call_hangup (handle_of i w)) w)
unfolding hangup request
hangup_lem i w known = after_hangup_known (head_turn w.turns).reply _ known

handle-pause_waiter :
    (i : ℕ) (w : World) → handle_of i (pause (update i add_waiter w)) ≡ handle_of i w
unfolding pause deliver update
handle-pause_waiter i w = (receive_all-keeps (head_wait w.waits) _).0 ∙ ground (arith, ==_refl i)

-- On an outgoing call, with neither heard in time, the call is hung up by one command, and
-- CallTimeout is raised, where the hang-up succeeds or fails with an error of the library.
pub wait_established_timeout :
    (i : ℕ) (w : World)
    → (w.calls i).state ≡ CallState.outgoing
    → first_answer (handle_of i w) (head_wait w.waits) ≡ none
    → ((e : Error) → (head_turn w.turns).reply ≡ err e → is_baresip_error e ≡ true)
    → ((wait_established i w).0 ≡ err Error.call_timeout)
      × ((wait_established i w).1.sent ≡ w.sent ++ call_hangup (handle_of i w) ∷ [])
unfolding wait_established wait_in_state await_established settle_wait hangup request pause command
    deliver update
wait_established_timeout i w out e known =
    let v = pause (update i add_waiter w) in
    rw
      (
        out,
        wait_established,
        wait_in_state,
        e,
        await_established,
        settle_wait,
        hangup_lem i v known,
      )
      (refl, ap (λ h. w.sent ++ call_hangup h ∷ []) (handle-pause_waiter i w))
