-- ===== src/Call/Transfer/Outcome.antt =====
-- What a blind transfer ends with, and what it leaves of the call.
use baresip_python.Base.{
  ℕ, ◌≡◌, refl, sym, ◌∙◌, ap, Bool, true, false, Option, none, some, List, [], ◌∷◌, ◌++◌, Text,
  ◌==◌, if◌then◌else◌, any, arith, Bool-cases, Option-cases, inl, inr, ==_refl, append-nil, subst,
  if_true, ◌≢◌, or_empty,
}
use baresip_python.Errors.{Error, Result, ok, err, split_status, with_status}
use baresip_python.Events.Numbering.{Event}
use baresip_python.Call.{Call, CallState, Arrival, receive_all}
use baresip_python.Call.Life.{is_closed, concerns, state-receive_all}
use baresip_python.Call.Advance.{SameLife, receive_all-append}
use baresip_python.Call.Session.{handle_of, is_up}
use baresip_python.Call.Session.Hold.{handle-command}
use baresip_python.Call.Transfer.{
  transfer_verdict, raised_verdict, or_later, first_verdict, set_pending, transfer_error,
  or_no_outcome, await_verdict, await_outcome, execute_transfer, bad_target, transfer,
}
use baresip_python.Wire.{Command, call_transfer}
use baresip_python.World.{World, head_turn, head_wait, command, pause, update, deliver}

first_verdict-append :
    (h : ℕ) (early later : List Arrival)
    → first_verdict h (early ++ later) ≡ or_later (first_verdict h early) (first_verdict h later)
unfolding first_verdict
first_verdict-append h [] later = refl
first_verdict-append h (a ∷ early) later =
    elim (Option-cases
      (if a.event.call == h then transfer_verdict a.event.event a.event.text else none)) [
        | inl e ↦ rw (e, first_verdict) (first_verdict-append h early later)
        | inr (r, e) ↦ rw (e, first_verdict)
      ]

raised_verdict_fails : (x : Result Error) → raised_verdict x ≢ some (ok tt)
raised_verdict_fails (ok e) h = cc
raised_verdict_fails (err e) h = cc

verdict-closed :
    (ev : Event) (t : Option Text) → transfer_verdict ev t ≡ some (ok tt) → is_closed ev ≡ true
unfolding transfer_verdict is_closed
verdict-closed Event.call_closed t e = refl
verdict-closed Event.call_transfer_failed t e =
    absurd (raised_verdict_fails (with_status _ (split_status (or_empty t))) e)
verdict-closed _ t e = cc

-- A success among the events is the end of the call among the events.
first_verdict-closed :
    (h : ℕ) (later : List Arrival)
    → first_verdict h later ≡ some (ok tt)
    → any (concerns h is_closed) later ≡ true
unfolding first_verdict
first_verdict-closed h [] e = cc
first_verdict-closed h (a ∷ later) e = elim (Bool-cases (a.event.call == h)) [
  | inr other ↦ ground (arith, first_verdict-closed h later (rw (other, first_verdict) at e))
  | inl own ↦ elim (Option-cases (transfer_verdict a.event.event a.event.text)) [
    | inl nothing ↦
        ground (arith, first_verdict-closed h later (rw (own, first_verdict, nothing) at e))
    | inr (r, something) ↦ ground (
      arith,
      verdict-closed a.event.event a.event.text
          (something ∙ (rw (own, first_verdict, something) at e)),
    )
  ]
]

-- The events that a transfer hears: those of the command's await and, if they settle nothing,
-- those of the wait behind it.
abbrev pub heard : ℕ → World → List Arrival
heard i w = (head_turn w.turns).arrivals ++ head_wait w.waits

handle-update_pending :
    (i : ℕ) (p : Bool) (w : World) → handle_of i (update i (set_pending p) w) ≡ handle_of i w
unfolding update
handle-update_pending i p w = ground (arith, ==_refl i)

await_verdict-first :
    (i : ℕ) (early : List Arrival) (w : World)
    → (await_verdict i (first_verdict (handle_of i w) early) w).0
      ≡ or_no_outcome (first_verdict (handle_of i w) (early ++ head_wait w.waits))
unfolding await_verdict
await_verdict-first i early w =
    rw (first_verdict-append (handle_of i w) early (head_wait w.waits))
      (elim (Option-cases (first_verdict (handle_of i w) early)) [
        | inl e ↦ rw (e, await_verdict)
        | inr (r, e) ↦ rw (e, await_verdict)
      ])

waits-command : (c : Command) (w : World) → (command c w).waits ≡ w.waits
unfolding command deliver
waits-command c w = refl

-- A transfer to a well-formed target, on an established call with no transfer in progress and with
-- a clean reply to its command, ends with the first outcome among the events that it hears: its
-- success, the reported failure, or the end of the call for another reason; with none it raises
-- TransferFailed.
pub transfer-first_verdict :
    (i : ℕ) (uri : Text) (w : World)
    → bad_target uri ≡ false
    → is_up (w.calls i).state ≡ true
    → (w.calls i).transfer_pending ≡ false
    → transfer_error (head_turn w.turns).reply ≡ none
    → (transfer i uri w).0 ≡ or_no_outcome (first_verdict (handle_of i w) (heard i w))
unfolding transfer execute_transfer await_outcome update first_verdict command
transfer-first_verdict i uri w fine up free clean =
    let v = command (call_transfer (handle_of i w) uri) (update i (set_pending true) w) in
    let same : handle_of i v ≡ handle_of i w =
      handle-command (call_transfer (handle_of i w) uri) i (update i (set_pending true) w)
      ∙ handle-update_pending i true w in
    rw (fine, transfer, up, free, execute_transfer, clean, await_outcome)
      (await_verdict-first i (head_turn w.turns).arrivals v
        ∙ ap (λ h. or_no_outcome (first_verdict h (heard i w))) same)

set_pending-SameLife :
    (i : ℕ) (p : Bool) (w : World) → SameLife ((update i (set_pending p) w).calls i) (w.calls i)
unfolding update
set_pending-SameLife i p w = record {
  state = ground (arith, ==_refl i);
  subscribed = ground (arith, ==_refl i);
  handle = ground (arith, ==_refl i);
}

-- The call, when a transfer of it is over, has been through the events of the command's await.
abbrev await_arrivals : Option (Result (Unit {0})) → World → List Arrival
await_arrivals (some r) w = []
await_arrivals none w = head_wait w.waits

await_verdict-calls :
    (i : ℕ) (o : Option (Result (Unit {0}))) (w : World)
    → (await_verdict i o w).1.calls i ≡ receive_all (await_arrivals o w) (w.calls i)
unfolding await_verdict pause deliver receive_all
await_verdict-calls i none w = refl
await_verdict-calls i (some r) w = refl

-- A success is among the events that the wait consumed.
verdict_consumed :
    (i : ℕ) (early : List Arrival) (w : World)
    → (await_verdict i (first_verdict (handle_of i w) early) w).0 ≡ ok tt
    → any
        (concerns (handle_of i w) is_closed)
        (early ++ await_arrivals (first_verdict (handle_of i w) early) w)
      ≡ true
unfolding await_verdict
verdict_consumed i early w e = elim (Option-cases (first_verdict (handle_of i w) early)) [
  | inl nothing ↦ rw nothing (
      first_verdict-closed (handle_of i w) (early ++ head_wait w.waits) (
        first_verdict-append (handle_of i w) early (head_wait w.waits)
        ∙ rw nothing (success _ (rw (nothing, await_verdict) at e))))
  | inr (r, something) ↦
      rw (something, append-nil)
        (first_verdict-closed (handle_of i w) early
          (something ∙ ap some (rw (something, await_verdict) at e)))
]
  where
    success : (o : Option (Result (Unit {0}))) → or_no_outcome o ≡ ok tt → o ≡ some (ok tt)
    success none h = cc
    success (some r) h = ap some h

consumed_closed :
    (i : ℕ) (c : Command) (u : World)
    → (u.calls i).subscribed ≡ true
    → let v = command c u in
      let o = first_verdict (handle_of i v) (head_turn u.turns).arrivals in
      (await_verdict i o v).0 ≡ ok tt → ((await_verdict i o v).1.calls i).state ≡ CallState.closed
unfolding command deliver
consumed_closed i c u sub done =
    let early = (head_turn u.turns).arrivals in
    let v = command c u in
    let o = first_verdict (handle_of i v) early in
    let over = verdict_consumed i early v done in
    let ended : any (concerns (handle_of i u) is_closed) (early ++ await_arrivals o v) ≡ true =
      subst (λ h. any (concerns h is_closed) (early ++ await_arrivals o v) ≡ true)
        (handle-command c i u) over in
    ap (λ (x : Call). x.state)
      (await_verdict-calls i o v ∙ sym (receive_all-append early (await_arrivals o v) (u.calls i)))
    ∙ state-receive_all (early ++ await_arrivals o v) (u.calls i) sub
    ∙ if_true _ CallState.closed _ ended

-- A transfer that returns leaves its call closed, if the call was listening to the stack.
pub transfer-closed :
    (i : ℕ) (uri : Text) (w : World)
    → (w.calls i).subscribed ≡ true
    → (transfer i uri w).0 ≡ ok tt
    → ((transfer i uri w).1.calls i).state ≡ CallState.closed
unfolding transfer execute_transfer await_outcome update
transfer-closed i uri w sub done = elim (Bool-cases (bad_target uri)) [
  | inl bad ↦ absurd (ground arith)
  | inr fine ↦ elim (Bool-cases (is_up (w.calls i).state)) [
    | inr down ↦ absurd (ground arith)
    | inl up ↦ elim (Bool-cases (w.calls i).transfer_pending) [
      | inl busy ↦ absurd (ground arith)
      | inr free ↦ elim (Option-cases (transfer_error (head_turn w.turns).reply)) [
        | inr (x, failed) ↦ absurd (ground arith)
        | inl clean ↦
            let same = set_pending-SameLife i true w in
            let sent = call_transfer (handle_of i w) uri in
            let u = update i (set_pending true) w in
            let v = command sent u in
            let left =
              await_verdict i (first_verdict (handle_of i v) (head_turn u.turns).arrivals) v in
            rw (fine, transfer, up, free, execute_transfer, clean, await_outcome)
              ((set_pending-SameLife i false left.1).state
                ∙ consumed_closed i sent u (same.subscribed ∙ sub)
                    (rw (fine, transfer, up, free, execute_transfer, clean, await_outcome) at done))
      ]
    ]
  ]
]

-- Whatever a transfer ends with, it leaves the mark of a transfer in progress as it found it.
pub transfer_pending-transfer :
    (i : ℕ) (uri : Text) (w : World)
    → ((transfer i uri w).1.calls i).transfer_pending ≡ (w.calls i).transfer_pending
unfolding transfer execute_transfer update
transfer_pending-transfer i uri w = elim (Bool-cases (bad_target uri)) [
  | inl bad ↦ rw (bad, transfer)
  | inr fine ↦ elim (Bool-cases (is_up (w.calls i).state)) [
    | inr down ↦ rw (fine, transfer, down)
    | inl up ↦ elim (Bool-cases (w.calls i).transfer_pending) [
      | inl busy ↦ ground arith
      | inr free ↦ ground (arith, ==_refl i)
    ]
  ]
]
