-- ===== src/Call/Life.antt =====
-- A call under the stack's events, src/baresip/call.py.
use baresip_python.Base.{
  ℕ, ◌≡◌, refl, ◌∙◌, Bool, true, false, ◌&&◌, Option, none, some, List, [], ◌∷◌, Text, ◌==◌,
  if◌then◌else◌, any, arith, Bool-cases, inl, inr, ◌↔◌, if_true,
}
use baresip_python.Events.{StackEvent}
use baresip_python.Events.Numbering.{Event}
use baresip_python.Call.{
  Call, CallState, Arrival, learn, on_transfer, on_closed, on_dtmf_start, on_dtmf_end, react,
  on_stack_event, receive, receive_all,
}

-- The events that report a transition.
unfoldable pub is_closed : Event → Bool
is_closed Event.call_closed = true
is_closed _ = false

unfoldable pub is_established : Event → Bool
is_established Event.call_established = true
is_established _ = false

-- An arrival for the call `handle` whose event passes `test`.
abbrev pub concerns : ℕ → (Event → Bool) → Arrival → Bool
concerns handle test a = (a.event.call == handle) && test a.event.event

on_transfer-keeps :
    (t : Option Text) (c : Call)
    → ((on_transfer t c).state ≡ c.state)
      × ((on_transfer t c).subscribed ≡ c.subscribed)
      × ((on_transfer t c).handle ≡ c.handle)
      × ((on_transfer t c).on_hold ≡ c.on_hold)
unfolding on_transfer
on_transfer-keeps none c = (refl, refl, refl, refl)
on_transfer-keeps (some []) c = (refl, refl, refl, refl)
on_transfer-keeps (some (x ∷ s)) c = (refl, refl, refl, refl)

on_dtmf_start-keeps :
    (now : ℕ) (t : Option Text) (c : Call)
    → ((on_dtmf_start now t c).state ≡ c.state)
      × ((on_dtmf_start now t c).subscribed ≡ c.subscribed)
      × ((on_dtmf_start now t c).handle ≡ c.handle)
      × ((on_dtmf_start now t c).on_hold ≡ c.on_hold)
unfolding on_dtmf_start
on_dtmf_start-keeps now none c = (refl, refl, refl, refl)
on_dtmf_start-keeps now (some []) c = (refl, refl, refl, refl)
on_dtmf_start-keeps now (some (x ∷ s)) c = (refl, refl, refl, refl)

on_dtmf_end-keeps :
    (now : ℕ) (p : Option (Text × ℕ)) (c : Call)
    → ((on_dtmf_end now p c).state ≡ c.state)
      × ((on_dtmf_end now p c).subscribed ≡ c.subscribed)
      × ((on_dtmf_end now p c).handle ≡ c.handle)
      × ((on_dtmf_end now p c).on_hold ≡ c.on_hold)
unfolding on_dtmf_end
on_dtmf_end-keeps now none c = (refl, refl, refl, refl)
on_dtmf_end-keeps now (some (d, t0)) c = (refl, refl, refl, refl)

abbrev pub after_event : Event → CallState → CallState
after_event ev s =
    if is_closed ev
    then CallState.closed
    else if is_established ev
    then CallState.established
    else s

-- What an event does to the state and the subscription; the handle and our hold stay.
abbrev pub Reacts : Event → Call → Call → Type 0
Reacts ev c d =
    (d.state ≡ after_event ev c.state)
    × (d.subscribed ≡ (if is_closed ev then false else c.subscribed))
    × (d.handle ≡ c.handle)
    × (d.on_hold ≡ c.on_hold)

react_lem : (now : ℕ) (ev : Event) (e : StackEvent) (c : Call) → Reacts ev c (react now ev e c)
unfolding react is_closed is_established on_closed
react_lem now Event.call_transfer e c = on_transfer-keeps e.text c
react_lem now Event.call_dtmf_start e c = on_dtmf_start-keeps now e.text c
react_lem now Event.call_dtmf_end e c = on_dtmf_end-keeps now c.dtmf_pressed c
react_lem now _ e c = (refl, refl, refl, refl)

-- The call itself, as an event about it finds it.
abbrev learned : StackEvent → Call → Call
learned e c = record c { call_id = learn c.call_id e.call_id; peer = learn c.peer e.peer }

on_stack_event_own :
    (now : ℕ) (e : StackEvent) (c : Call)
    → (e.call == c.handle) ≡ true
    → Reacts e.event c (on_stack_event now e c)
unfolding on_stack_event
on_stack_event_own now e c own = rw (own, on_stack_event) (react_lem now e.event e (learned e c))

on_stack_event_other :
    (now : ℕ) (e : StackEvent) (c : Call)
    → (e.call == c.handle) ≡ false
    → on_stack_event now e c ≡ c
unfolding on_stack_event
on_stack_event_other now e c other = rw (other, on_stack_event)

pub receive_unsubscribed : (a : Arrival) (c : Call) → c.subscribed ≡ false → receive a c ≡ c
unfolding receive
receive_unsubscribed a c h = rw (h, receive)

pub receive_all_unsubscribed :
    (later : List Arrival) (c : Call) → c.subscribed ≡ false → receive_all later c ≡ c
unfolding receive_all
receive_all_unsubscribed [] c h = refl
receive_all_unsubscribed (a ∷ later) c h =
    rw (receive_unsubscribed a c h) (receive_all_unsubscribed later c h)

pub receive_on :
    (a : Arrival) (c : Call) → c.subscribed ≡ true → receive a c ≡ on_stack_event a.now a.event c
unfolding receive
receive_on a c sub = if_true c.subscribed (on_stack_event a.now a.event c) c sub

pub receive_own :
    (a : Arrival) (c : Call)
    → c.subscribed ≡ true
    → (a.event.call == c.handle) ≡ true
    → Reacts a.event.event c (receive a c)
receive_own a c sub own = rw (receive_on a c sub) (on_stack_event_own a.now a.event c own)

pub receive_other : (a : Arrival) (c : Call) → (a.event.call == c.handle) ≡ false → receive a c ≡ c
unfolding receive
receive_other a c other = ground (arith, on_stack_event_other a.now a.event c other)

-- Where a call stands after events, from its state before and the events alone.
abbrev pub reported : ℕ → CallState → List Arrival → CallState
reported handle s later =
    if any (concerns handle is_closed) later
    then CallState.closed
    else if any (concerns handle is_established) later
    then CallState.established
    else s

-- After any events, a subscribed call is closed if one of them reported its end, else established
-- if one reported that, else as it was. Events about other calls do not count.
pub state-receive_all :
    (later : List Arrival) (c : Call)
    → c.subscribed ≡ true
    → (receive_all later c).state ≡ reported c.handle c.state later
unfolding receive_all
state-receive_all [] c sub = refl
state-receive_all (a ∷ later) c sub = elim (Bool-cases (a.event.call == c.handle)) [
  | inr other ↦
      ground (arith, receive_other a c other, state-receive_all later (receive a c), other)
  | inl own ↦ elim (Bool-cases (is_closed a.event.event)) [
    | inl last ↦
        let (st, su, hd, oh) = receive_own a c sub own in
        ground (arith, receive_all_unsubscribed later (receive a c), st, su)
    | inr more ↦
        let (st, su, hd, oh) = receive_own a c sub own in
        ground (arith, state-receive_all later (receive a c), st, su, hd)
  ]
]

-- The end of a call is final: once CALL_CLOSED has reached a subscribed call, it is closed with
-- that event's text for its reason, and no later event changes anything in it.
pub receive_all-closed :
    (a : Arrival) (later : List Arrival) (c : Call)
    → c.subscribed ≡ true
    → a.event.call ≡ c.handle
    → a.event.event ≡ Event.call_closed
    → (receive_all later (receive a c) ≡ receive a c)
      × ((receive a c).state ≡ CallState.closed)
      × ((receive a c).close_reason ≡ a.event.text)
unfolding receive on_stack_event react on_closed is_closed
receive_all-closed a later c sub own last =
    let here : (a.event.call == c.handle) ≡ true = ground arith in
    (
      receive_all_unsubscribed later (receive a c)
          (rw (sub, receive, here, on_stack_event, last, react)),
      rw (sub, receive, here, on_stack_event, last, react),
      rw (sub, receive, here, on_stack_event, last, react),
    )

-- A call is closed exactly when it no longer listens.
abbrev pub IsTruthful : Call → Type 0
IsTruthful c = (c.state ≡ CallState.closed) ↔ (c.subscribed ≡ false)

receive-IsTruthful : (a : Arrival) (c : Call) → IsTruthful c → IsTruthful (receive a c)
receive-IsTruthful a c v = elim (Bool-cases c.subscribed) [
  | inr off ↦ rw (receive_unsubscribed a c off) v
  | inl sub ↦ elim (Bool-cases (a.event.call == c.handle)) [
    | inr other ↦ rw (receive_other a c other) v
    | inl own ↦
        let (st, su, hd, oh) = receive_own a c sub own in
        let open_before = v.0 in
        elim (Bool-cases (is_closed a.event.event)) [
          | inl last ↦ (λ e. rw su (rw last), λ e. rw st (rw last))
          | inr more ↦ (λ e. ground (arith, st, su), λ e. ground (arith, st, su))
        ]
  ]
]

-- If a call is closed exactly when it no longer listens, then that is so after any events.
pub receive_all-IsTruthful :
    (later : List Arrival) (c : Call) → IsTruthful c → IsTruthful (receive_all later c)
unfolding receive_all
receive_all-IsTruthful [] c v = v
receive_all-IsTruthful (a ∷ later) c v =
    receive_all-IsTruthful later (receive a c) (receive-IsTruthful a c v)

-- Events change neither the handle nor our own hold.
pub receive_all-keeps :
    (later : List Arrival) (c : Call)
    → ((receive_all later c).handle ≡ c.handle) × ((receive_all later c).on_hold ≡ c.on_hold)
unfolding receive_all
receive_all-keeps [] c = (refl, refl)
receive_all-keeps (a ∷ later) c = elim (Bool-cases c.subscribed) [
  | inr off ↦ rw (receive_all, receive_unsubscribed a c off) (receive_all-keeps later c)
  | inl sub ↦ elim (Bool-cases (a.event.call == c.handle)) [
    | inr other ↦ rw (receive_all, receive_other a c other) (receive_all-keeps later c)
    | inl own ↦
        let (st, su, hd, oh) = receive_own a c sub own in
        let (hd', oh') = receive_all-keeps later (receive a c) in (hd' ∙ hd, oh' ∙ oh)
  ]
]
