-- ===== src/Call/Digits.antt =====
-- The digits that a peer presses, `_on_stack_event` of src/baresip/call.py: the start and the end of a
-- tone, with whatever comes in between.
use baresip_python.Base.{
  ℕ, ◌-◌, ◌/◌, ◌≡◌, refl, ◌∙◌, ap, Bool, true, false, not, ◌||◌, Option, none, some, List, [], ◌∷◌,
  ◌++◌, Text, ◌==◌, if_true, Bool-cases, inl, inr, arith, all, and_true, implied,
}
use baresip_python.Events.{StackEvent}
use baresip_python.Events.Numbering.{Event}
use baresip_python.Call.{
  Call, Arrival, learn, digit_notices, on_transfer, on_dtmf_start, on_dtmf_end, react, fan_out,
  on_stack_event, receive, receive_all,
}
use baresip_python.Call.Life.{receive_unsubscribed, receive_on, receive_other}

-- What a listener for digits depends on.
record SameKeys (c d : Call) : Type 0 where
  pressed : d.dtmf_pressed ≡ c.dtmf_pressed
  same_listeners : d.dtmf_listeners ≡ c.dtmf_listeners
  same_handle : d.handle ≡ c.handle
  subscribed : d.subscribed ≡ c.subscribed

SameKeys-refl : (c : Call) → SameKeys c c
SameKeys-refl c = record {
  pressed = refl;
  same_listeners = refl;
  same_handle = refl;
  subscribed = refl;
}

SameKeys-trans : (b c d : Call) → SameKeys b c → SameKeys c d → SameKeys b d
SameKeys-trans b c d p q = record {
  pressed = q.pressed ∙ p.pressed;
  same_listeners = q.same_listeners ∙ p.same_listeners;
  same_handle = q.same_handle ∙ p.same_handle;
  subscribed = q.subscribed ∙ p.subscribed;
}

-- An event that is neither the start or the end of a tone nor the end of the call.
abbrev pub is_silent : Event → Bool
is_silent Event.call_dtmf_start = false
is_silent Event.call_dtmf_end = false
is_silent Event.call_closed = false
is_silent _ = true

abbrev pub passes_by : ℕ → Arrival → Bool
passes_by handle a = not (a.event.call == handle) || is_silent a.event.event

on_transfer-SameKeys : (t : Option Text) (c : Call) → SameKeys c (on_transfer t c)
unfolding on_transfer
on_transfer-SameKeys none c = SameKeys-refl c
on_transfer-SameKeys (some []) c = SameKeys-refl c
on_transfer-SameKeys (some (x ∷ s)) c = record {
  pressed = refl;
  same_listeners = refl;
  same_handle = refl;
  subscribed = refl;
}

react-SameKeys :
    (now : ℕ) (ev : Event) (e : StackEvent) (c : Call)
    → is_silent ev ≡ true
    → SameKeys c (react now ev e c)
unfolding react
react-SameKeys now Event.call_transfer e c h = on_transfer-SameKeys e.text c
react-SameKeys now Event.call_dtmf_start e c h = absurd (ground arith)
react-SameKeys now Event.call_dtmf_end e c h = absurd (ground arith)
react-SameKeys now Event.call_closed e c h = absurd (ground arith)
react-SameKeys now _ e c h = record {
  pressed = refl;
  same_listeners = refl;
  same_handle = refl;
  subscribed = refl;
}

learned : StackEvent → Call → Call
learned e c = record c { call_id = learn c.call_id e.call_id; peer = learn c.peer e.peer }

-- An event of the call itself.
own_event :
    (a : Arrival) (c : Call)
    → c.subscribed ≡ true
    → (a.event.call == c.handle) ≡ true
    → receive a c ≡ (
        let d = react a.now a.event.event a.event (learned a.event c) in
        record d { notices = d.notices ++ fan_out a.event d.listeners })
unfolding on_stack_event learned
own_event a c sub own = receive_on a c sub ∙ if_true (a.event.call == c.handle) _ c own

receive-SameKeys : (a : Arrival) (c : Call) → passes_by c.handle a ≡ true → SameKeys c (receive a c)
unfolding learned
receive-SameKeys a c h = elim (Bool-cases c.subscribed) [
  | inr off ↦ rw (receive_unsubscribed a c off) (SameKeys-refl c)
  | inl sub ↦ elim (Bool-cases (a.event.call == c.handle)) [
    | inr other ↦ rw (receive_other a c other) (SameKeys-refl c)
    | inl own ↦
        let s =
          react-SameKeys a.now a.event.event a.event (learned a.event c)
            (implied (a.event.call == c.handle) (is_silent a.event.event) own h) in
        rw (own_event a c sub own) (record {
          pressed = s.pressed;
          same_listeners = s.same_listeners;
          same_handle = s.same_handle;
          subscribed = s.subscribed;
        })
  ]
]

receive_all-SameKeys :
    (arrivals : List Arrival) (handle : ℕ) (c : Call)
    → c.handle ≡ handle
    → all (passes_by handle) arrivals ≡ true
    → SameKeys c (receive_all arrivals c)
unfolding receive_all
receive_all-SameKeys [] handle c e h = SameKeys-refl c
receive_all-SameKeys (a ∷ arrivals) handle c e h =
    let (first, rest) = and_true (passes_by handle a) (all (passes_by handle) arrivals) h in
    let s = receive-SameKeys a c (ap (λ (n : ℕ). passes_by n a) e ∙ first) in
    SameKeys-trans c (receive a c) (receive_all arrivals (receive a c)) s
      (receive_all-SameKeys arrivals handle (receive a c) (s.same_handle ∙ e) rest)

-- The start of a tone is remembered with its time.
started :
    (a : Arrival) (c : Call) (x : ℕ) (s : Text)
    → c.subscribed ≡ true
    → (a.event.call == c.handle) ≡ true
    → a.event.event ≡ Event.call_dtmf_start
    → a.event.text ≡ some (x ∷ s)
    → let d = receive a c in
      (d.dtmf_pressed ≡ some (x ∷ s, a.now))
      × (d.dtmf_listeners ≡ c.dtmf_listeners)
      × (d.handle ≡ c.handle)
      × (d.subscribed ≡ true)
unfolding react on_dtmf_start learned
started a c x s sub own kind digit = rw (own_event a c sub own, kind, digit) (refl, refl, refl, sub)

-- The end of a tone that was remembered.
ended_with :
    (b : Arrival) (c : Call) (digit : Text) (t0 : ℕ)
    → c.subscribed ≡ true
    → (b.event.call == c.handle) ≡ true
    → b.event.event ≡ Event.call_dtmf_end
    → c.dtmf_pressed ≡ some (digit, t0)
    → let d = receive b c in
      (d.dtmf_pressed ≡ none)
      × (d.notices
          ≡ (c.notices
              ++ digit_notices c.dtmf_listeners
                  (record { digit = digit; duration_ms = (b.now - t0) / 1000 }))
            ++ fan_out b.event c.listeners)
unfolding react on_dtmf_end learned
ended_with b c digit t0 sub own kind held = rw (own_event b c sub own, kind, held) (refl, refl)

-- A key that the peer presses: where a subscribed call hears the start of a tone with its digit,
-- then events that are neither the start or the end of a tone nor the end of the call, or that are
-- of other calls, then the end of the tone, each listener for digits is given that digit once, with
-- the time between start and end in milliseconds, ahead of the listeners for events; and no tone is
-- remembered any more.
pub receive_all-digit :
    (start stop : Arrival) (between : List Arrival) (c : Call) (x : ℕ) (s : Text)
    → c.subscribed ≡ true
    → (start.event.call == c.handle) ≡ true
    → start.event.event ≡ Event.call_dtmf_start
    → start.event.text ≡ some (x ∷ s)
    → all (passes_by c.handle) between ≡ true
    → (stop.event.call == c.handle) ≡ true
    → stop.event.event ≡ Event.call_dtmf_end
    → let held = receive_all between (receive start c) in
      let d = receive stop held in
      (d.dtmf_pressed ≡ none)
      × (d.notices
          ≡ (held.notices
              ++ digit_notices c.dtmf_listeners
                  (record { digit = x ∷ s; duration_ms = (stop.now - start.now) / 1000 }))
            ++ fan_out stop.event held.listeners)
receive_all-digit start stop between c x s sub own kind digit quiet own' kind' =
    let (pressed, listeners, handle, up) = started start c x s sub own kind digit in
    let m = receive_all between (receive start c) in
    let k = receive_all-SameKeys between c.handle (receive start c) handle quiet in
    let (clear, told) =
      ended_with stop m (x ∷ s) start.now (k.subscribed ∙ up)
        (ap (λ (n : ℕ). stop.event.call == n) (k.same_handle ∙ handle) ∙ own') kind'
        (k.pressed ∙ pressed) in
    (
      clear,
      told
          ∙ ap
              (λ (ls : List ℕ).
                (m.notices
                  ++ digit_notices ls
                      (record { digit = x ∷ s; duration_ms = (stop.now - start.now) / 1000 }))
                ++ fan_out stop.event m.listeners)
              (k.same_listeners ∙ listeners),
    )
