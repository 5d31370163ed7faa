-- ===== src/Runtime/Sink/Counted.antt =====
-- Sequences of native events through the sink of src/baresip/_events.py.
use baresip_python.Base.{
  ℕ, zero, suc, ◌+◌, ◌/◌, ◌≡◌, ◌≢◌, refl, sym, subst, ◌∙◌, ap, Bool, true, false, Option, none,
  some, List, [], ◌∷◌, ◌++◌, append-nil, append_assoc, length, length-append, ◌==◌, if◌then◌else◌,
  arith, ==_refl,
}
use baresip_python.Runtime.Sink.{
  NativeEvent, Inbox, Channel, is_reported, drop_event, call_threadsafe, set_sink, change_inbox,
  pass_on, bp_event_h,
}

-- Events one after the other, each with whether the event loop takes it.
unfoldable pub take_events : List (Bool × NativeEvent) → Inbox → Inbox
unfolding call_threadsafe
take_events [] b = b
take_events ((loop_up, e) ∷ es) b = take_events es (call_threadsafe loop_up e b)

unfoldable pub hear_events : List (Bool × NativeEvent) → Channel → Channel
unfolding bp_event_h
hear_events [] c = c
hear_events ((loop_up, e) ∷ es) c = hear_events es (bp_event_h loop_up e c)

abbrev pub taken : List (Bool × NativeEvent) → List NativeEvent
taken [] = []
taken ((true, e) ∷ es) = e ∷ taken es
taken ((false, e) ∷ es) = taken es

abbrev pub refused : List (Bool × NativeEvent) → ℕ
refused [] = 0
refused ((true, e) ∷ es) = refused es
refused ((false, e) ∷ es) = suc (refused es)

-- The counts up to `n` that are told: 1 and every hundredth.
abbrev pub told : ℕ → List ℕ
unfolding is_reported
told zero = []
told (suc n) = if is_reported (suc n) then told n ++ suc n ∷ [] else told n

take_events-scheduled :
    (es : List (Bool × NativeEvent)) (b : Inbox)
    → (take_events es b).scheduled ≡ b.scheduled ++ taken es
unfolding take_events call_threadsafe drop_event
take_events-scheduled [] b = sym (append-nil b.scheduled)
take_events-scheduled ((true, e) ∷ es) b =
    take_events-scheduled es (call_threadsafe true e b)
    ∙ append_assoc b.scheduled (e ∷ []) (taken es)
take_events-scheduled ((false, e) ∷ es) b = take_events-scheduled es (drop_event b)

take_events_dropped :
    (es : List (Bool × NativeEvent)) (b : Inbox)
    → (take_events es b).dropped_events ≡ b.dropped_events + refused es
unfolding take_events call_threadsafe drop_event
take_events_dropped [] b = omega arith
take_events_dropped ((true, e) ∷ es) b = take_events_dropped es (call_threadsafe true e b)
take_events_dropped ((false, e) ∷ es) b = omega (arith, take_events_dropped es (drop_event b))

drop_event-told :
    (b : Inbox)
    → b.warned ≡ told b.dropped_events
    → (drop_event b).warned ≡ told (drop_event b).dropped_events
unfolding drop_event told
drop_event-told b h =
    let n = suc b.dropped_events in ap (λ (w : List ℕ). if is_reported n then w ++ n ∷ [] else w) h

Tells : Inbox → Type 0
Tells b = b.warned ≡ told b.dropped_events

take_events-told : (es : List (Bool × NativeEvent)) (b : Inbox) → Tells b → Tells (take_events es b)
unfolding take_events call_threadsafe Tells
take_events-told [] b h = h
take_events-told ((true, e) ∷ es) b h = take_events-told es (call_threadsafe true e b) h
take_events-told ((false, e) ∷ es) b h = take_events-told es (drop_event b) (drop_event-told b h)

-- The number of warnings: at the first event and at each hundredth.
abbrev pub warning_count : ℕ → ℕ
warning_count n = if n == 0 then 0 else 1 + n / 100

length-told : (n : ℕ) → length (told n) ≡ warning_count n
unfolding is_reported
length-told zero = refl
length-told (suc n) = ground (arith, length-told n, length-append (told n) (suc n ∷ []))

-- Whatever events come, a runtime that dropped none before has written one warning for the first
-- dropped event and one for each hundred.
pub take_events-warning_count :
    (es : List (Bool × NativeEvent)) (b : Inbox)
    → b.dropped_events ≡ 0
    → b.warned ≡ []
    → length (take_events es b).warned ≡ warning_count (refused es)
unfolding Tells told
take_events-warning_count es b zero_before silent =
    ap length (take_events-told es b (silent ∙ ap told (sym zero_before)))
    ∙ length-told (take_events es b).dropped_events
    ∙ ap warning_count (omega (arith, take_events_dropped es b, zero_before))

change_inbox_self :
    (i : ℕ) (f : Inbox → Inbox) (inboxes : ℕ → Inbox) → change_inbox i f inboxes i ≡ f (inboxes i)
change_inbox_self i f inboxes = rw (==_refl i) refl

change_inbox_ne :
    (i j : ℕ) (f : Inbox → Inbox) (inboxes : ℕ → Inbox)
    → i ≢ j
    → change_inbox i f inboxes j ≡ inboxes j
change_inbox_ne i j f inboxes ne = ground arith

-- What holds after the rest of the events holds where the event meets a known sink.
hear_events-sink :
    (P : Channel → Type 0) (sink : Option ℕ) (loop_up : Bool) (e : NativeEvent)
    (es : List (Bool × NativeEvent)) (c : Channel)
    → c.sink ≡ sink
    → P (hear_events es (pass_on sink loop_up e c))
    → P (hear_events ((loop_up, e) ∷ es) c)
unfolding hear_events bp_event_h
hear_events-sink P sink loop_up e es c attached h =
    subst (λ (s : Option ℕ). P (hear_events es (pass_on s loop_up e c))) (sym attached) h

hear_events-take :
    (es : List (Bool × NativeEvent)) (i : ℕ) (c : Channel)
    → c.sink ≡ some i
    → ((hear_events es c).inboxes i ≡ take_events es (c.inboxes i))
      × ((j : ℕ) → i ≢ j → (hear_events es c).inboxes j ≡ c.inboxes j)
      × ((hear_events es c).unsunk ≡ c.unsunk)
unfolding hear_events take_events pass_on
hear_events-take [] i c attached = (refl, (λ j ne. refl), refl)
hear_events-take ((loop_up, e) ∷ es) i c attached =
    let next = record c { inboxes = change_inbox i (call_threadsafe loop_up e) c.inboxes } in
    let (mine, others, none_lost) = hear_events-take es i next attached in
    hear_events-sink
      (λ (d : Channel).
        (d.inboxes i ≡ take_events es (call_threadsafe loop_up e (c.inboxes i)))
        × ((j : ℕ) → i ≢ j → d.inboxes j ≡ c.inboxes j)
        × (d.unsunk ≡ c.unsunk))
      (some i) loop_up e es c attached
      (
        mine ∙ ap (take_events es) (change_inbox_self i (call_threadsafe loop_up e) c.inboxes),
        (λ j ne. others j ne ∙ change_inbox_ne i j (call_threadsafe loop_up e) c.inboxes ne),
        none_lost,
      )

-- While the sink of one runtime is attached, each native event that its event loop takes is
-- scheduled on that loop once and in the order of arrival, each other one is counted as dropped, no
-- other runtime hears of it, and none is lost for want of a sink.
pub hear_events-taken :
    (es : List (Bool × NativeEvent)) (i : ℕ) (c : Channel)
    → c.sink ≡ some i
    → let d = hear_events es c in
      ((d.inboxes i).scheduled ≡ (c.inboxes i).scheduled ++ taken es)
      × ((d.inboxes i).dropped_events ≡ (c.inboxes i).dropped_events + refused es)
      × ((j : ℕ) → i ≢ j → d.inboxes j ≡ c.inboxes j)
      × (d.unsunk ≡ c.unsunk)
hear_events-taken es i c attached =
    let (mine, others, none_lost) = hear_events-take es i c attached in
    (
      ap (λ (b : Inbox). b.scheduled) mine ∙ take_events-scheduled es (c.inboxes i),
      ap (λ (b : Inbox). b.dropped_events) mine ∙ take_events_dropped es (c.inboxes i),
      others,
      none_lost,
    )

abbrev pub events_of : List (Bool × NativeEvent) → List NativeEvent
events_of [] = []
events_of ((loop_up, e) ∷ es) = e ∷ events_of es

hear_events_detached :
    (es : List (Bool × NativeEvent)) (c : Channel)
    → c.sink ≡ none
    → ((hear_events es c).inboxes ≡ c.inboxes)
      × ((hear_events es c).unsunk ≡ c.unsunk ++ events_of es)
unfolding hear_events pass_on
hear_events_detached [] c detached = (refl, sym (append-nil c.unsunk))
hear_events_detached ((loop_up, e) ∷ es) c detached =
    let (same, lost) =
      hear_events_detached es (record c { unsunk = c.unsunk ++ e ∷ [] }) detached in
    hear_events-sink
      (λ (d : Channel).
        (d.inboxes ≡ c.inboxes) × (d.unsunk ≡ c.unsunk ++ events_of ((loop_up, e) ∷ es)))
      none loop_up e es c detached (same, lost ∙ append_assoc c.unsunk (e ∷ []) (events_of es))

-- Once the sink is detached, as at the end of `close` and in front of a death, no runtime hears of a
-- native event.
pub set_sink_detached :
    (es : List (Bool × NativeEvent)) (c : Channel)
    → let d = hear_events es (set_sink none c).1 in
      (d.inboxes ≡ c.inboxes) × (d.unsunk ≡ c.unsunk ++ events_of es)
unfolding set_sink
set_sink_detached es c = hear_events_detached es (record c { sink = none }) refl
