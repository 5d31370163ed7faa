-- ===== src/Runtime/Sink.antt =====
-- src/baresip/_events.py and the hop to the event loop of src/baresip/runtime.py: the one sink of the
-- native callback, `_on_native_event` and `_call_threadsafe`. The sinks are those of runtimes, which
-- are numbered; whether the event loop takes a callback is an input of each event.
pub mod Counted
use baresip_python.Base.{
  ℕ, suc, ◌+◌, ◌%◌, Bool, true, false, ◌||◌, Option, none, some, List, [], ◌∷◌, ◌++◌, Text, ◌==◌,
  if◌then◌else◌,
}

pub record NativeEvent : Type 0 where
  pub ev : ℕ
  pub handle : ℕ
  pub payload : Option Text

-- What one runtime has scheduled on its event loop, `_dropped_events`, and the counts that it warned
-- of.
pub record Inbox : Type 0 where
  pub scheduled : List NativeEvent
  pub dropped_events : ℕ
  pub warned : List ℕ

-- `_sink`, the runtimes, and the events that met no sink.
pub record Channel : Type 0 where
  pub sink : Option ℕ
  pub inboxes : ℕ → Inbox
  pub unsunk : List NativeEvent

unfoldable pub is_reported : ℕ → Bool
is_reported n = (n == 1) || (n % 100 == 0)

-- The handler of the RuntimeError.
unfoldable pub drop_event : Inbox → Inbox
unfolding is_reported
drop_event b = record b {
  dropped_events = suc b.dropped_events;
  warned =
      if is_reported (suc b.dropped_events)
      then b.warned ++ suc b.dropped_events ∷ []
      else b.warned;
}

-- `_call_threadsafe` of `_dispatch`
unfoldable pub call_threadsafe : Bool → NativeEvent → Inbox → Inbox
unfolding drop_event
call_threadsafe true e b = record b { scheduled = b.scheduled ++ e ∷ [] }
call_threadsafe false e b = drop_event b

-- `set_sink` gives the sink that was there.
unfoldable pub set_sink : Option ℕ → Channel → Option ℕ × Channel
set_sink sink c = (c.sink, record c { sink = sink })

abbrev pub change_inbox : ℕ → (Inbox → Inbox) → (ℕ → Inbox) → ℕ → Inbox
change_inbox i f inboxes j = if i == j then f (inboxes j) else inboxes j

abbrev pub pass_on : Option ℕ → Bool → NativeEvent → Channel → Channel
unfolding call_threadsafe
pass_on none loop_up e c = record c { unsunk = c.unsunk ++ e ∷ [] }
pass_on (some i) loop_up e c = record c {
  inboxes = change_inbox i (call_threadsafe loop_up e) c.inboxes;
}

-- `bp_event_h` with `_on_native_event`
unfoldable pub bp_event_h : Bool → NativeEvent → Channel → Channel
unfolding pass_on
bp_event_h loop_up e c = pass_on c.sink loop_up e c
