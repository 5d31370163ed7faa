-- ===== src/Examples/Host.antt =====
-- The runtime's threads and the logging support on concrete inputs.
use baresip_python.Base.{
  ℕ, suc, ◌≡◌, ◌≢◌, ◌≤◌, ◌<◌, ◌⊎◌, refl, ◌||◌, Bool, true, false, none, some, List, [], ◌∷◌, Text,
  codes, ltb, if◌then◌else◌, length,
}
use baresip_python.Errors.{Error, err}
use baresip_python.Call.{CallState}
use baresip_python.Logging.{CallId, LogRecord, debug, filter}
use baresip_python.Logging.Traced.{Change, traced_by, of_history, filter-traced_by}
use baresip_python.Runtime.Commands.{eagain}
use baresip_python.Runtime.Sink.{NativeEvent, Inbox, Channel, set_sink}
use baresip_python.Runtime.Sink.Counted.{
  take_events, hear_events, taken, refused, warning_count, take_events-warning_count,
  hear_events-taken, set_sink_detached,
}
use baresip_python.Runtime.Stopping.{Stop, send_stop, stop_verdict, stop_retries}
use baresip_python.Runtime.Stopping.First.{IsFirst, send_stop-IsFirst}
use baresip_python.Runtime.Watchdog.{watchdog}
use baresip_python.Runtime.Watchdog.Alarms.{timeouts, pings, watchdog_alarms-timeouts}
use baresip_python.Runtime.NativeLog.{LogRec, Line}
use baresip_python.Runtime.Teardown.{Host, close_down, undo_start, forced_teardown, die_down}
use baresip_python.Runtime.Teardown.Private.{IsTakenDown, Host-IsTakenDown}
use baresip_python.World.{Turn}
use baresip_python.Examples.Data.{world, turn}

abbrev traced_twice : List Change
traced_twice =
    Change.untraces (CallId.handle 7)
    ∷ Change.traces (CallId.text (codes "a@b"))
    ∷ Change.traces (CallId.handle 7)
    ∷ []

abbrev debug_record : LogRecord
debug_record = record {
  levelno = 10;
  call = some (CallId.handle 7);
  sip_call_id = some (CallId.text (codes "a@b"));
}

filter-traced_by_example : filter (traced_by traced_twice) debug_record ≡ (
    ltb debug 10
    || (of_history traced_twice (some (CallId.handle 7))
        || of_history traced_twice (some (CallId.text (codes "a@b")))))
filter-traced_by_example = filter-traced_by traced_twice debug_record

abbrev ring : NativeEvent
ring = record { ev = 1004; handle = 3; payload = some (codes "{}") }

abbrev empty_inbox : Inbox
empty_inbox = record { scheduled = []; dropped_events = 0; warned = [] }

abbrev attached_channel : Channel
attached_channel = record { sink = some 2; inboxes = λ i. empty_inbox; unsunk = [] }

abbrev two_events : List (Bool × NativeEvent)
two_events = (true, ring) ∷ (false, ring) ∷ []

hear_events-taken_example :
    let d = hear_events two_events attached_channel in
    ((d.inboxes 2).scheduled ≡ taken two_events)
    × ((d.inboxes 2).dropped_events ≡ 1)
    × ((j : ℕ) → 2 ≢ j → d.inboxes j ≡ empty_inbox)
    × (d.unsunk ≡ [])
hear_events-taken_example = hear_events-taken two_events 2 attached_channel refl

set_sink_detached_example :
    let d = hear_events two_events (set_sink none attached_channel).1 in
    (d.inboxes ≡ attached_channel.inboxes) × (d.unsunk ≡ ring ∷ ring ∷ [])
set_sink_detached_example = set_sink_detached two_events attached_channel

take_events-warning_count_example :
    length (take_events two_events empty_inbox).warned ≡ warning_count (refused two_events)
take_events-warning_count_example = take_events-warning_count two_events empty_inbox refl refl

-- The queue is full three times.
abbrev busy_queue : ℕ → ℕ
busy_queue n = if ltb n 3 then eagain else 0

send_stop-IsFirst_example :
    ((n : ℕ) × (n < stop_retries)
      × IsFirst busy_queue 0 n
      × (send_stop busy_queue ≡ (stop_verdict (busy_queue n), suc n)))
    ⊎ (((j : ℕ) → 0 ≤ j → j < stop_retries → busy_queue j ≡ eagain)
        × (send_stop busy_queue ≡ (Stop.stayed_full, stop_retries)))
send_stop-IsFirst_example = send_stop-IsFirst busy_queue

abbrev three_rounds : List Turn
three_rounds =
    turn []
    ∷ record { arrivals = []; reply = err Error.command_timeout }
    ∷ record { arrivals = []; reply = err Error.runtime_dead }
    ∷ []

watchdog_alarms-timeouts_example :
    let watch = watchdog three_rounds (world CallState.outgoing three_rounds []) in
    (watch.alarms ≡ timeouts three_rounds) × (watch.world.sent ≡ pings three_rounds)
watchdog_alarms-timeouts_example =
    watchdog_alarms-timeouts three_rounds (world CallState.outgoing three_rounds [])

abbrev two_records : List LogRec
two_records =
    record { level = 3; channel = 0; dropped = 0; msg = codes "no route" }
    ∷ record { level = 0; channel = 1; dropped = 5; msg = codes "INVITE" }
    ∷ []

abbrev plain_text : Text → Text
plain_text s = s

abbrev never_raises : Line → Bool
never_raises l = false

abbrev standing : Host
standing = record {
  sink_attached = true;
  log_captured = true;
  log_thread = true;
  conf_dir = some (codes "/tmp/baresip-x");
  stack_down = false;
  thread_alive = true;
  initialised = true;
}

Host-IsTakenDown_example :
    IsTakenDown standing (close_down false standing)
    × IsTakenDown standing (undo_start false standing)
    × IsTakenDown standing (forced_teardown false standing)
    × IsTakenDown standing (die_down standing)
Host-IsTakenDown_example = Host-IsTakenDown false standing
