-- ===== src/Events.antt =====
-- src/baresip/events.py: the numbering of the stack's events and the snapshot that a listener is
-- given; src/baresip/runtime.py: the build of that snapshot from an event's payload. The payload is
-- JSON written by the native encoder, so its shape is that of `EventData`: what may be missing is
-- an `Option`, and text that `json.loads` refuses is `unparseable`.
pub mod Numbering
use baresip_python.Base.{
  ℕ, zero, ◌+◌, ◌-◌, Bool, true, false, ◌||◌, Option, none, some, List, [], ◌∷◌, Text, ◌==◌,
  if◌then◌else◌, is_some, ltb,
}
use Numbering.{Event, of_number}

-- An integer of Python.
pub data ℤ : Type 0 where
  pos : ℕ → ℤ
  negsuc : ℕ → ℤ

-- A section of the statistics object: a dictionary of integers.
abbrev pub Section : Type 0
Section = List (Text × ℤ)

-- The statistics object of an event.
pub record StatsPayload : Type 0 where
  pub duration : Option ℤ
  pub setup : Option ℤ
  pub tx : Option Section
  pub rx : Option Section
  pub rtcp : Option Section
  pub jbuf : Option Section
  pub audio : Option Section

abbrev pub no_stats : StatsPayload
no_stats = record {
  duration = none;
  setup = none;
  tx = none;
  rx = none;
  rtcp = none;
  jbuf = none;
  audio = none;
}

-- The truth value of the dictionary.
unfoldable pub has_stats : StatsPayload → Bool
has_stats s =
    is_some s.duration
    || is_some s.setup
    || is_some s.tx
    || is_some s.rx
    || is_some s.rtcp
    || is_some s.jbuf
    || is_some s.audio

pub record EventData : Type 0 where
  pub ua : Option ℕ
  pub call : Option ℕ
  pub text : Option Text
  pub peer : Option Text
  pub call_id : Option Text
  pub from : Option Text
  pub to : Option Text
  pub headers : Option (List (Text × Text))
  pub stats : Option StatsPayload
  pub truncated : Option Bool

abbrev pub no_data : EventData
no_data = record {
  ua = none;
  call = none;
  text = none;
  peer = none;
  call_id = none;
  from = none;
  to = none;
  headers = none;
  stats = none;
  truncated = none;
}

-- What came with an event: nothing, empty bytes, bytes that are no JSON, or JSON.
pub data Payload (A : Type 0) : Type 0 where
  absent : Payload A
  empty : Payload A
  unparseable : Payload A
  parsed : A → Payload A

pub record StackEvent : Type 0 where
  pub event : Event
  pub handle : ℕ
  pub ua : ℕ
  pub call : ℕ
  pub text : Option Text
  pub peer : Option Text
  pub call_id : Option Text
  pub from : Option Text
  pub to : Option Text
  pub headers : List (Text × Text)
  pub stats : StatsPayload
  pub truncated : Bool

-- `data.get(key, default)`
abbrev pub get_or {ℓ} : {A : Type ℓ} → Option A → A → A
get_or none d = d
get_or (some a) d = a

unfoldable pub stack_event : Event → ℕ → EventData → StackEvent
stack_event e handle d = record {
  event = e;
  handle = handle;
  ua = get_or d.ua 0;
  call = get_or d.call 0;
  text = d.text;
  peer = d.peer;
  call_id = d.call_id;
  from = d.from;
  to = d.to;
  headers = get_or d.headers [];
  stats = get_or d.stats no_stats;
  truncated = get_or d.truncated false;
}

-- `json.loads(payload) if payload else {}`; `none` is the ValueError that the caller logs.
unfoldable pub event_data : Payload EventData → Option EventData
event_data Payload.absent = some no_data
event_data Payload.empty = some no_data
event_data Payload.unparseable = none
event_data (Payload.parsed d) = some d

-- BP_EV_BASE: stack events are numbered from here, completions of commands below.
abbrev pub bp_ev_base : ℕ
bp_ev_base = 1000

unfoldable pub decode_event : ℕ → Option EventData → Option Event → Option StackEvent
decode_event handle (some d) (some e) = some (stack_event e handle d)
decode_event handle (some d) none = none
decode_event handle none e = none

-- The event of `_deliver_stack_event`, or `none` where it logs and returns.
unfoldable pub decode : ℕ → ℕ → Payload EventData → Option StackEvent
unfolding decode_event
decode ev handle payload = decode_event handle (event_data payload) (of_number (ev - bp_ev_base))
