-- ===== src/Call.antt =====
-- src/baresip/call.py: a call, its birth, and what a stack event does to it. The application's
-- callbacks are named by numbers; what they are given goes to `notices`, in order, and an exception
-- of theirs is logged and has no other effect. `subscribed` says whether the runtime's list of
-- listeners holds the call's own listener. Times are readings of the monotonic clock in
-- microseconds.
pub mod Refer
pub mod Session
pub mod Transfer
pub mod Establish
pub mod Keys
pub mod Digits
pub mod Documented
pub mod Listeners
pub mod Advance
pub mod Truth
pub mod Run
pub mod Life
use baresip_python.Base.{
  ℕ, zero, suc, ◌+◌, ◌-◌, ◌/◌, ◌≡◌, Bool, true, false, ◌&&◌, Option, none, some, List, [], ◌∷◌,
  ◌++◌, Text, codes, truthy, ◌==◌, if◌then◌else◌, starts_with,
}
use baresip_python.Events.{StackEvent, has_stats}
use baresip_python.Events.Numbering.{Event}
use baresip_python.Stats.{CallStats, from_payload}
use Refer.{TransferRequest, parse_refer_to}

pub data CallState : Type 0 where
  incoming outgoing established closed : CallState

pub record DigitEvent : Type 0 where
  pub digit : Text
  pub duration_ms : ℕ

pub data Direction : Type 0 where
  tx rx : Direction

pub record AudioWarning : Type 0 where
  pub direction : Direction
  pub message : Text

-- What `_listeners` holds: an application's callback, the adapter that `on_audio_warning` or
-- `on_rtcp` made for one (each adapter a new object, told apart by its number), and the listener of
-- a running `wait_established`.
pub data Listener : Type 0 where
  callback : ℕ → Listener
  warning_adapter rtcp_adapter : ℕ → ℕ → Listener
  waiter : Listener

pub data Notice : Type 0 where
  event_notice : ℕ → StackEvent → Notice
  request_notice : ℕ → TransferRequest → Notice
  digit_notice : ℕ → DigitEvent → Notice
  warning_notice : ℕ → AudioWarning → Notice
  rtcp_notice : ℕ → CallStats → Notice

pub record Call : Type 0 where
  pub handle : ℕ
  pub ua_handle : ℕ
  pub state : CallState
  pub on_hold : Bool
  pub remote_on_hold : Bool
  pub transfer_pending : Bool
  pub transfer_request : Option TransferRequest
  pub transfer_req_listeners : List ℕ
  pub close_reason : Option Text
  pub listeners : List Listener
  pub warning_adapters : List (ℕ × Listener)
  pub rtcp_adapters : List (ℕ × Listener)
  pub next_adapter : ℕ
  pub dtmf_listeners : List ℕ
  pub dtmf_pressed : Option (Text × ℕ)
  pub final_stats : Option CallStats
  pub peer : Option Text
  pub call_id : Option Text
  pub headers : List (Text × Text)
  pub subscribed : Bool
  pub notices : List Notice

-- `Call.__init__`
unfoldable pub birth : ℕ → ℕ → CallState → Option Text → Option Text → List (Text × Text) → Call
birth handle ua_handle state peer call_id headers = record {
  handle = handle;
  ua_handle = ua_handle;
  state = state;
  on_hold = false;
  remote_on_hold = false;
  transfer_pending = false;
  transfer_request = none;
  transfer_req_listeners = [];
  close_reason = none;
  listeners = [];
  warning_adapters = [];
  rtcp_adapters = [];
  next_adapter = 0;
  dtmf_listeners = [];
  dtmf_pressed = none;
  final_stats = none;
  peer = peer;
  call_id = call_id;
  headers = headers;
  subscribed = true;
  notices = [];
}

-- `Call._from_incoming`
unfoldable pub from_incoming : StackEvent → Call
unfolding birth
from_incoming e = birth e.call e.ua CallState.incoming e.peer e.call_id e.headers

-- `if self.x is None and event.x: self.x = event.x`
abbrev pub learn : Option Text → Option Text → Option Text
learn (some x) new = some x
learn none none = none
learn none (some []) = none
learn none (some (c ∷ s)) = some (c ∷ s)

abbrev pub request_notices : List ℕ → TransferRequest → List Notice
request_notices [] r = []
request_notices (l ∷ ls) r = request_notice l r ∷ request_notices ls r

abbrev pub digit_notices : List ℕ → DigitEvent → List Notice
digit_notices [] d = []
digit_notices (l ∷ ls) d = digit_notice l d ∷ digit_notices ls d

-- CALL_TRANSFER
unfoldable pub on_transfer : Option Text → Call → Call
on_transfer none c = c
on_transfer (some []) c = c
on_transfer (some (x ∷ s)) c = record c {
  transfer_request = some (parse_refer_to (x ∷ s));
  notices = c.notices ++ request_notices c.transfer_req_listeners (parse_refer_to (x ∷ s));
}

-- CALL_CLOSED
unfoldable pub on_closed : StackEvent → Call → Call
on_closed e c = record c {
  state = CallState.closed;
  close_reason = e.text;
  final_stats = if has_stats e.stats then some (from_payload e.stats) else c.final_stats;
  subscribed = false;
}

-- CALL_DTMF_START
unfoldable pub on_dtmf_start : ℕ → Option Text → Call → Call
on_dtmf_start now none c = c
on_dtmf_start now (some []) c = c
on_dtmf_start now (some (x ∷ s)) c = record c { dtmf_pressed = some (x ∷ s, now) }

-- CALL_DTMF_END: `pressed` is what `_dtmf_pressed` held.
unfoldable pub on_dtmf_end : ℕ → Option (Text × ℕ) → Call → Call
on_dtmf_end now none c = record c { dtmf_pressed = none }
on_dtmf_end now (some (digit, t0)) c = record c {
  dtmf_pressed = none;
  notices =
      c.notices
      ++ digit_notices c.dtmf_listeners (record { digit = digit; duration_ms = (now - t0) / 1000 });
}

-- The chain of `if`s of `_on_stack_event`.
unfoldable pub react : ℕ → Event → StackEvent → Call → Call
unfolding on_transfer on_closed on_dtmf_start on_dtmf_end
react now Event.call_established e c = record c { state = CallState.established }
react now Event.call_hold e c = record c { remote_on_hold = true }
react now Event.call_resume e c = record c { remote_on_hold = false }
react now Event.call_transfer e c = on_transfer e.text c
react now Event.call_transfer_failed e c = record c { transfer_request = none }
react now Event.call_closed e c = on_closed e c
react now Event.call_dtmf_start e c = on_dtmf_start now e.text c
react now Event.call_dtmf_end e c = on_dtmf_end now c.dtmf_pressed c
react now other e c = c

-- The adapter of `on_audio_warning`.
unfoldable pub warn : ℕ → Event → Option Text → List Notice
warn l Event.audio_warning (some (x ∷ s)) =
    warning_notice l (record {
      direction = if starts_with (x ∷ s) (codes "transmit") then Direction.tx else Direction.rx;
      message = x ∷ s;
    })
    ∷ []
warn l other text = []

-- The adapter of `on_rtcp`.
unfoldable pub report : ℕ → Event → StackEvent → List Notice
report l Event.call_rtcp e =
    if has_stats e.stats then rtcp_notice l (from_payload e.stats) ∷ [] else []
report l other e = []

-- What one listener is given; the listener of `wait_established` tells nobody.
unfoldable pub tell : StackEvent → Listener → List Notice
unfolding warn report
tell e (callback l) = event_notice l e ∷ []
tell e (warning_adapter l n) = warn l e.event e.text
tell e (rtcp_adapter l n) = report l e.event e
tell e waiter = []

unfoldable pub fan_out : StackEvent → List Listener → List Notice
unfolding tell
fan_out e [] = []
fan_out e (l ∷ ls) = tell e l ++ fan_out e ls

abbrev pub notify : StackEvent → Call → Call
notify e c = record c { notices = c.notices ++ fan_out e c.listeners }

-- `_on_stack_event`
unfoldable pub on_stack_event : ℕ → StackEvent → Call → Call
unfolding react fan_out
on_stack_event now e c =
    if e.call == c.handle
    then notify e (
        react now e.event e
          (record c { call_id = learn c.call_id e.call_id; peer = learn c.peer e.peer }))
    else c

-- An event, at the time of its delivery.
pub record Arrival : Type 0 where
  pub now : ℕ
  pub event : StackEvent

-- The runtime delivers an event to those who are subscribed.
unfoldable pub receive : Arrival → Call → Call
receive a c = if c.subscribed then on_stack_event a.now a.event c else c

unfoldable pub receive_all : List Arrival → Call → Call
receive_all [] c = c
receive_all (a ∷ rest) c = receive_all rest (receive a c)
