-- ===== src/Examples/Data.antt =====
-- Test data: events, worlds and runtimes.
use baresip_python.Base.{ℕ, true, false, Option, none, List, [], Text}
use baresip_python.Errors.{ok}
use baresip_python.Events.{Payload, no_stats}
use baresip_python.Events.Numbering.{Event}
use baresip_python.Call.{Call, CallState, Arrival}
use baresip_python.Runtime.Commands.{ReplyData}
use baresip_python.Wire.{Reply}
use baresip_python.World.{World, Turn}

-- An event of the call 7 of the agent 1.
abbrev pub heard_at : ℕ → Event → Option Text → Arrival
heard_at now e text = record {
  now = now;
  event = record {
    event = e;
    handle = 0;
    ua = 1;
    call = 7;
    text = text;
    peer = none;
    call_id = none;
    from = none;
    to = none;
    headers = [];
    stats = no_stats;
    truncated = false;
  };
}

-- The call 7 as it is made, in any of its states.
abbrev pub call_in : CallState → Call
call_in s = record {
  handle = 7;
  ua_handle = 1;
  state = s;
  on_hold = false;
  remote_on_hold = false;
  transfer_pending = false;
  transfer_request = none;
  transfer_req_listeners = [];
  close_reason = none;
  listeners = [];
  warning_adapters = [];
  rtcp_adapters = [];
  next_adapter = 0;
  dtmf_listeners = [];
  dtmf_pressed = none;
  final_stats = none;
  peer = none;
  call_id = none;
  headers = [];
  subscribed = true;
  notices = [];
}

abbrev pub no_reply : ReplyData
no_reply = record {
  error = none;
  errno = none;
  handle = none;
  calls = none;
  host = none;
  ausrc = none;
  auplay = none;
}

abbrev pub clean : Reply
clean = record { ev = 0; payload = Payload.absent }

abbrev pub turn : List Arrival → Turn
turn arrivals = record { arrivals = arrivals; reply = ok clean }

-- One call, at every place of the heap.
abbrev pub world : CallState → List Turn → List (List Arrival) → World
world s turns waits = record {
  calls = λ i. call_in s;
  next_object = 1;
  sent = [];
  turns = turns;
  waits = waits;
  running = true;
  draining = false;
}
