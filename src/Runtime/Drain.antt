-- ===== src/Runtime/Drain.antt =====
-- `drain` of src/baresip/runtime.py, and the dialing that it turns off.
pub mod Quiet
use baresip_python.Base.{
  ℕ, zero, suc, Bool, true, false, not, Option, none, some, List, [], ◌∷◌, ◌==◌, if◌then◌else◌,
}
use baresip_python.Errors.{Error, Result, ok, err}
use baresip_python.Events.{Payload}
use baresip_python.Runtime.Commands.{ReplyData}
use baresip_python.Call.Session.{Method}
use baresip_python.Wire.{Command, Reply, set_drain, call_count}
use baresip_python.World.{World, Turn, head_turn, command, pause}

-- `json.loads(payload)["calls"] == 0`
unfoldable pub is_idle : Result Reply → Result Bool
is_idle (err e) = err e
is_idle (ok r) = elim r.payload [
  | Payload.absent ↦ err Error.type_error
  | Payload.empty ↦ err Error.value_error
  | Payload.unparseable ↦ err Error.value_error
  | Payload.parsed d ↦ elim d.calls [ some n ↦ ok (n == 0) | none ↦ err Error.key_error ]
]

abbrev pub next_round : Result Bool → Result (Unit {0}) × World → Method (Unit {0})
next_round (err e) rest w = (err e, w)
next_round (ok true) rest w = (ok tt, w)
next_round (ok false) rest w = rest

-- The loop, which takes a turn in each round; with no turn left, the command meets its timeout.
unfoldable pub poll : List Turn → Method (Unit {0})
unfolding is_idle
poll [] w = (err Error.command_timeout, command call_count w)
poll (t ∷ turns) w =
    let rest = poll turns (pause (command call_count w)) in
    next_round (is_idle t.reply) rest (command call_count w)

abbrev pub start_draining : World → World
start_draining w = record w { draining = true }

abbrev pub after_set_drain : Result Reply → Method (Unit {0})
unfolding poll
after_set_drain (err e) w = (err e, w)
after_set_drain (ok r) w = poll w.turns w

-- `drain`
unfoldable pub drain : Method (Unit {0})
unfolding after_set_drain poll
drain w =
    if not w.running
    then (err Error.baresip_error, w)
    else if w.draining
    then poll w.turns w
    else after_set_drain (head_turn w.turns).reply (command set_drain (start_draining w))
