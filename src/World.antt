-- ===== src/World.antt =====
-- A coroutine of the library at work: the objects that it shares with the rest of the program, the
-- commands that it has sent, and what the environment answers. Where a coroutine awaits a command,
-- the environment's next turn says which stack events are delivered meanwhile and what `cmd`
-- returns or raises; where it awaits a future with a timeout or sleeps, the next wait says which
-- events are delivered until it resumes. With no turn left, the command meets its timeout; with no
-- wait left, nothing is delivered. Other coroutines do not run in between.
use baresip_python.Base.{ℕ, ◌+◌, Bool, Option, none, some, List, [], ◌∷◌, ◌++◌, ◌==◌, if◌then◌else◌}
use baresip_python.Errors.{Error, Result, ok, err}
use baresip_python.Events.{Payload}
use baresip_python.Call.{Call, Arrival, receive_all}
use baresip_python.Runtime.Commands.{ReplyData}
use baresip_python.Wire.{Command, Reply, stale_handle}

pub record Turn : Type 0 where
  pub arrivals : List Arrival
  pub reply : Result Reply

-- `calls` is the heap of Call objects; `running` and `draining` are those of the runtime.
pub record World : Type 0 where
  pub calls : ℕ → Call
  pub next_object : ℕ
  pub sent : List Command
  pub turns : List Turn
  pub waits : List (List Arrival)
  pub running : Bool
  pub draining : Bool

-- Every object hears every event.
unfoldable pub deliver : List Arrival → World → World
deliver arrivals w = record w { calls = λ i. receive_all arrivals (w.calls i) }

abbrev pub head_turn : List Turn → Turn
head_turn [] = record { arrivals = []; reply = err Error.command_timeout }
head_turn (t ∷ ts) = t

abbrev pub rest_turns : List Turn → List Turn
rest_turns [] = []
rest_turns (t ∷ ts) = ts

abbrev pub head_wait : List (List Arrival) → List Arrival
head_wait [] = []
head_wait (w ∷ ws) = w

abbrev pub rest_waits : List (List Arrival) → List (List Arrival)
rest_waits [] = []
rest_waits (w ∷ ws) = ws

-- `await self._runtime.cmd(...)`: the world when the coroutine resumes with `(head_turn w.turns)`.
unfoldable pub command : Command → World → World
unfolding deliver
command c w =
    deliver (head_turn w.turns).arrivals
      (record w { sent = w.sent ++ c ∷ []; turns = rest_turns w.turns })

-- An `await` of a future or of `asyncio.sleep`.
unfoldable pub pause : World → World
unfolding deliver
pause w = deliver (head_wait w.waits) (record w { waits = rest_waits w.waits })

-- `self.x = …` on the object `i`.
unfoldable pub update : ℕ → (Call → Call) → World → World
update i f w = record w { calls = λ j. if i == j then f (w.calls j) else w.calls j }

-- A new object, at the next place of the heap.
unfoldable pub allocate : Call → World → World
allocate c w = record w {
  calls = λ j. if w.next_object == j then c else w.calls j;
  next_object = w.next_object + 1;
}

-- `json.loads(payload)` raises, or the command failed with an error number.
unfoldable pub failure : Payload ReplyData → Option Error
failure Payload.absent = none
failure Payload.empty = some Error.value_error
failure Payload.unparseable = some Error.value_error
failure (Payload.parsed d) = some Error.baresip_error

-- The checks behind most commands: a stale handle, then a payload, which is an error's.
unfoldable pub reply_error : Result Reply → Option Error
unfolding failure
reply_error (err e) = some e
reply_error (ok r) =
    if r.ev == stale_handle then some Error.stale_handle_error else failure r.payload
