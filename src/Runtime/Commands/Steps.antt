-- ===== src/Runtime/Commands/Steps.antt =====
-- The steps of the command half of src/baresip/runtime.py, in any order, and the states reached.
use baresip_python.Base.{
  ℕ, ◌-◌, ◌<◌, ◌≡◌, Bool, true, false, Option, none, some, [], Text, ◌⊎◌, length,
}
use baresip_python.Errors.{Error}
use baresip_python.Events.{Payload, EventData}
use baresip_python.Runtime.Sequence.{seq_mod}
use baresip_python.Runtime.Commands.{
  ReplyData, State, Outcome, Runtime, keys, find, send, expire, cancel, give_up, subscribe,
  unsubscribe, dispatch, fail_pending, die,
}

-- The errors of the library that are about the runtime itself.
abbrev pub is_command_error : Error → Bool
is_command_error Error.baresip_error = true
is_command_error Error.command_queue_full = true
is_command_error Error.command_timeout = true
is_command_error Error.runtime_dead = true
is_command_error _ = false

-- What the loop, the SIP thread and the callers do to the runtime, in any order. A task that is
-- cancelled when its future is done, but before its own next turn, keeps its outcome here.
pub data Step (r : Runtime) : Runtime → Type 0 where
  sends :
      (args : Option Text) (push_err : ℕ)
      → length (keys r.pending) < seq_mod - 1
      → Step r (send r args push_err)
  dispatches :
      (ev handle : ℕ) (reply : Payload ReplyData) (event : Payload EventData)
      → Step r (dispatch r ev handle reply event)
  expires : (call : ℕ) → Step r (expire r call)
  cancels : (call : ℕ) → Step r (cancel r call)
  gives_up :
      (seq call : ℕ)
      → r.outcomes call ≡ Outcome.raised Error.command_timeout
      → (find seq r.pending ≡ none) ⊎ (find seq r.pending ≡ some call)
      → Step r (give_up r seq)
  fails : (e : Error) → Step r (fail_pending r e)
  dies : Step r (die r)
  moves : (s : State) → Step r (record r { state = s })
  subscribes : (listener : ℕ) → Step r (subscribe r listener)
  unsubscribes : (listener : ℕ) → Step r (unsubscribe r listener)

pub data Reach (r : Runtime) : Runtime → Type 0 where
  here : Reach r r
  next : {s t : Runtime} → Reach r s → Step s t → Reach r t

-- `Runtime.__init__`
abbrev pub fresh : Runtime
fresh = record {
  state = State.new;
  seq = 0;
  pending = [];
  outcomes = λ c. Outcome.waiting;
  next_call = 0;
  listeners = [];
  delivered = [];
}
