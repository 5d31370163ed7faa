-- ===== src/Runtime/Commands.antt =====
-- The command half of src/baresip/runtime.py: `cmd`, `_dispatch`, `_deliver_stack_event`,
-- `_fail_pending`, `_finish_death`, `subscribe` and `unsubscribe`. A call of `cmd` is cut where it
-- awaits: it sends, and later is resumed by a completion, by its timeout, by a cancellation or by a
-- failure of all commands. Calls of `cmd` are numbered in order, and `outcomes` holds what each one ends with, the
-- future that it waits on and the exception that it raises being one value. `bp_cmd` is native:
-- its error number is an argument.
pub mod Steps
pub mod Pending
pub mod Registered
pub mod Delivery
pub mod Contract
pub mod Settling
use baresip_python.Base.{
  ℕ, zero, suc, ◌+◌, Bool, true, false, Option, none, some, List, [], ◌∷◌, ◌++◌, Text, ◌==◌, leb,
  if◌then◌else◌, without, not, ◌&&◌, all,
}
use baresip_python.Errors.{Error}
use baresip_python.Events.{Payload, EventData, StackEvent, decode, bp_ev_base}
use baresip_python.Runtime.Sequence.{next_seq}

-- The object that a command's completion carries, with the keys that the library reads.
pub record ReplyData : Type 0 where
  pub error : Option Text
  pub errno : Option ℕ
  pub handle : Option ℕ
  pub calls : Option ℕ
  pub host : Option Text
  pub ausrc : Option (List Text)
  pub auplay : Option (List Text)

-- new → running → closing → closed | dead
pub data State : Type 0 where
  new running closing closed dead : State

pub data Outcome : Type 0 where
  waiting : Outcome
  completed : ℕ → Payload ReplyData → Outcome
  raised : Error → Outcome

-- `_pending` maps a sequence number to the call of `cmd` whose future it holds. What a listener
-- is given goes to `delivered`; what it raises is logged and has no other effect.
pub record Runtime : Type 0 where
  pub state : State
  pub seq : ℕ
  pub pending : List (ℕ × ℕ)
  pub outcomes : ℕ → Outcome
  pub next_call : ℕ
  pub listeners : List ℕ
  pub delivered : List (ℕ × StackEvent)

abbrev pub keys : List (ℕ × ℕ) → List ℕ
keys [] = []
keys ((k, c) ∷ rest) = k ∷ keys rest

-- `_pending.get(seq)`
unfoldable pub find : ℕ → List (ℕ × ℕ) → Option ℕ
find seq [] = none
find seq ((k, c) ∷ rest) = if k == seq then some c else find seq rest

-- `_pending.pop(seq, None)`: a key stands once.
unfoldable pub remove : ℕ → List (ℕ × ℕ) → List (ℕ × ℕ)
remove seq [] = []
remove seq ((k, c) ∷ rest) = if k == seq then rest else (k, c) ∷ remove seq rest

-- A write to one cell; a future that is done keeps its value.
abbrev pub settled : Outcome → Outcome → Outcome
settled Outcome.waiting value = value
settled (Outcome.completed ev p) value = Outcome.completed ev p
settled (Outcome.raised e) value = Outcome.raised e

unfoldable pub settle : ℕ → Outcome → (ℕ → Outcome) → ℕ → Outcome
settle call value outcomes c = if call == c then settled (outcomes c) value else outcomes c

-- The guard at the head of `cmd`.
unfoldable pub state_error : State → Option Error
state_error State.running = none
state_error State.dead = some Error.runtime_dead
state_error _ = some Error.baresip_error

-- `errno.EAGAIN`
abbrev pub eagain : ℕ
eagain = 11

unfoldable pub push_error : ℕ → Error
push_error err = if err == eagain then Error.command_queue_full else Error.baresip_error

-- The number that the next command takes.
abbrev pub next_key : Runtime → ℕ
next_key r = next_seq r.seq (keys r.pending)

-- The future is made and registered under the number `seq`, and `bp_cmd` takes the command.
unfoldable pub accept : Runtime → ℕ → Runtime
accept r seq = record r {
  seq = seq;
  pending = r.pending ++ (seq, r.next_call) ∷ [];
  outcomes = λ c. if r.next_call == c then Outcome.waiting else r.outcomes c;
  next_call = r.next_call + 1;
}

-- `bp_cmd` refused: the registration is undone and the caller gets the exception.
unfoldable pub refuse : Runtime → ℕ → Error → Runtime
refuse r seq e = record r {
  seq = seq;
  outcomes = λ c. if r.next_call == c then Outcome.raised e else r.outcomes c;
  next_call = r.next_call + 1;
}

abbrev pub push : Runtime → ℕ → ℕ → Runtime
push r seq zero = accept r seq
push r seq (suc err) = refuse r seq (push_error (suc err))

unfoldable pub turn_away : Runtime → Error → Runtime
turn_away r e = record r {
  outcomes = λ c. if r.next_call == c then Outcome.raised e else r.outcomes c;
  next_call = r.next_call + 1;
}

-- `str.encode` takes every code point but the surrogates; bytes and no argument need none.
unfoldable pub encodes : Option Text → Bool
encodes none = true
encodes (some text) = all (λ (c : ℕ). not (leb 55296 c && leb c 57343)) text

-- `args.encode()` raised UnicodeEncodeError, which is a ValueError: the registration stays behind.
unfoldable pub leak : Runtime → ℕ → Runtime
leak r seq = record r {
  seq = seq;
  pending = r.pending ++ (seq, r.next_call) ∷ [];
  outcomes = λ c. if r.next_call == c then Outcome.raised Error.value_error else r.outcomes c;
  next_call = r.next_call + 1;
}

abbrev pub push_text : Runtime → Bool → ℕ → ℕ → Runtime
unfolding leak
push_text r true seq push_err = push r seq push_err
push_text r false seq push_err = leak r seq

-- `cmd` up to its await: `args` are its arguments where they are a `str`, `push_err` is what
-- `bp_cmd` returns.
unfoldable pub send : Runtime → Option Text → ℕ → Runtime
unfolding state_error push_text encodes
send r args push_err = elim (state_error r.state) [
  | some e ↦ turn_away r e
  | none ↦ push_text r (encodes args) (next_key r) push_err
]

-- The timeout of `wait_for` cancels the future.
unfoldable pub expire : Runtime → ℕ → Runtime
expire r call = record r {
  outcomes = settle call (Outcome.raised Error.command_timeout) r.outcomes;
}

-- The task of the caller is cancelled while it awaits; the registration stays behind.
unfoldable pub cancel : Runtime → ℕ → Runtime
cancel r call = record r {
  outcomes = settle call (Outcome.raised Error.cancelled_error) r.outcomes;
}

-- The caller resumes after its timeout and drops its registration.
unfoldable pub give_up : Runtime → ℕ → Runtime
give_up r seq = record r { pending = remove seq r.pending }

-- `subscribe` and `unsubscribe`
unfoldable pub subscribe : Runtime → ℕ → Runtime
subscribe r listener = record r { listeners = r.listeners ++ listener ∷ [] }

unfoldable pub unsubscribe : Runtime → ℕ → Runtime
unsubscribe r listener = record r { listeners = without listener r.listeners }

abbrev pub to_all : List ℕ → StackEvent → List (ℕ × StackEvent)
to_all [] e = []
to_all (l ∷ ls) e = (l, e) ∷ to_all ls e

unfoldable pub deliver : Runtime → Option StackEvent → Runtime
deliver r none = r
deliver r (some e) = record r { delivered = r.delivered ++ to_all r.listeners e }

abbrev complete_call : Runtime → ℕ → ℕ → Payload ReplyData → Option ℕ → Runtime
complete_call r seq ev payload none = r
complete_call r seq ev payload (some call) = record r {
  pending = remove seq r.pending;
  outcomes = settle call (Outcome.completed ev payload) r.outcomes;
}

-- The completion of the command registered under `seq`.
unfoldable pub complete : Runtime → ℕ → ℕ → Payload ReplyData → Runtime
complete r seq ev payload = complete_call r seq ev payload (find seq r.pending)

-- What came through the native callback: one channel for completions and for stack events.
unfoldable pub dispatch : Runtime → ℕ → ℕ → Payload ReplyData → Payload EventData → Runtime
unfolding deliver complete
dispatch r ev handle reply event =
    if leb bp_ev_base ev then deliver r (decode ev handle event) else complete r handle ev reply

abbrev pub fail_calls : List (ℕ × ℕ) → Error → (ℕ → Outcome) → ℕ → Outcome
fail_calls [] e outcomes = outcomes
fail_calls ((k, c) ∷ rest) e outcomes = fail_calls rest e (settle c (Outcome.raised e) outcomes)

-- `_fail_pending`
unfoldable pub fail_pending : Runtime → Error → Runtime
fail_pending r e = record r { pending = []; outcomes = fail_calls r.pending e r.outcomes }

-- `_die_on_re_thread` marks the state; `_finish_death` fails what is pending.
unfoldable pub die : Runtime → Runtime
die r = record r { state = State.dead }

unfoldable pub finish_death : Runtime → Runtime
unfolding fail_pending
finish_death r = fail_pending r Error.runtime_dead
