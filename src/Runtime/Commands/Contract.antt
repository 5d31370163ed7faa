-- ===== src/Runtime/Commands/Contract.antt =====
-- What src/baresip/runtime.py promises of `cmd`, without sequence numbers, `_pending`, the native
-- channel and the listeners: a machine of numbered requests, each of which gets one result.
use baresip_python.Base.{
  ℕ, zero, suc, ◌<◌, ◌≡◌, refl, sym, ◌∙◌, ap, Bool, true, false, Option, none, some, List, [], ◌∷◌,
  Text, ◌==◌, leb, contains, arith, Bool-cases, Option-cases, inl, inr, if◌then◌else◌, ◌+◌,
}
use baresip_python.Errors.{Error}
use baresip_python.Events.{Payload, EventData, StackEvent, bp_ev_base, decode}
use baresip_python.Runtime.Commands.{
  ReplyData, State, Outcome, Runtime, find, settle, settled, state_error, next_key, accept, refuse,
  push_error, push, leak, push_text, encodes, turn_away, send, expire, cancel, give_up, subscribe,
  unsubscribe, deliver, complete, dispatch, fail_calls, fail_pending, die,
}
use baresip_python.Runtime.Commands.Steps.{
  Step, sends, dispatches, expires, cancels, gives_up, fails, dies, moves, subscribes, unsubscribes,
  Reach, here, next, fresh,
}
use baresip_python.Runtime.Commands.Pending.{calls, fail_calls-done}
use baresip_python.Runtime.Commands.Registered.{IsRegistered, Reach-IsRegistered}

-- Requests are numbered in order; `result` counts below `issued`.
pub record Requests : Type 0 where
  pub issued : ℕ
  pub result : ℕ → Outcome

-- A request is issued, with an error where it is refused at once; one request is answered; all that
-- wait fail together; or nothing happens.
pub data Action : Type 0 where
  issue : Option Error → Action
  answer : ℕ → Outcome → Action
  break : Error → Action
  idle : Action

-- A request gets one result: a second one is dropped.
abbrev pub answered : Outcome → Outcome → Outcome
answered Outcome.waiting value = value
answered old value = old

abbrev pub first_result : Option Error → Outcome
first_result none = Outcome.waiting
first_result (some e) = Outcome.raised e

abbrev pub serve : Action → Requests → Requests
serve (issue refusal) q = record {
  issued = suc q.issued;
  result = λ c. if q.issued == c then first_result refusal else q.result c;
}
serve (answer call value) q = record {
  issued = q.issued;
  result = λ c. if call == c then answered (q.result c) value else q.result c;
}
serve (break e) q = record {
  issued = q.issued;
  result = λ c. answered (q.result c) (Outcome.raised e);
}
serve idle q = q

-- Why a request is refused at once: by the state of the runtime, by its text, or by the stack, whose
-- EAGAIN, the number 11, is a full queue.
abbrev pub refusal : State → Bool → ℕ → Option Error
refusal State.running true zero = none
refusal State.running true (suc n) =
    some (if suc n == 11 then Error.command_queue_full else Error.baresip_error)
refusal State.running false n = some Error.value_error
refusal State.dead text n = some Error.runtime_dead
refusal s text n = some Error.baresip_error

-- A completion answers the request whose call is registered under its number, if there is one.
abbrev pub completion : Option ℕ → ℕ → Payload ReplyData → Action
completion none ev reply = idle
completion (some call) ev reply = answer call (Outcome.completed ev reply)

-- What a step of a runtime is to the machine.
abbrev pub action : {r s : Runtime} → Step r s → Action
unfolding encodes find
action {r} (sends args push_err room) = issue (refusal r.state (encodes args) push_err)
action {r} (dispatches ev seq reply event) =
    if leb bp_ev_base ev then idle else completion (find seq r.pending) ev reply
action (expires call) = answer call (Outcome.raised Error.command_timeout)
action (cancels call) = answer call (Outcome.raised Error.cancelled_error)
action (gives_up seq call over e) = idle
action (fails e) = break e
action dies = idle
action (moves s) = idle
action (subscribes l) = idle
action (unsubscribes l) = idle

-- The machine after the actions of a run.
abbrev pub trace : {r : Runtime} → Reach fresh r → Requests
unfolding action
trace here = record { issued = 0; result = λ c. Outcome.waiting }
trace (next h s) = serve (action s) (trace h)

-- The first `n` requests of the machine are issued and have the results `outcomes`.
abbrev pub Counts : Requests → ℕ → (ℕ → Outcome) → Type 0
Counts q n outcomes = (q.issued ≡ n) × ((c : ℕ) → c < n → q.result c ≡ outcomes c)

-- The calls of a runtime and what they end with are the machine's requests and their results.
abbrev pub IsServed : Requests → Runtime → Type 0
IsServed q r = Counts q r.next_call r.outcomes

settled-answered : (old value : Outcome) → settled old value ≡ answered old value
settled-answered Outcome.waiting value = refl
settled-answered (Outcome.completed ev p) value = refl
settled-answered (Outcome.raised e) value = refl

issue-Counts :
    (q : Requests) (n : ℕ) (outcomes : ℕ → Outcome) (refused : Option Error)
    → Counts q n outcomes
    → Counts
        (serve (issue refused) q)
        (n + 1)
        (λ c. if n == c then first_result refused else outcomes c)
issue-Counts q n outcomes refused h = (omega (arith, h.0), λ c lt. ground (arith, h.0, h.1 c))

settle-Counts :
    (q : Requests) (n : ℕ) (outcomes : ℕ → Outcome) (call : ℕ) (value : Outcome)
    → Counts q n outcomes
    → Counts (serve (answer call value) q) n (settle call value outcomes)
unfolding settle
settle-Counts q n outcomes call value h = (
  h.0,
  λ c lt.
      ap (λ x. if call == c then answered x value else x) (h.1 c lt)
      ∙ ap (λ x. if call == c then x else outcomes c) (sym (settled-answered (outcomes c) value)),
)

push-IsServed :
    (q : Requests) (r : Runtime) (seq e : ℕ)
    → IsServed q r
    → IsServed (serve (issue (refusal State.running true e)) q) (push r seq e)
unfolding accept refuse push_error
push-IsServed q r seq zero h = issue-Counts q r.next_call r.outcomes none h
push-IsServed q r seq (suc e) h =
    issue-Counts q r.next_call r.outcomes (some (push_error (suc e))) h

push_text-IsServed :
    (q : Requests) (r : Runtime) (b : Bool) (seq e : ℕ)
    → IsServed q r
    → IsServed (serve (issue (refusal State.running b e)) q) (push_text r b seq e)
unfolding push_text leak
push_text-IsServed q r true seq e h = push-IsServed q r seq e h
push_text-IsServed q r false seq e h =
    issue-Counts q r.next_call r.outcomes (some Error.value_error) h

send-IsServed :
    (q : Requests) (r : Runtime) (args : Option Text) (e : ℕ) (state : State)
    → r.state ≡ state
    → IsServed q r
    → IsServed (serve (issue (refusal state (encodes args) e)) q) (send r args e)
unfolding send turn_away state_error
send-IsServed q r args e State.running at h =
    rw (at, send) (push_text-IsServed q r (encodes args) (next_key r) e h)
send-IsServed q r args e State.new at h =
    rw (at, send) (issue-Counts q r.next_call r.outcomes (some Error.baresip_error) h)
send-IsServed q r args e State.closing at h =
    rw (at, send) (issue-Counts q r.next_call r.outcomes (some Error.baresip_error) h)
send-IsServed q r args e State.closed at h =
    rw (at, send) (issue-Counts q r.next_call r.outcomes (some Error.baresip_error) h)
send-IsServed q r args e State.dead at h =
    rw (at, send) (issue-Counts q r.next_call r.outcomes (some Error.runtime_dead) h)

complete-IsServed :
    (q : Requests) (r : Runtime) (seq ev : ℕ) (reply : Payload ReplyData)
    → IsServed q r
    → IsServed (serve (completion (find seq r.pending) ev reply) q) (complete r seq ev reply)
unfolding complete
complete-IsServed q r seq ev reply h = elim (Option-cases (find seq r.pending)) [
  | inl e ↦ rw (e, complete) h
  | inr (call, e) ↦
      rw (e, complete) (settle-Counts q r.next_call r.outcomes call (Outcome.completed ev reply) h)
]

deliver-IsServed :
    (q : Requests) (r : Runtime) (e : Option StackEvent) → IsServed q r → IsServed q (deliver r e)
unfolding deliver
deliver-IsServed q r none h = h
deliver-IsServed q r (some e) h = h

dispatch-IsServed :
    (q : Requests) (r : Runtime) (ev handle : ℕ) (reply : Payload ReplyData)
    (event : Payload EventData)
    → IsServed q r
    → IsServed
        (serve (if leb bp_ev_base ev then idle else completion (find handle r.pending) ev reply) q)
        (dispatch r ev handle reply event)
unfolding dispatch
dispatch-IsServed q r ev handle reply event h = elim (Bool-cases (leb bp_ev_base ev)) [
  | inl high ↦ rw (high, dispatch) (deliver-IsServed q r (decode ev handle event) h)
  | inr low ↦ rw (low, dispatch) (complete-IsServed q r handle ev reply h)
]

settle_hit :
    (call c : ℕ) (value : Outcome) (outcomes : ℕ → Outcome)
    → (c == call) ≡ true
    → outcomes c ≡ Outcome.waiting
    → settle call value outcomes c ≡ value
unfolding settle
settle_hit call c value outcomes hit w = ground arith

settle_miss :
    (call c : ℕ) (value : Outcome) (outcomes : ℕ → Outcome)
    → (c == call) ≡ false
    → settle call value outcomes c ≡ outcomes c
unfolding settle
settle_miss call c value outcomes miss = ground arith

fail_calls-raised :
    (p : List (ℕ × ℕ)) (e : Error) (outcomes : ℕ → Outcome) (c : ℕ)
    → outcomes c ≡ Outcome.waiting
    → contains c (calls p) ≡ true
    → fail_calls p e outcomes c ≡ Outcome.raised e
fail_calls-raised [] e outcomes c w h = absurd (ground arith)
fail_calls-raised ((k, d) ∷ p) e outcomes c w h = elim (Bool-cases (c == d)) [
  | inl hit ↦
      let raised = settle_hit d c (Outcome.raised e) outcomes hit w in
      fail_calls-done p e (settle d (Outcome.raised e) outcomes) c (λ x. cc) ∙ raised
  | inr miss ↦
      fail_calls-raised p e (settle d (Outcome.raised e) outcomes) c
        (settle_miss d c (Outcome.raised e) outcomes miss ∙ w) (ground arith)
]

-- Failing what is registered fails every call that waits.
fail_calls-answered :
    (r : Runtime) (e : Error) (c : ℕ) (o : Outcome)
    → IsRegistered r
    → c < r.next_call
    → r.outcomes c ≡ o
    → answered o (Outcome.raised e) ≡ fail_calls r.pending e r.outcomes c
fail_calls-answered r e c Outcome.waiting v lt w =
    sym (fail_calls-raised r.pending e r.outcomes c w (v.known c lt w))
fail_calls-answered r e c (Outcome.completed ev p) v lt w =
    sym (fail_calls-done r.pending e r.outcomes c (λ x. cc) ∙ w)
fail_calls-answered r e c (Outcome.raised x) v lt w =
    sym (fail_calls-done r.pending e r.outcomes c (λ y. cc) ∙ w)

fail_pending-IsServed :
    (q : Requests) (r : Runtime) (e : Error)
    → IsRegistered r
    → IsServed q r
    → IsServed (serve (break e) q) (fail_pending r e)
unfolding fail_pending
fail_pending-IsServed q r e v h =
    (h.0, λ c lt. fail_calls-answered r e c (q.result c) v lt (sym (h.1 c lt)))

Step-IsServed :
    {r s : Runtime} (q : Requests) (step : Step r s)
    → IsRegistered r
    → IsServed q r
    → IsServed (serve (action step) q) s
unfolding action expire cancel give_up subscribe unsubscribe die
Step-IsServed {r} q (sends args push_err room) v h = send-IsServed q r args push_err r.state refl h
Step-IsServed {r} q (dispatches ev handle reply event) v h =
    dispatch-IsServed q r ev handle reply event h
Step-IsServed {r} q (expires call) v h =
    settle-Counts q r.next_call r.outcomes call (Outcome.raised Error.command_timeout) h
Step-IsServed {r} q (cancels call) v h =
    settle-Counts q r.next_call r.outcomes call (Outcome.raised Error.cancelled_error) h
Step-IsServed q (gives_up seq call over e) v h = h
Step-IsServed {r} q (fails e) v h = fail_pending-IsServed q r e v h
Step-IsServed q dies v h = h
Step-IsServed q (moves s) v h = h
Step-IsServed q (subscribes l) v h = h
Step-IsServed q (unsubscribes l) v h = h

-- The command half of a runtime implements a machine of numbered requests that knows no sequence
-- numbers and no table of what is pending. Along every run of a fresh runtime in which no command
-- is sent while all numbers are in use, the calls of `cmd` and their outcomes are the requests and
-- results of the machine that takes one action for each step: a call issues a request, which is
-- refused at once by the runtime's state, an argument that does not encode, or the stack; a
-- completion answers the request registered under its number; a timeout or a cancellation answers
-- its request; a failure answers all that wait; a second answer is dropped; all else is idle.
pub Reach-Serves :
    {r : Runtime} (h : Reach fresh r)
    → ((trace h).issued ≡ r.next_call)
      × ((c : ℕ) → c < r.next_call → (trace h).result c ≡ r.outcomes c)
unfolding trace
Reach-Serves here = (refl, λ c lt. refl)
Reach-Serves (next h s) = Step-IsServed (trace h) s (Reach-IsRegistered h) (Reach-Serves h)
