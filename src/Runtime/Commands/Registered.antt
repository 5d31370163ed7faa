-- ===== src/Runtime/Commands/Registered.antt =====
-- The registration of the calls of `cmd` that wait, src/baresip/runtime.py.
use baresip_python.Base.{
  ℕ, zero, suc, Bool, false, Text, ◌+◌, ◌-◌, ◌<◌, ◌≡◌, refl, sym, ◌≢◌, true, Option, none, some, [],
  ◌∷◌, ◌⊎◌, inl, inr, ◌==◌, leb, if◌then◌else◌, contains, length, contains-append, IsDistinct, All,
  All-append, arith, Bool-cases, Option-cases,
}
use baresip_python.Errors.{Error}
use baresip_python.Events.{Payload, EventData, StackEvent, bp_ev_base, decode}
use baresip_python.Runtime.Sequence.{seq_mod}
use baresip_python.Runtime.Sequence.Free.{next_seq-free}
use baresip_python.Runtime.Commands.{
  ReplyData, Outcome, Runtime, keys, find, state_error, push_error, next_key, accept, refuse, push,
  turn_away, leak, push_text, encodes, cancel, send, expire, give_up, subscribe, unsubscribe,
  deliver, complete, dispatch, fail_calls, fail_pending, die,
}
use baresip_python.Runtime.Commands.Steps.{
  Step, sends, dispatches, expires, cancels, gives_up, fails, dies, moves, subscribes, unsubscribes,
  Reach, here, next, fresh,
}
use baresip_python.Runtime.Commands.Pending.{
  calls, InRange, keys-append, calls-append, append-IsDistinct, remove-IsDistinct, remove-InRange,
  calls-remove, remove_missing, settle-waiting, fail_calls-waiting,
}

pub record IsRegistered (r : Runtime) : Type 0 where
  pub distinct : IsDistinct (keys r.pending)
  pub in_range : All InRange (keys r.pending)
  pub known :
      (c : ℕ)
      → c < r.next_call
      → r.outcomes c ≡ Outcome.waiting
      → contains c (calls r.pending) ≡ true

fresh-IsRegistered : IsRegistered fresh
fresh-IsRegistered = record { distinct = tt; in_range = tt; known = λ c h. absurd (omega arith) }

accept-IsRegistered :
    (r : Runtime)
    → length (keys r.pending) < seq_mod - 1
    → IsRegistered r
    → IsRegistered (accept r (next_key r))
unfolding accept
accept-IsRegistered r room v =
    let free = next_seq-free r.seq (keys r.pending) room in
    record {
      distinct =
          rw (keys-append r.pending (next_key r) r.next_call)
            (append-IsDistinct (keys r.pending) (next_key r) v.distinct free.2);
      in_range =
          rw (keys-append r.pending (next_key r) r.next_call) (
            All-append InRange (keys r.pending) (next_key r ∷ []) v.in_range
              ((free.0, free.1), tt));
      known = λ c h w.
          rw (calls-append r.pending (next_key r) r.next_call)
            (ground (arith, contains-append c (calls r.pending) (r.next_call ∷ []), v.known c));
    }

-- A call that ends without a registration.
ended-IsRegistered :
    (r : Runtime) (seq : ℕ) (e : Error)
    → IsRegistered r
    → IsRegistered (record r {
      seq = seq;
      outcomes = λ c. if r.next_call == c then Outcome.raised e else r.outcomes c;
      next_call = r.next_call + 1;
    })
ended-IsRegistered r seq e v = record {
  distinct = v.distinct;
  in_range = v.in_range;
  known = λ c h w. ground (arith, v.known c);
}

push-IsRegistered :
    (r : Runtime) (push_err : ℕ)
    → length (keys r.pending) < seq_mod - 1
    → IsRegistered r
    → IsRegistered (push r (next_key r) push_err)
unfolding refuse
push-IsRegistered r zero room v = accept-IsRegistered r room v
push-IsRegistered r (suc err) room v = ended-IsRegistered r (next_key r) (push_error (suc err)) v

leak-IsRegistered :
    (r : Runtime)
    → length (keys r.pending) < seq_mod - 1
    → IsRegistered r
    → IsRegistered (leak r (next_key r))
unfolding leak
leak-IsRegistered r room v =
    let free = next_seq-free r.seq (keys r.pending) room in
    record {
      distinct =
          rw (keys-append r.pending (next_key r) r.next_call)
            (append-IsDistinct (keys r.pending) (next_key r) v.distinct free.2);
      in_range =
          rw (keys-append r.pending (next_key r) r.next_call) (
            All-append InRange (keys r.pending) (next_key r ∷ []) v.in_range
              ((free.0, free.1), tt));
      known = λ c h w.
          rw (calls-append r.pending (next_key r) r.next_call)
            (ground (arith, contains-append c (calls r.pending) (r.next_call ∷ []), v.known c));
    }

push_text-IsRegistered :
    (r : Runtime) (b : Bool) (push_err : ℕ)
    → length (keys r.pending) < seq_mod - 1
    → IsRegistered r
    → IsRegistered (push_text r b (next_key r) push_err)
unfolding push_text
push_text-IsRegistered r true push_err room v = push-IsRegistered r push_err room v
push_text-IsRegistered r false push_err room v = leak-IsRegistered r room v

send-IsRegistered :
    (r : Runtime) (args : Option Text) (push_err : ℕ)
    → length (keys r.pending) < seq_mod - 1
    → IsRegistered r
    → IsRegistered (send r args push_err)
unfolding send turn_away
send-IsRegistered r args push_err room v = elim (Option-cases (state_error r.state)) [
  | inl e ↦ rw (e, send) (push_text-IsRegistered r (encodes args) push_err room v)
  | inr (x, e) ↦ rw (e, send) (ended-IsRegistered r r.seq x v)
]

complete-IsRegistered :
    (r : Runtime) (seq ev : ℕ) (payload : Payload ReplyData)
    → IsRegistered r
    → IsRegistered (complete r seq ev payload)
unfolding complete
complete-IsRegistered r seq ev payload v = elim (Option-cases (find seq r.pending)) [
  | inl e ↦ rw (e, complete) v
  | inr (call, e) ↦
      rw (e, complete)
        (record {
          distinct = remove-IsDistinct seq r.pending v.distinct;
          in_range = remove-InRange seq r.pending v.in_range;
          known = λ c h w.
              let left =
                settle-waiting call c (Outcome.completed ev payload) r.outcomes (λ x. cc) w in
              calls-remove seq c call r.pending e (λ x. left.0 (sym x)) (v.known c h left.1);
        })
]

-- A step that touches no command.
same-IsRegistered :
    (r s : Runtime)
    → s.pending ≡ r.pending
    → s.outcomes ≡ r.outcomes
    → s.next_call ≡ r.next_call
    → IsRegistered r
    → IsRegistered s
same-IsRegistered r s p o n v = record {
  distinct = rw p v.distinct;
  in_range = rw p v.in_range;
  known = λ c h w. rw p (v.known c (rw n at h) (rw o at w));
}

deliver-IsRegistered :
    (r : Runtime) (e : Option StackEvent) → IsRegistered r → IsRegistered (deliver r e)
unfolding deliver
deliver-IsRegistered r none v = v
deliver-IsRegistered r (some e) v = same-IsRegistered r _ refl refl refl v

dispatch-IsRegistered :
    (r : Runtime) (ev handle : ℕ) (reply : Payload ReplyData) (event : Payload EventData)
    → IsRegistered r
    → IsRegistered (dispatch r ev handle reply event)
unfolding dispatch
dispatch-IsRegistered r ev handle reply event v = elim (Bool-cases (leb bp_ev_base ev)) [
  | inl high ↦ rw (high, dispatch) (deliver-IsRegistered r (decode ev handle event) v)
  | inr low ↦ rw (low, dispatch) (complete-IsRegistered r handle ev reply v)
]

expire-IsRegistered : (r : Runtime) (call : ℕ) → IsRegistered r → IsRegistered (expire r call)
unfolding expire
expire-IsRegistered r call v = record {
  distinct = v.distinct;
  in_range = v.in_range;
  known = λ c h w.
      v.known c h
        (settle-waiting call c (Outcome.raised Error.command_timeout) r.outcomes (λ x. cc) w).1;
}

cancel-IsRegistered : (r : Runtime) (call : ℕ) → IsRegistered r → IsRegistered (cancel r call)
unfolding cancel
cancel-IsRegistered r call v = record {
  distinct = v.distinct;
  in_range = v.in_range;
  known = λ c h w.
      v.known c h
        (settle-waiting call c (Outcome.raised Error.cancelled_error) r.outcomes (λ x. cc) w).1;
}

give_up-IsRegistered :
    (r : Runtime) (seq call : ℕ)
    → r.outcomes call ≡ Outcome.raised Error.command_timeout
    → (find seq r.pending ≡ none) ⊎ (find seq r.pending ≡ some call)
    → IsRegistered r
    → IsRegistered (give_up r seq)
unfolding give_up
give_up-IsRegistered r seq call over (inl e) v =
    same-IsRegistered r _ (remove_missing seq r.pending e) refl refl v
give_up-IsRegistered r seq call over (inr e) v = record {
  distinct = remove-IsDistinct seq r.pending v.distinct;
  in_range = remove-InRange seq r.pending v.in_range;
  known = λ c h w. calls-remove seq c call r.pending e (λ x. cc (over, w)) (v.known c h w);
}

fail_pending-IsRegistered :
    (r : Runtime) (e : Error) → IsRegistered r → IsRegistered (fail_pending r e)
unfolding fail_pending
fail_pending-IsRegistered r e v = record {
  distinct = tt;
  in_range = tt;
  known = λ c h w. absurd (still_waiting c h w);
}
  where
    still_waiting :
        (c : ℕ) → c < r.next_call → fail_calls r.pending e r.outcomes c ≡ Outcome.waiting → ⊥
    still_waiting c h w = fail_calls-waiting r.pending e r.outcomes c w (v.known c h)

Step-IsRegistered : {r s : Runtime} → Step r s → IsRegistered r → IsRegistered s
unfolding subscribe unsubscribe die
Step-IsRegistered {r} (sends args push_err room) v = send-IsRegistered r args push_err room v
Step-IsRegistered {r} (dispatches ev handle reply event) v =
    dispatch-IsRegistered r ev handle reply event v
Step-IsRegistered {r} (expires call) v = expire-IsRegistered r call v
Step-IsRegistered {r} (cancels call) v = cancel-IsRegistered r call v
Step-IsRegistered {r} (gives_up seq call over e) v = give_up-IsRegistered r seq call over e v
Step-IsRegistered {r} (fails e) v = fail_pending-IsRegistered r e v
Step-IsRegistered {r} dies v = same-IsRegistered r _ refl refl refl v
Step-IsRegistered {r} (moves s) v = same-IsRegistered r _ refl refl refl v
Step-IsRegistered {r} (subscribes l) v = same-IsRegistered r _ refl refl refl v
Step-IsRegistered {r} (unsubscribes l) v = same-IsRegistered r _ refl refl refl v

-- Whatever the order of sends, completions, timeouts, cancellations, failures and events, as long as no command
-- is sent while all numbers are in use: the numbers in use are distinct and fit 32 bits without 0,
-- and every call of `cmd` that still waits is registered under one.
pub Reach-IsRegistered : {r : Runtime} → Reach fresh r → IsRegistered r
Reach-IsRegistered here = fresh-IsRegistered
Reach-IsRegistered (next h s) = Step-IsRegistered s (Reach-IsRegistered h)

-- In every state that a fresh runtime reaches, as long as no command was sent while all numbers
-- were in use, failing what is pending leaves no call of `cmd` waiting.
pub fail_pending_settles :
    {r : Runtime} (e : Error) (c : ℕ)
    → Reach fresh r
    → c < r.next_call
    → (fail_pending r e).outcomes c ≢ Outcome.waiting
unfolding fail_pending
fail_pending_settles {r} e c h lt w =
    fail_calls-waiting r.pending e r.outcomes c w ((Reach-IsRegistered h).known c lt)
