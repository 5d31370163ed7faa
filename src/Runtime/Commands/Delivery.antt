-- ===== src/Runtime/Commands/Delivery.antt =====
-- The routes of `_dispatch`, src/baresip/runtime.py: completions by sequence number, stack events to
-- the listeners.
use baresip_python.Base.{
  ℕ, zero, suc, ◌+◌, ◌-◌, ◌≤◌, ◌<◌, ◌≡◌, refl, sym, ◌∙◌, ◌≢◌, Bool, Text, true, false, Option, none,
  some, List, [], ◌∷◌, leb, contains, IsDistinct, arith, ap, Option-cases, inl, inr,
}
use baresip_python.Errors.{Error}
use baresip_python.Events.{
  Payload, EventData, StackEvent, bp_ev_base, decode, decode_event, event_data, stack_event,
}
use baresip_python.Events.Numbering.{Event, number, of_number, number-of_number}
use baresip_python.Runtime.Commands.{
  ReplyData, Outcome, Runtime, keys, find, remove, settle, next_key, accept, refuse, push,
  turn_away, leak, push_text, encodes, cancel, send, expire, give_up, subscribe, unsubscribe,
  deliver, complete, dispatch, fail_pending, die,
}
use baresip_python.Runtime.Commands.Steps.{
  Step, sends, dispatches, expires, cancels, gives_up, fails, dies, moves, subscribes, unsubscribes,
  Reach, here, next, fresh,
}
use baresip_python.Runtime.Commands.Registered.{Reach-IsRegistered}
use baresip_python.Runtime.Commands.Pending.{settle-done, fail_calls-done}

find_absent : (seq : ℕ) (p : List (ℕ × ℕ)) → contains seq (keys p) ≡ false → find seq p ≡ none
unfolding find
find_absent seq [] h = refl
find_absent seq ((j, c) ∷ p) h = ground (arith, find_absent seq p)

find-remove : (seq : ℕ) (p : List (ℕ × ℕ)) → IsDistinct (keys p) → find seq (remove seq p) ≡ none
unfolding find remove
find-remove seq [] d = refl
find-remove seq ((j, c) ∷ p) d = ground (arith, find_absent seq p, find-remove seq p d.1)

find-remove_ne : (seq k : ℕ) (p : List (ℕ × ℕ)) → seq ≢ k → find k (remove seq p) ≡ find k p
unfolding find remove
find-remove_ne seq k [] ne = refl
find-remove_ne seq k ((j, c) ∷ p) ne = ground (arith, find-remove_ne seq k p ne)

settle_self :
    (call : ℕ) (value : Outcome) (outcomes : ℕ → Outcome)
    → outcomes call ≡ Outcome.waiting
    → settle call value outcomes call ≡ value
unfolding settle
settle_self call value outcomes w = ground arith

settle_ne :
    (call c : ℕ) (value : Outcome) (outcomes : ℕ → Outcome)
    → call ≢ c
    → settle call value outcomes c ≡ outcomes c
unfolding settle
settle_ne call c value outcomes ne = ground arith

-- In every state that a fresh runtime reaches, as long as no command was sent while all numbers
-- were in use, a completion whose sequence number is that of a call that waits ends that call with
-- the number and the payload of the completion and frees the sequence number. It changes no other
-- outcome and no other registration, and no listener is called.
pub dispatch-completes :
    {r : Runtime} (ev seq call : ℕ) (reply : Payload ReplyData) (event : Payload EventData)
    → Reach fresh r
    → ev < bp_ev_base
    → find seq r.pending ≡ some call
    → r.outcomes call ≡ Outcome.waiting
    → let s = dispatch r ev seq reply event in
      (s.outcomes call ≡ Outcome.completed ev reply)
      × (find seq s.pending ≡ none)
      × ((c : ℕ) → call ≢ c → s.outcomes c ≡ r.outcomes c)
      × ((k : ℕ) → seq ≢ k → find k s.pending ≡ find k r.pending)
      × (s.delivered ≡ r.delivered)
unfolding dispatch complete
dispatch-completes {r} ev seq call reply event reach low e w =
    let below : leb bp_ev_base ev ≡ false = ground arith in
    rw (below, dispatch, e, complete)
      (
        settle_self call (Outcome.completed ev reply) r.outcomes w,
        find-remove seq r.pending (Reach-IsRegistered reach).distinct,
        (λ c ne. settle_ne call c (Outcome.completed ev reply) r.outcomes ne),
        (λ k ne. find-remove_ne seq k r.pending ne),
        refl,
      )

decode_event-number :
    (n handle : ℕ) (d : Option EventData) (o : Option Event) (s : StackEvent)
    → ((e : Event) → o ≡ some e → number e ≡ n)
    → decode_event handle d o ≡ some s
    → (number s.event ≡ n) × (s.handle ≡ handle)
unfolding decode_event stack_event
decode_event-number n handle none o s h e = cc
decode_event-number n handle (some d) none s h e = cc
decode_event-number n handle (some d) (some x) s h e =
    (rw (ap number (sym (event_of e)) ∙ h x refl), sym (handle_of e))
  where
    event_of : some (stack_event x handle d) ≡ some s → x ≡ s.event
    event_of q = ground arith

    handle_of : some (stack_event x handle d) ≡ some s → handle ≡ s.handle
    handle_of q = ground arith

-- What a listener is given has the number that the stack sent, less the base, and its handle.
pub number-decode :
    (ev handle : ℕ) (p : Payload EventData) (s : StackEvent)
    → bp_ev_base ≤ ev
    → decode ev handle p ≡ some s
    → (bp_ev_base + number s.event ≡ ev) × (s.handle ≡ handle)
unfolding decode
number-decode ev handle p s high e =
    let (n, h) =
      decode_event-number (ev - bp_ev_base) handle (event_data p) (of_number (ev - bp_ev_base)) s
        (number-of_number (ev - bp_ev_base)) e in
    (omega arith, h)

push_done :
    (r : Runtime) (seq push_err c : ℕ)
    → c < r.next_call
    → (push r seq push_err).outcomes c ≡ r.outcomes c
unfolding accept refuse
push_done r seq zero c lt = ground arith
push_done r seq (suc err) c lt = ground arith

push_text_done :
    (r : Runtime) (b : Bool) (seq push_err c : ℕ)
    → c < r.next_call
    → (push_text r b seq push_err).outcomes c ≡ r.outcomes c
unfolding push_text leak
push_text_done r true seq push_err c lt = push_done r seq push_err c lt
push_text_done r false seq push_err c lt = ground arith

send_done :
    (r : Runtime) (args : Option Text) (push_err c : ℕ)
    → c < r.next_call
    → (send r args push_err).outcomes c ≡ r.outcomes c
unfolding send turn_away
send_done r args push_err c lt =
    ground (arith, push_text_done r (encodes args) (next_key r) push_err c lt)

complete_done :
    (r : Runtime) (seq ev : ℕ) (reply : Payload ReplyData) (c : ℕ)
    → r.outcomes c ≢ Outcome.waiting
    → (complete r seq ev reply).outcomes c ≡ r.outcomes c
unfolding complete
complete_done r seq ev reply c ne = elim (Option-cases (find seq r.pending)) [
  | inl e ↦ rw (e, complete)
  | inr (call, e) ↦ rw (e, complete) (settle-done call c (Outcome.completed ev reply) r.outcomes ne)
]

dispatch_done :
    (r : Runtime) (ev handle : ℕ) (reply : Payload ReplyData) (event : Payload EventData) (c : ℕ)
    → r.outcomes c ≢ Outcome.waiting
    → (dispatch r ev handle reply event).outcomes c ≡ r.outcomes c
unfolding dispatch deliver
dispatch_done r ev handle reply event c ne = ground (arith, complete_done r handle ev reply c ne)

Step_settled :
    {r s : Runtime} (c : ℕ)
    → Step r s
    → c < r.next_call
    → r.outcomes c ≢ Outcome.waiting
    → s.outcomes c ≡ r.outcomes c
unfolding expire cancel give_up fail_pending subscribe unsubscribe die
Step_settled {r} c (sends args push_err room) lt ne = send_done r args push_err c lt
Step_settled {r} c (dispatches ev handle reply event) lt ne =
    dispatch_done r ev handle reply event c ne
Step_settled {r} c (expires call) lt ne =
    settle-done call c (Outcome.raised Error.command_timeout) r.outcomes ne
Step_settled {r} c (cancels call) lt ne =
    settle-done call c (Outcome.raised Error.cancelled_error) r.outcomes ne
Step_settled c (gives_up seq call over e) lt ne = refl
Step_settled {r} c (fails e) lt ne = fail_calls-done r.pending e r.outcomes c ne
Step_settled c dies lt ne = refl
Step_settled c (moves s) lt ne = refl
Step_settled c (subscribes l) lt ne = refl
Step_settled c (unsubscribes l) lt ne = refl

push_counts : (r : Runtime) (seq e : ℕ) → r.next_call ≤ (push r seq e).next_call
unfolding accept refuse
push_counts r seq zero = omega arith
push_counts r seq (suc e) = omega arith

push_text_counts :
    (r : Runtime) (b : Bool) (seq e : ℕ) → r.next_call ≤ (push_text r b seq e).next_call
unfolding push_text leak
push_text_counts r true seq e = push_counts r seq e
push_text_counts r false seq e = omega arith

send_counts : (r : Runtime) (args : Option Text) (e : ℕ) → r.next_call ≤ (send r args e).next_call
unfolding send turn_away
send_counts r args e = ground (arith, push_text_counts r (encodes args) (next_key r) e)

complete_counts :
    (r : Runtime) (seq ev : ℕ) (reply : Payload ReplyData)
    → r.next_call ≤ (complete r seq ev reply).next_call
unfolding complete
complete_counts r seq ev reply = elim (Option-cases (find seq r.pending)) [
  | inl e ↦ rw (e, complete) (omega arith)
  | inr (call, e) ↦ rw (e, complete) (omega arith)
]

deliver_counts : (r : Runtime) (e : Option StackEvent) → r.next_call ≤ (deliver r e).next_call
unfolding deliver
deliver_counts r none = omega arith
deliver_counts r (some e) = omega arith

dispatch_counts :
    (r : Runtime) (ev handle : ℕ) (reply : Payload ReplyData) (event : Payload EventData)
    → r.next_call ≤ (dispatch r ev handle reply event).next_call
unfolding dispatch
dispatch_counts r ev handle reply event =
    ground (arith, deliver_counts r (decode ev handle event), complete_counts r handle ev reply)

pub Step_counts : {r s : Runtime} → Step r s → r.next_call ≤ s.next_call
unfolding expire cancel give_up fail_pending subscribe unsubscribe die
Step_counts {r} (sends args push_err room) = send_counts r args push_err
Step_counts {r} (dispatches ev handle reply event) = dispatch_counts r ev handle reply event
Step_counts (expires call) = omega arith
Step_counts (cancels call) = omega arith
Step_counts (gives_up seq call over e) = omega arith
Step_counts (fails e) = omega arith
Step_counts dies = omega arith
Step_counts (moves s) = omega arith
Step_counts (subscribes l) = omega arith
Step_counts (unsubscribes l) = omega arith

-- A call of `cmd` that has ended keeps its outcome in every later state: no completion, timeout or
-- failure settles it a second time.
pub Reach-settled :
    {r s : Runtime} (c : ℕ)
    → Reach r s
    → c < r.next_call
    → r.outcomes c ≢ Outcome.waiting
    → (r.next_call ≤ s.next_call) × (s.outcomes c ≡ r.outcomes c)
Reach-settled c here lt ne = (omega arith, refl)
Reach-settled {r} c (next {s = s} h step) lt ne =
    let (more, same) = Reach-settled c h lt ne in
    let more' = Step_counts step in
    let same' = Step_settled c step (omega (arith, more)) (λ e. ne (sym same ∙ e)) in
    (omega arith, same' ∙ same)
