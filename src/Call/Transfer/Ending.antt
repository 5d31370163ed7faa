-- ===== src/Call/Transfer/Ending.antt =====
-- The outcomes of a blind transfer, as the stack's events tell them, src/baresip/call.py.
use baresip_python.Base.{
  ℕ, ◌≡◌, refl, ◌∙◌, ap, true, false, none, some, Option, List, [], ◌∷◌, Text, arith, ==_iff, ◌≢◌,
  ◌⊎◌, inl, inr, ◌==◌, if◌then◌else◌, if_true, if_false, if_same, or_empty, text_eq, eq_of_text_eq,
  Bool-cases, codes,
}
use baresip_python.Errors.{Error, Result, ok, err, split_status, transfer_success}
use baresip_python.Events.{StackEvent}
use baresip_python.Events.Numbering.{Event}
use baresip_python.Call.{Arrival}
use baresip_python.Call.Session.{handle_of, is_up}
use baresip_python.Call.Transfer.{
  transfer_verdict, or_later, first_verdict, transfer_error, or_no_outcome, bad_target, transfer,
}
use baresip_python.Call.Transfer.Outcome.{heard, transfer-first_verdict}
use baresip_python.World.{World, head_turn}

-- What an event of the call says of its transfer: it went through, the call is over for another
-- reason, or the transfer failed with a status.
pub data Tells (s : StackEvent) : Result (Unit {0}) → Type 0 where
  succeeds : s.event ≡ Event.call_closed → s.text ≡ some (codes "Call transfered") → Tells s (ok tt)
  ends :
      s.event ≡ Event.call_closed
      → s.text ≢ some (codes "Call transfered")
      → Tells s (err (Error.transfer_failed none []))
  fails :
      (status : Option ℕ) (reason : Text)
      → s.event ≡ Event.call_transfer_failed
      → split_status (or_empty s.text) ≡ ok (status, reason)
      → Tells s (err (Error.transfer_failed status reason))

-- An event that says nothing of it, or that is another call's.
abbrev IsSilent : ℕ → StackEvent → Type 0
IsSilent handle s =
    (s.call ≢ handle) ⊎ ((s.event ≢ Event.call_closed) × (s.event ≢ Event.call_transfer_failed))

-- The first of the events that says something of it; with none, the time runs out.
pub data TransferEnds (handle : ℕ) : List Arrival → Result (Unit {0}) → Type 0 where
  runs_out : TransferEnds handle [] (err (Error.transfer_failed none []))
  hears :
      {a : Arrival} {later : List Arrival} {r : Result (Unit {0})}
      → a.event.call ≡ handle
      → Tells a.event r
      → TransferEnds handle (a ∷ later) r
  skips :
      {a : Arrival} {later : List Arrival} {r : Result (Unit {0})}
      → IsSilent handle a.event
      → TransferEnds handle later r
      → TransferEnds handle (a ∷ later) r

not_success :
    (t : Option Text)
    → t ≢ some transfer_success
    → transfer_verdict Event.call_closed t ≡ some (err (Error.transfer_failed none []))
unfolding transfer_verdict
not_success none h = refl
not_success (some t) h = elim (Bool-cases (text_eq t transfer_success)) [
  | inl same ↦ absurd (h (ap some (eq_of_text_eq t transfer_success same)))
  | inr other ↦ if_false _ _ _ other
]

success : transfer_verdict Event.call_closed (some transfer_success) ≡ some (ok tt)
unfolding transfer_verdict text_eq
success = refl

transfer_verdict-Tells :
    (s : StackEvent) (r : Result (Unit {0})) → Tells s r → transfer_verdict s.event s.text ≡ some r
unfolding transfer_verdict
transfer_verdict-Tells s _ (succeeds e t) = rw (e, t) success
transfer_verdict-Tells s _ (ends e t) = rw e (not_success s.text t)
transfer_verdict-Tells s _ (fails status reason e split) = rw (e, transfer_verdict, split)

transfer_verdict-none :
    (e : Event) (text : Option Text)
    → e ≢ Event.call_closed
    → e ≢ Event.call_transfer_failed
    → transfer_verdict e text ≡ none
unfolding transfer_verdict
transfer_verdict-none Event.call_closed text h k = absurd (h refl)
transfer_verdict-none Event.call_transfer_failed text h k = absurd (k refl)
transfer_verdict-none _ text h k = refl

silent :
    (handle : ℕ) (s : StackEvent)
    → IsSilent handle s
    → (if s.call == handle then transfer_verdict s.event s.text else none) ≡ none
silent handle s (inl other) = if_false (s.call == handle) _ _ (ground arith)
silent handle s (inr (h, k)) =
    if_same (s.call == handle) _ none (transfer_verdict-none s.event s.text h k)

first_verdict-TransferEnds :
    (handle : ℕ) (arrivals : List Arrival) (r : Result (Unit {0}))
    → TransferEnds handle arrivals r
    → or_no_outcome (first_verdict handle arrivals) ≡ r
unfolding first_verdict
first_verdict-TransferEnds handle _ _ runs_out = refl
first_verdict-TransferEnds handle _ r (hears {a} {later} own says) =
    ap (λ o. or_no_outcome (or_later o (first_verdict handle later)))
      (if_true _ _ _ ((==_iff a.event.call handle).1 own) ∙ transfer_verdict-Tells a.event r says)
first_verdict-TransferEnds handle _ r (skips {a} {later} quiet rest) =
    ap (λ o. or_no_outcome (or_later o (first_verdict handle later))) (silent handle a.event quiet)
    ∙ first_verdict-TransferEnds handle later r rest

-- A transfer to a well-formed target, on an established call with no transfer in progress and with
-- a clean reply to its command, ends with what the first event tells of it that is heard from the
-- command on: it returns when the call is closed with the text "Call transfered", it raises
-- TransferFailed without a status when the call is closed otherwise, and TransferFailed with the
-- reported status and reason at a CALL_TRANSFER_FAILED whose text splits. With no such event it
-- raises TransferFailed.
pub transfer-TransferEnds :
    (i : ℕ) (uri : Text) (w : World) (r : Result (Unit {0}))
    → bad_target uri ≡ false
    → is_up (w.calls i).state ≡ true
    → (w.calls i).transfer_pending ≡ false
    → transfer_error (head_turn w.turns).reply ≡ none
    → TransferEnds (handle_of i w) (heard i w) r
    → (transfer i uri w).0 ≡ r
transfer-TransferEnds i uri w r fine up free clean h =
    transfer-first_verdict i uri w fine up free clean
    ∙ first_verdict-TransferEnds (handle_of i w) (heard i w) r h
