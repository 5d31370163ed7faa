-- ===== src/Call/Documented.antt =====
-- What the methods of a call, src/baresip/call.py, raise where `cmd` raises the errors of the runtime
-- only and the stack's payloads are JSON.
pub mod Waits
use baresip_python.Base.{
  ℕ, ◌≡◌, refl, sym, ◌∙◌, subst, Bool, true, false, not, Option, none, some, List, [], ◌∷◌, Text,
  text_eq, codes, or_empty, ◌==◌, if◌then◌else◌, Bool-cases, inl, inr, All, arith,
}
use baresip_python.Errors.{
  Error, Result, ok, err, is_baresip_error, transfer_success, split_status, of_status,
  from_close_reason,
}
use baresip_python.Events.{Payload}
use baresip_python.Events.Numbering.{Event}
use baresip_python.Call.{CallState, Arrival}
use baresip_python.Call.Session.{
  Method, stale_error, outcome, request, answer, reject, hangup, is_up, or_error, roll_back,
  finish_hold, request_hold, set_hold, hold, resume, same_bool, handle_of, saw_offer,
}
use baresip_python.Call.Transfer.{or_later}
use baresip_python.Call.Establish.{
  establish_verdict, first_answer, add_waiter, after_hangup, settle_wait, forget_waiter,
  await_established, wait_in_state, wait_established,
}
use baresip_python.Runtime.Commands.{ReplyData}
use baresip_python.Runtime.Commands.Steps.{is_command_error}
use baresip_python.Wire.{Command, Reply, stale_handle, call_hold}
use baresip_python.World.{
  World, Turn, head_turn, rest_turns, head_wait, command, pause, update, deliver, failure,
  reply_error,
}

abbrev pub IsJson : Payload ReplyData → Type 0
IsJson Payload.absent = Unit
IsJson Payload.empty = ⊥
IsJson Payload.unparseable = ⊥
IsJson (Payload.parsed d) = Unit

abbrev pub IsProper : Result Reply → Type 0
IsProper (err e) = is_command_error e ≡ true
IsProper (ok r) = IsJson r.payload

-- Every reply that the environment has left is one that `cmd` and the stack give.
abbrev pub ProperTurns : List Turn → Type 0
ProperTurns turns = All (λ (t : Turn). IsProper t.reply) turns

-- The method returns or raises a BaresipError.
abbrev pub Raises : {A : Type 0} → Result A → Type 0
Raises (ok x) = Unit
Raises (err e) = is_baresip_error e ≡ true

abbrev pub RaisesIf : Option Error → Type 0
RaisesIf none = Unit
RaisesIf (some e) = is_baresip_error e ≡ true

baresip_of : (e : Error) → is_command_error e ≡ true → is_baresip_error e ≡ true
unfolding is_baresip_error
baresip_of Error.cancelled_error h = absurd (ground arith)
baresip_of Error.value_error h = h
baresip_of Error.type_error h = h
baresip_of Error.key_error h = h
baresip_of _ h = refl

head_turn-IsProper : (ts : List Turn) → ProperTurns ts → IsProper (head_turn ts).reply
head_turn-IsProper [] h = refl
head_turn-IsProper (t ∷ ts) h = h.0

rest_turns-ProperTurns : (ts : List Turn) → ProperTurns ts → ProperTurns (rest_turns ts)
rest_turns-ProperTurns [] h = h
rest_turns-ProperTurns (t ∷ ts) h = h.1

if-RaisesIf :
    (b : Bool) (x y : Option Error) → RaisesIf x → RaisesIf y → RaisesIf (if b then x else y)
if-RaisesIf true x y p q = p
if-RaisesIf false x y p q = q

if-Raises :
    {A : Type 0} (b : Bool) (x y : Result A × World)
    → Raises x.0
    → Raises y.0
    → Raises (if b then x else y).0
if-Raises true x y p q = p
if-Raises false x y p q = q

failure-RaisesIf : (p : Payload ReplyData) → IsJson p → RaisesIf (failure p)
unfolding failure is_baresip_error
failure-RaisesIf Payload.absent h = tt
failure-RaisesIf Payload.empty h = absurd h
failure-RaisesIf Payload.unparseable h = absurd h
failure-RaisesIf (Payload.parsed d) h = refl

reply_error-RaisesIf : (r : Result Reply) → IsProper r → RaisesIf (reply_error r)
unfolding reply_error is_baresip_error
reply_error-RaisesIf (err e) h = baresip_of e h
reply_error-RaisesIf (ok r) h =
    if-RaisesIf (r.ev == stale_handle) _ _ refl (failure-RaisesIf r.payload h)

stale_error-RaisesIf : (r : Result Reply) → IsProper r → RaisesIf (stale_error r)
unfolding stale_error is_baresip_error
stale_error-RaisesIf (err e) h = baresip_of e h
stale_error-RaisesIf (ok r) h = if-RaisesIf (r.ev == stale_handle) _ _ refl tt

outcome-Raises : (o : Option Error) → RaisesIf o → Raises (outcome o)
outcome-Raises none h = tt
outcome-Raises (some e) h = h

module _ (i : ℕ) (w : World) (proper : ProperTurns w.turns) where
  pub hangup-Raises : Raises (hangup i w).0
  unfolding hangup request
  hangup-Raises = outcome-Raises _ (stale_error-RaisesIf _ (head_turn-IsProper w.turns proper))

  pub reject-Raises : Raises (reject i w).0
  unfolding reject request
  reject-Raises = outcome-Raises _ (stale_error-RaisesIf _ (head_turn-IsProper w.turns proper))

  pub answer-Raises : (video : Bool) → Raises (answer i video none w).0
  unfolding answer request
  answer-Raises video =
      outcome-Raises _ (reply_error-RaisesIf _ (head_turn-IsProper w.turns proper))

or_error-Raises :
    (r : Result Reply) → IsProper r → is_baresip_error (or_error r Error.baresip_error) ≡ true
unfolding is_baresip_error
or_error-Raises (ok r) h = refl
or_error-Raises (err e) h = baresip_of e h

finish_hold-Raises :
    (i : ℕ) (hold : Bool) (o : Option Error) (offer : Bool) (w : World)
    → RaisesIf o
    → ProperTurns w.turns
    → Raises (finish_hold i hold o offer w).0
unfolding finish_hold roll_back
finish_hold-Raises i hold (some e) offer w h proper = h
finish_hold-Raises i hold none true w h proper = tt
finish_hold-Raises i hold none false w h proper =
    or_error-Raises (head_turn w.turns).reply (head_turn-IsProper w.turns proper)

pub set_hold-Raises :
    (i : ℕ) (hold : Bool) (w : World) → ProperTurns w.turns → Raises (set_hold i hold w).0
unfolding set_hold request_hold command deliver is_baresip_error
set_hold-Raises i hold w proper =
    if-Raises (same_bool (w.calls i).on_hold hold) (ok tt, w) _ tt
      (if-Raises (is_up (w.calls i).state) _ _
        (finish_hold-Raises i hold (reply_error (head_turn w.turns).reply)
          (saw_offer (handle_of i w) (head_turn w.turns).arrivals)
          (command (call_hold (handle_of i w) hold) w)
          (reply_error-RaisesIf _ (head_turn-IsProper w.turns proper))
          (rest_turns-ProperTurns w.turns proper))
        refl)
