-- ===== src/Call/Documented/Waits.antt =====
-- What `wait_established` of src/baresip/call.py raises, and with it the methods of a call.
use baresip_python.Base.{
  ℕ, ◌≡◌, refl, sym, subst, Bool, true, false, Option, none, some, List, [], ◌∷◌, Text, text_eq,
  or_empty, ◌==◌, if◌then◌else◌, ap, ◌∙◌, ◌⊎◌, inl, inr, length, all, is_digit, int_of, before,
  after, ◌&&◌,
}
use baresip_python.Errors.{
  Error, Result, ok, err, is_baresip_error, transfer_success, split_status, of_status,
  from_close_reason, with_status, passes_isdigit,
}
use baresip_python.Events.Numbering.{Event}
use baresip_python.Call.{CallState, Arrival}
use baresip_python.Call.Session.{answer, reject, hangup, hold, resume, handle_of}
use baresip_python.Call.Transfer.{or_later, raised_verdict}
use baresip_python.Call.Establish.{
  establish_verdict, first_answer, add_waiter, after_hangup, settle_wait, await_established,
  wait_in_state, wait_established, either_error,
}
use baresip_python.World.{World, head_wait, pause, update, deliver}
use baresip_python.Call.Documented.{
  ProperTurns, Raises, hangup-Raises, reject-Raises, answer-Raises, set_hold-Raises,
}

IsOwn : Error → Type 0
IsOwn e = is_baresip_error e ≡ true

if-IsOwn : (b : Bool) (x y : Error) → IsOwn x → IsOwn y → IsOwn (if b then x else y)
if-IsOwn true x y p q = p
if-IsOwn false x y p q = q

of_status-IsOwn : (status : Option ℕ) (reason : Text) → IsOwn (of_status status reason)
unfolding of_status is_baresip_error IsOwn
of_status-IsOwn none reason = refl
of_status-IsOwn (some n) reason = if-IsOwn (n == 486) _ _ refl (if-IsOwn (n == 603) _ _ refl refl)

-- The exception that could be made is the library's own.
abbrev MadeIsOwn : Result Error → Type 0
MadeIsOwn (ok e) = IsOwn e
MadeIsOwn (err e) = e ≡ Error.value_error

if-MadeIsOwn :
    (b : Bool) (x y : Result Error) → MadeIsOwn x → MadeIsOwn y → MadeIsOwn (if b then x else y)
if-MadeIsOwn true x y p q = p
if-MadeIsOwn false x y p q = q

if-with_status :
    (a b : Bool) (n : Option ℕ) (s t : Text)
    → MadeIsOwn (
        with_status of_status
          (if a then ok (n, s) else if b then err Error.value_error else ok (none, t)))
if-with_status true b n s t = of_status-IsOwn n s
if-with_status false true n s t = refl
if-with_status false false n s t = of_status-IsOwn none t

from_close_reason-MadeIsOwn : (text : Text) → MadeIsOwn (from_close_reason text)
unfolding from_close_reason is_baresip_error IsOwn split_status
from_close_reason-MadeIsOwn text = if-MadeIsOwn (text_eq text transfer_success) _ _ refl (
    if-with_status ((length (before b' ' text) == 3) && all is_digit (before b' ' text))
      ((length (before b' ' text) == 3) && all passes_isdigit (before b' ' text))
      (some (int_of (before b' ' text) 0)) (after b' ' text) text)

abbrev RaisesLater : Option (Result (Unit {0})) → Type 0
RaisesLater none = Unit
RaisesLater (some r) = Raises r

or_later-RaisesLater :
    (x y : Option (Result (Unit {0}))) → RaisesLater x → RaisesLater y → RaisesLater (or_later x y)
or_later-RaisesLater none y p q = q
or_later-RaisesLater (some r) y p q = p

establish_verdict-RaisesLater :
    (e : Event) (text : Option Text) → RaisesLater (establish_verdict e text)
unfolding establish_verdict IsOwn
establish_verdict-RaisesLater Event.call_established text = tt
establish_verdict-RaisesLater Event.call_closed text =
    made (from_close_reason (or_empty text)) (from_close_reason-MadeIsOwn (or_empty text))
  where
    made : (x : Result Error) → MadeIsOwn x → RaisesLater (raised_verdict x)
    made (ok e) h = h
    made (err e) h = tt
establish_verdict-RaisesLater _ text = tt

first_answer-RaisesLater :
    (handle : ℕ) (arrivals : List Arrival) → RaisesLater (first_answer handle arrivals)
unfolding first_answer
first_answer-RaisesLater handle [] = tt
first_answer-RaisesLater handle (a ∷ rest) =
    or_later-RaisesLater _ (first_answer handle rest)
      (of_call (a.event.call == handle) _
        (establish_verdict-RaisesLater a.event.event a.event.text))
      (first_answer-RaisesLater handle rest)
  where
    of_call :
        (b : Bool) (o : Option (Result (Unit {0})))
        → RaisesLater o
        → RaisesLater (if b then o else none)
    of_call true o h = h
    of_call false o h = tt

after_hangup-Raises : (x : Result (Unit {0}) × World) → Raises x.0 → Raises (after_hangup x).0
unfolding is_baresip_error
after_hangup-Raises (ok u, w) h = refl
after_hangup-Raises (err e, w) h =
    subst (λ (b : Bool). is_baresip_error (if b then Error.call_timeout else e) ≡ true) (sym h) refl

settle_wait-Raises :
    (i : ℕ) (o : Option (Result (Unit {0}))) (w : World)
    → RaisesLater o
    → ProperTurns w.turns
    → Raises (settle_wait i o w).0
unfolding settle_wait
settle_wait-Raises i (some r) w h proper = h
settle_wait-Raises i none w h proper = after_hangup-Raises (hangup i w) (hangup-Raises i w proper)

-- `wait_established` returns or raises a BaresipError, or the call is closed with a reason text of
-- which `split_status` raises ValueError.
abbrev pub WaitRaises : CallState → ℕ → World → Result (Unit {0}) → Type 0
WaitRaises s i w r =
    Raises r
    ⊎ ((s ≡ CallState.closed)
        × (r ≡ err Error.value_error)
        × (from_close_reason (or_empty (w.calls i).close_reason) ≡ err Error.value_error))

closed-WaitRaises :
    (i : ℕ) (w : World) (x : Result Error)
    → from_close_reason (or_empty (w.calls i).close_reason) ≡ x
    → MadeIsOwn x
    → WaitRaises CallState.closed i w (err (either_error x))
unfolding IsOwn
closed-WaitRaises i w (ok e) same h = inl h
closed-WaitRaises i w (err e) same h = inr (refl, ap err h, same ∙ ap err h)

wait_in_state-WaitRaises :
    (s : CallState) (i : ℕ) (w : World)
    → ProperTurns w.turns
    → WaitRaises s i w (wait_in_state s i w).0
unfolding wait_in_state await_established pause deliver update IsOwn
wait_in_state-WaitRaises CallState.established i w proper = inl tt
wait_in_state-WaitRaises CallState.closed i w proper =
    closed-WaitRaises i w _ refl (from_close_reason-MadeIsOwn (or_empty (w.calls i).close_reason))
wait_in_state-WaitRaises _ i w proper = inl (
    settle_wait-Raises i (first_answer (handle_of i w) (head_wait w.waits))
      (pause (update i add_waiter w)) (first_answer-RaisesLater (handle_of i w) (head_wait w.waits))
      proper)

-- Where every reply that is left is a completion with JSON or none, or BaresipError itself,
-- CommandQueueFull, CommandTimeout or RuntimeDead, these methods return or raise a BaresipError,
-- whatever events are heard: `answer` without headers, `reject`, `hangup`, `hold` and `resume`. So
-- does `wait_established`, save that on a closed call whose reason text `split_status` refuses it
-- raises the ValueError of that.
pub Call-Raises :
    (i : ℕ) (video : Bool) (w : World)
    → ProperTurns w.turns
    → Raises (answer i video none w).0
      × Raises (reject i w).0
      × Raises (hangup i w).0
      × Raises (hold i w).0
      × Raises (resume i w).0
      × WaitRaises (w.calls i).state i w (wait_established i w).0
unfolding hold resume wait_established
Call-Raises i video w proper = (
  answer-Raises i w proper video,
  reject-Raises i w proper,
  hangup-Raises i w proper,
  set_hold-Raises i true w proper,
  set_hold-Raises i false w proper,
  wait_in_state-WaitRaises (w.calls i).state i w proper,
)
