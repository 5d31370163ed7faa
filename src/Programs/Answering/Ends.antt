-- ===== src/Programs/Answering/Ends.antt =====
-- How the programs of src/examples leave their call.
use baresip_python.Base.{
  ℕ, ◌≡◌, refl, sym, ◌∙◌, ap, subst, Bool, true, false, not, ◌&&◌, ◌⊎◌, inl, inr, Option, none,
  some, List, [], ◌∷◌, ◌++◌, Text, contains, to_upper, strip, if◌then◌else◌, if_true, if_false,
  Bool-cases, arith, codes, ◌≢◌,
}
use baresip_python.Errors.{Error, Result, ok, err}
use baresip_python.Events.{pos}
use baresip_python.Events.Numbering.{Event}
use baresip_python.Call.{CallState, Notice}
use baresip_python.Call.Session.{Method, hangup, request, handle_of}
use baresip_python.Call.Session.Hold.{handle-command}
use baresip_python.Call.Transfer.{and_then}
use baresip_python.Call.Keys.{dtmf_digits, press, press_all, is_dtmf, send_dtmf}
use baresip_python.Wire.{Command, call_hangup}
use baresip_python.World.{World, command, pause, deliver}
use baresip_python.Programs.Answering.{is_closed, keypad, type_line, is_quit, go_on, softphone}

-- The call is closed, or the last command that went out hangs it up.
abbrev pub IsOver : ℕ → World → Type 0
IsOver i w =
    ((w.calls i).state ≡ CallState.closed)
    ⊎ ((cs : List Command) × (w.sent ≡ cs ++ call_hangup (handle_of i w) ∷ []))

-- A program that returns leaves its call so.
abbrev pub EndsCall : ℕ → Option (Result (Unit {0}) × World) → Type 0
EndsCall i x = (v : World) → x ≡ some (ok tt, v) → IsOver i v

closed_of : (s : CallState) → is_closed s ≡ true → s ≡ CallState.closed
closed_of CallState.closed h = refl
closed_of CallState.incoming h = absurd (ground arith)
closed_of CallState.outgoing h = absurd (ground arith)
closed_of CallState.established h = absurd (ground arith)

hangup-IsOver : (i : ℕ) (w : World) → IsOver i (hangup i w).1
unfolding hangup request command deliver
hangup-IsOver i w = inr (
  w.sent,
  ap (λ (h : ℕ). w.sent ++ call_hangup h ∷ [])
      (sym (handle-command (call_hangup (handle_of i w)) i w)),
)

world_of :
    (x : Result (Unit {0}) × World) (v : World)
    → ◌≡◌ {A = Option (Result (Unit {0}) × World)} (some x) (some (ok tt, v))
    → x.1 ≡ v
world_of x v e = ap world e
  where
    world : Option (Result (Unit {0}) × World) → World
    world none = v
    world (some y) = y.1

some-EndsCall : (i : ℕ) (x : Result (Unit {0}) × World) → IsOver i x.1 → EndsCall i (some x)
some-EndsCall i x over v e = subst (IsOver i) (world_of x v e) over

error-EndsCall : (i : ℕ) (e : Error) (w : World) → EndsCall i (some (err e, w))
error-EndsCall i e w v h = absurd (ground arith)

none-EndsCall : (i : ℕ) → EndsCall i none
none-EndsCall i v h = absurd (ground arith)

if-EndsCall :
    (i : ℕ) (b : Bool) (x y : Option (Result (Unit {0}) × World))
    → (b ≡ true → EndsCall i x)
    → (b ≡ false → EndsCall i y)
    → EndsCall i (if b then x else y)
if-EndsCall i true x y p q = p refl
if-EndsCall i false x y p q = q refl

-- What the callbacks of the IVR wait for: the caller's key 2, or the end of the call.
abbrev pub IsFinish : Notice → Type 0
IsFinish (Notice.digit_notice l d) = d.digit ≡ codes "2"
IsFinish (Notice.event_notice l e) = e.event ≡ Event.call_closed
IsFinish _ = ⊥

-- A callback of the call was told of it.
abbrev pub IsResolved : ℕ → World → Type 0
IsResolved i w =
    (earlier later : List Notice) × (n : Notice) × ((w.calls i).notices ≡ earlier ++ n ∷ later)
    × IsFinish n

-- A closed call is left as it is; any other call is hung up, by its own handle, as the last command.
abbrev pub IsLeft : ℕ → World → World → Type 0
IsLeft i u v =
    (((u.calls i).state ≡ CallState.closed) × (v ≡ u))
    ⊎ (((u.calls i).state ≢ CallState.closed)
        × (v.sent ≡ u.sent ++ call_hangup (handle_of i u) ∷ []))

-- The world in which the program resumed, and the one that it leaves.
abbrev pub IsServed : ℕ → World → Type 0
IsServed i v = (u : World) × IsResolved i u × IsLeft i u v

abbrev pub ServesCall : ℕ → Option (Result (Unit {0}) × World) → Type 0
ServesCall i x = (v : World) → x ≡ some (ok tt, v) → IsServed i v

go_on-EndsCall :
    (i : ℕ) (x : Result (Unit {0}) × World) (rest : World → Option (Result (Unit {0}) × World))
    → ((v : World) → EndsCall i (rest v))
    → EndsCall i (go_on x rest)
go_on-EndsCall i (err e, w) rest h = error-EndsCall i e w
go_on-EndsCall i (ok u, w) rest h = h w

-- Whatever lines the user types, when the softphone's loop ends without an exception the call is
-- closed or the last command that went out is its hangup.
pub softphone-EndsCall : (i : ℕ) (lines : List Text) (w : World) → EndsCall i (softphone i lines w)
unfolding softphone
softphone-EndsCall i [] w =
    if-EndsCall i (is_closed (w.calls i).state) _ _
      (λ over. some-EndsCall i (ok tt, w) (inl (closed_of (w.calls i).state over)))
      (λ up. none-EndsCall i)
softphone-EndsCall i (line ∷ lines) w =
    let v = pause w in
    if-EndsCall i (is_closed (w.calls i).state) _ _
      (λ over. some-EndsCall i (ok tt, w) (inl (closed_of (w.calls i).state over)))
      (λ up.
        if-EndsCall i (is_closed (v.calls i).state) _ _
          (λ over. some-EndsCall i (ok tt, v) (inl (closed_of (v.calls i).state over)))
          (λ still.
            if-EndsCall i (is_quit (strip line)) _ _
              (λ quit. some-EndsCall i (hangup i v) (hangup-IsOver i v))
              (λ keys.
                go_on-EndsCall i (type_line i (strip line) v) (softphone i lines)
                  (softphone-EndsCall i lines))))

-- The keys of the keypad are DTMF digits as they are.
keypad_digit :
    (c : ℕ) → contains c keypad ≡ true → (to_upper c ≡ c) × (contains c dtmf_digits ≡ true)
unfolding to_upper
keypad_digit c h = (ground arith, ground arith)

-- A line of the user is sent as its keys, each pressed once; it is never refused as no digits.
abbrev pub press_keys : ℕ → Text → Method (Unit {0})
press_keys i [] w = (ok tt, w)
press_keys i (c ∷ line) w =
    if contains c keypad then and_then (press i c w) (press_keys i line) else press_keys i line w

send_dtmf_key :
    (i c : ℕ) (w : World)
    → contains c keypad ≡ true
    → send_dtmf i (c ∷ []) (pos 120) w ≡ press i c w
unfolding send_dtmf press_all is_dtmf
send_dtmf_key i c w h =
    let (same, digit) = keypad_digit c h in
    let good : not (contains (to_upper c) dtmf_digits && true) ≡ false =
      ap (λ (x : ℕ). not (contains x dtmf_digits && true)) same
      ∙ ap (λ (b : Bool). not (b && true)) digit in
    if_false (not (contains (to_upper c) dtmf_digits && true)) _ _ good
    ∙ ap (λ (x : ℕ). press i x w) same

and_then-same :
    (x : Result (Unit {0}) × World) (m n : Method (Unit {0}))
    → ((v : World) → m v ≡ n v)
    → and_then x m ≡ and_then x n
and_then-same (ok u, v) m n h = h v
and_then-same (err e, v) m n h = refl

-- A line of the softphone's user goes out as its keys, each pressed as it stands and in order; the
-- other characters are skipped, and no line is refused for its characters.
pub type_line-press_keys :
    (i : ℕ) (line : Text) (w : World) → type_line i line w ≡ press_keys i line w
unfolding type_line
type_line-press_keys i [] w = refl
type_line-press_keys i (c ∷ line) w = elim (Bool-cases (contains c keypad)) [
  | inl key ↦
      if_true (contains c keypad) _ _ key
      ∙ ap (λ (x : Result (Unit {0}) × World). and_then x (type_line i line))
          (send_dtmf_key i c w key)
      ∙ and_then-same (press i c w) (type_line i line) (press_keys i line)
          (type_line-press_keys i line)
      ∙ sym (if_true (contains c keypad) _ _ key)
  | inr other ↦
      if_false (contains c keypad) _ _ other
      ∙ type_line-press_keys i line w
      ∙ sym (if_false (contains c keypad) _ _ other)
]
