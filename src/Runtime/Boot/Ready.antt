-- ===== src/Runtime/Boot/Ready.antt =====
-- The commands of `start` of src/baresip/runtime.py, and when it goes on.
use baresip_python.Base.{
  ◌≡◌, refl, sym, ◌∙◌, ap, Bool, true, false, Option, none, some, List, [], ◌∷◌, ◌++◌, append-nil,
  append_assoc, Text, text_eq, any, All, Bool-cases, arith, inl, inr,
}
use baresip_python.Errors.{Result, ok, err}
use baresip_python.Runtime.Commands.{ReplyData}
use baresip_python.Call.Session.{Method}
use baresip_python.Call.Transfer.{and_then}
use baresip_python.Wire.{
  Command, Reply, audio_drivers, set_sip_trace, set_expose_headers, set_instance_id,
}
use baresip_python.World.{World, head_turn, command, deliver}
use baresip_python.Runtime.Boot.{
  Registry, Setup, tell_stack, names_in, registered, check_drivers, checked_drivers, drivers_reply,
  validate_audio_drivers, start_drivers, start_identity, start_headers, start_trace, set_up,
}

-- From the world `w`, a part of a coroutine that ended with `x` sent `cs` in order, up to the first
-- command that failed.
record SendsFrom (w : World) (x : Result (Unit {0}) × World) (cs : List Command) : Type 0 where
  sent_part : List Command
  left_part : List Command
  split : cs ≡ sent_part ++ left_part
  out : x.1.sent ≡ w.sent ++ sent_part
  complete : x.0 ≡ ok tt → left_part ≡ []

nothing-SendsFrom : (w : World) → SendsFrom w (ok tt, w) []
nothing-SendsFrom w = record {
  sent_part = [];
  left_part = [];
  split = refl;
  out = sym (append-nil w.sent);
  complete = λ e. refl;
}

command-SendsFrom :
    (w : World) (reply : Result (Unit {0})) (c : Command)
    → SendsFrom w (reply, command c w) (c ∷ [])
unfolding command deliver
command-SendsFrom w reply c = record {
  sent_part = c ∷ [];
  left_part = [];
  split = refl;
  out = refl;
  complete = λ e. refl;
}

and_then-SendsFrom :
    (w : World) (x : Result (Unit {0}) × World) (rest : Method (Unit {0})) (cs ds : List Command)
    → SendsFrom w x cs
    → ((v : World) → SendsFrom v (rest v) ds)
    → SendsFrom w (and_then x rest) (cs ++ ds)
and_then-SendsFrom w (ok u, v) rest cs ds first second =
    let t = second v in
    record {
      sent_part = first.sent_part ++ t.sent_part;
      left_part = t.left_part;
      split =
          ap (λ (l : List Command). l ++ ds)
            (first.split
              ∙ ap (λ (l : List Command). first.sent_part ++ l) (first.complete refl)
              ∙ append-nil first.sent_part)
          ∙ ap (λ (l : List Command). first.sent_part ++ l) t.split
          ∙ sym (append_assoc first.sent_part t.sent_part t.left_part);
      out =
          t.out
          ∙ ap (λ (l : List Command). l ++ t.sent_part) first.out
          ∙ append_assoc w.sent first.sent_part t.sent_part;
      complete = t.complete;
    }
and_then-SendsFrom w (err e, v) rest cs ds first second = record {
  sent_part = first.sent_part;
  left_part = first.left_part ++ ds;
  split =
      ap (λ (l : List Command). l ++ ds) first.split
      ∙ append_assoc first.sent_part first.left_part ds;
  out = first.out;
  complete = λ q. absurd (ground arith);
}

tell_stack-SendsFrom : (c : Command) (w : World) → SendsFrom w (tell_stack c w) (c ∷ [])
unfolding tell_stack
tell_stack-SendsFrom c w = go (head_turn w.turns).reply
  where
    go :
        (r : Result Reply)
        → SendsFrom w
            (elim r [ ok x ↦ (ok tt, command c w) | err e ↦ (err e, command c w) ])
            (c ∷ [])
    go (ok x) = command-SendsFrom w (ok tt) c
    go (err e) = command-SendsFrom w (err e) c

abbrev pub driver_commands : List (Registry × Text) → List Command
driver_commands [] = []
driver_commands (d ∷ ds) = audio_drivers ∷ []

abbrev pub identity_commands : Option Text → List Command
identity_commands none = []
identity_commands (some []) = []
identity_commands (some (c ∷ s)) = set_instance_id (c ∷ s) ∷ []

abbrev pub header_commands : List Text → List Command
header_commands [] = []
header_commands (name ∷ names) = set_expose_headers (name ∷ names) ∷ []

abbrev pub trace_commands : Bool → List Command
trace_commands false = []
trace_commands true = set_sip_trace true ∷ []

-- What `start` has to send.
abbrev pub startup_commands : Setup → List Command
startup_commands s =
    ((driver_commands s.drivers ++ identity_commands s.instance_id)
      ++ header_commands s.expose_headers)
    ++ trace_commands s.sip_trace

drivers-SendsFrom :
    (ds : List (Registry × Text)) (w : World)
    → SendsFrom w (start_drivers ds w) (driver_commands ds)
unfolding start_drivers validate_audio_drivers
drivers-SendsFrom [] w = nothing-SendsFrom w
drivers-SendsFrom (d ∷ ds) w = command-SendsFrom w _ audio_drivers

identity-SendsFrom :
    (id : Option Text) (w : World) → SendsFrom w (start_identity id w) (identity_commands id)
unfolding start_identity
identity-SendsFrom none w = nothing-SendsFrom w
identity-SendsFrom (some []) w = nothing-SendsFrom w
identity-SendsFrom (some (c ∷ s)) w = command-SendsFrom w _ (set_instance_id (c ∷ s))

headers-SendsFrom :
    (names : List Text) (w : World) → SendsFrom w (start_headers names w) (header_commands names)
unfolding start_headers
headers-SendsFrom [] w = nothing-SendsFrom w
headers-SendsFrom (name ∷ names) w = tell_stack-SendsFrom (set_expose_headers (name ∷ names)) w

trace-SendsFrom : (b : Bool) (w : World) → SendsFrom w (start_trace b w) (trace_commands b)
unfolding start_trace
trace-SendsFrom false w = nothing-SendsFrom w
trace-SendsFrom true w = tell_stack-SendsFrom (set_sip_trace true) w

set_up-SendsFrom : (s : Setup) (w : World) → SendsFrom w (set_up s w) (startup_commands s)
unfolding set_up
set_up-SendsFrom s w =
    and_then-SendsFrom w _ (start_trace s.sip_trace) _ _
      (and_then-SendsFrom w _ (start_headers s.expose_headers) _ _
        (and_then-SendsFrom w _ (start_identity s.instance_id) _ _ (drivers-SendsFrom s.drivers w)
          (identity-SendsFrom s.instance_id))
        (headers-SendsFrom s.expose_headers))
      (trace-SendsFrom s.sip_trace)

abbrev pub HasDriver : ReplyData → Registry × Text → Type 0
unfolding names_in
HasDriver d (registry, name) = any (text_eq name) (names_in registry d) ≡ true

-- The stack's answer lists the drivers that are wanted, if any are.
pub data Lists (reply : Result Reply) : List (Registry × Text) → Type 0 where
  none_wanted : Lists reply []
  listed :
      {wanted : List (Registry × Text)} (r : Reply) (d : ReplyData)
      → reply ≡ ok r
      → registered r.payload ≡ ok d
      → All (HasDriver d) wanted
      → Lists reply wanted

check_drivers-HasDriver :
    (wanted : List (Registry × Text)) (d : ReplyData)
    → check_drivers wanted d ≡ ok tt
    → All (HasDriver d) wanted
unfolding check_drivers
check_drivers-HasDriver [] d h = tt
check_drivers-HasDriver ((registry, name) ∷ wanted) d h =
    elim (Bool-cases (any (text_eq name) (names_in registry d))) [
      | inl known ↦ (known, check_drivers-HasDriver wanted d (rw known at h))
      | inr unknown ↦ absurd (ground arith)
    ]

drivers_reply-Lists :
    (wanted : List (Registry × Text)) (reply : Result Reply)
    → drivers_reply wanted reply ≡ ok tt
    → Lists reply wanted
unfolding registered drivers_reply
drivers_reply-Lists wanted (err e) h = absurd (ground arith)
drivers_reply-Lists wanted (ok r) h = go (registered r.payload) refl h
  where
    go :
        (x : Result ReplyData)
        → registered r.payload ≡ x
        → checked_drivers wanted x ≡ ok tt
        → Lists (ok r) wanted
    go (ok d) e k = listed r d refl e (check_drivers-HasDriver wanted d k)
    go (err x) e k = absurd (ground arith)

and_then-ok :
    (x : Result (Unit {0}) × World) (rest : Method (Unit {0}))
    → (and_then x rest).0 ≡ ok tt
    → x.0 ≡ ok tt
and_then-ok (ok u, w) rest h = refl
and_then-ok (err e, w) rest h = absurd (ground arith)

drivers-Lists :
    (ds : List (Registry × Text)) (w : World)
    → (start_drivers ds w).0 ≡ ok tt
    → Lists (head_turn w.turns).reply ds
unfolding start_drivers validate_audio_drivers
drivers-Lists [] w h = none_wanted
drivers-Lists (d ∷ ds) w h = drivers_reply-Lists (d ∷ ds) (head_turn w.turns).reply h

-- `start` goes on only if the stack lists every audio driver that the configuration names, and then
-- it has sent its commands in this order: the question for the drivers, the instance id, the
-- exposed headers, the trace, each where it is configured.
pub set_up-Lists :
    (s : Setup) (w : World)
    → (set_up s w).0 ≡ ok tt
    → Lists (head_turn w.turns).reply s.drivers
      × ((set_up s w).1.sent ≡ w.sent ++ startup_commands s)
unfolding set_up
set_up-Lists s w h =
    let third = and_then-ok _ (start_trace s.sip_trace) h in
    let second = and_then-ok _ (start_headers s.expose_headers) third in
    let first = and_then-ok _ (start_identity s.instance_id) second in
    let sends = set_up-SendsFrom s w in
    (
      drivers-Lists s.drivers w first,
      sends.out
          ∙ ap (λ (l : List Command). w.sent ++ l)
              (sym (append-nil sends.sent_part)
                ∙ ap (λ (l : List Command). sends.sent_part ++ l) (sym (sends.complete h))
                ∙ sym sends.split),
    )

-- Whatever the stack answers, what `start` has sent is a beginning of its commands.
pub set_up_prefix :
    (s : Setup) (w : World)
    → (cs : List Command) × (ds : List Command) × (startup_commands s ≡ cs ++ ds)
      × ((set_up s w).1.sent ≡ w.sent ++ cs)
set_up_prefix s w =
    let sends = set_up-SendsFrom s w in (sends.sent_part, sends.left_part, sends.split, sends.out)
