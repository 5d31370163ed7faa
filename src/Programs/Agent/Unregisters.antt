-- ===== src/Programs/Agent/Unregisters.antt =====
-- The frame of the programs of src/examples: what goes out around a program's own commands.
use baresip_python.Base.{
  ℕ, ◌≡◌, refl, sym, ◌∙◌, ap, subst, Bool, true, false, not, Option, none, some, List, [], ◌∷◌,
  ◌++◌, Text, text_eq, if_true, if_false, Bool-cases, inl, inr, arith,
}
use baresip_python.Errors.{Error, Result, ok, err}
use baresip_python.Call.{Arrival}
use baresip_python.UserAgent.{
  UserAgent, Identity, TransferPolicy, aor_of, made, reply_handle, create_with, create, policy_of,
  note, first_registration, await_registration, register_error, unregister_error, confirm, register,
  unregister,
}
use baresip_python.Wire.{Command, ua_alloc, ua_register, ua_unregister}
use baresip_python.World.{World, head_turn, command, pause, deliver}
use baresip_python.Programs.Agent.{Body, leave, serve_as, run_as, run_agent}

-- What a confirmed command of an agent leaves.
record Confirms (goal : Bool) (a : UserAgent) (sent : List Command)
    (x : Result (Unit {0}) × UserAgent × World) : Type 0 where
  same_handle : x.1.handle ≡ a.handle
  noted : x.0 ≡ ok tt → x.1.registered ≡ goal
  same_ability : x.1.registration_disabled ≡ a.registration_disabled
  same_sent : x.2.sent ≡ sent

note-Confirms :
    (goal : Bool) (r : Result (Unit {0})) (a : UserAgent) (w : World)
    → Confirms goal a w.sent (r, note goal r a, w)
note-Confirms goal (ok u) a w = record {
  same_handle = refl;
  noted = λ e. refl;
  same_ability = refl;
  same_sent = refl;
}
note-Confirms goal (err x) a w = record {
  same_handle = refl;
  noted = λ e. absurd (ground arith);
  same_ability = refl;
  same_sent = refl;
}

await_registration-Confirms :
    (goal : Bool) (o : Option (Result (Unit {0}))) (a : UserAgent) (w : World)
    → Confirms goal a w.sent (await_registration goal o a w)
unfolding await_registration pause deliver
await_registration-Confirms goal (some r) a w = note-Confirms goal r a w
await_registration-Confirms goal none a w = note-Confirms goal _ a (pause w)

confirm-Confirms :
    (goal : Bool) (e : Option Error) (arrivals : List Arrival) (a : UserAgent) (w : World)
    → Confirms goal a w.sent (confirm goal e arrivals a w)
unfolding confirm
confirm-Confirms goal (some x) arrivals a w = record {
  same_handle = refl;
  noted = λ e. absurd (ground arith);
  same_ability = refl;
  same_sent = refl;
}
confirm-Confirms goal none arrivals a w =
    await_registration-Confirms goal (first_registration a.handle arrivals) a w

-- The agent may unregister: it is registered, and its account has registrations.
record IsEnrolled (a : UserAgent) : Type 0 where
  enrolled : a.registered ≡ true
  able : a.registration_disabled ≡ false

register-IsEnrolled :
    (strerror : ℕ → Text) (a : UserAgent) (w : World)
    → (register strerror a w).0 ≡ ok tt
    → IsEnrolled (register strerror a w).1
      × ((register strerror a w).1.handle ≡ a.handle)
      × ((register strerror a w).2.sent ≡ w.sent ++ ua_register a.handle ∷ [])
unfolding register command deliver
register-IsEnrolled strerror a w h = elim (Bool-cases a.registration_disabled) [
  | inl off ↦ absurd (
      refused
        (ap (λ (x : Result (Unit {0}) × UserAgent × World). x.0)
          (if_true a.registration_disabled _ _ off))
        h)
  | inr able ↦
      let c =
        confirm-Confirms true (register_error strerror (head_turn w.turns).reply)
          (head_turn w.turns).arrivals a (command (ua_register a.handle) w) in
      subst
        (λ (x : Result (Unit {0}) × UserAgent × World).
          x.0 ≡ ok tt
          → IsEnrolled x.1
            × (x.1.handle ≡ a.handle)
            × (x.2.sent ≡ w.sent ++ ua_register a.handle ∷ []))
        (sym (if_false a.registration_disabled _ _ able))
        (λ k. (
          record { enrolled = c.noted k; able = c.same_ability ∙ able },
          c.same_handle,
          c.same_sent,
        ))
        h
]
  where
    refused : {r : Result (Unit {0})} {e : Error} → r ≡ err e → r ≡ ok tt → ⊥
    refused p q = ground arith

unregister_sent :
    (a : UserAgent) (w : World)
    → IsEnrolled a
    → (unregister a w).2.sent ≡ w.sent ++ ua_unregister a.handle ∷ []
unfolding unregister command deliver
unregister_sent a w e =
    let c =
      confirm-Confirms false (unregister_error (head_turn w.turns).reply)
        (head_turn w.turns).arrivals a (command (ua_unregister a.handle) w) in
    ap (λ (x : Result (Unit {0}) × UserAgent × World). x.2.sent)
      (if_false a.registration_disabled _ _ e.able
        ∙ if_false (not a.registered) _ _ (ap not e.enrolled))
    ∙ c.same_sent

-- Around what the body sends, the program allocates and registers its agent, and unregisters it.
pub record Frames (identity : Identity) (body : Body) (w v : World) : Type 0 where
  pub agent : UserAgent
  pub start : World
  pub begun :
      start.sent ≡ (w.sent ++ ua_alloc (aor_of identity) ∷ []) ++ ua_register agent.handle ∷ []
  pub served : (body agent start).0 ≡ ok tt
  pub left : v.sent ≡ (body agent start).1.sent ++ ua_unregister agent.handle ∷ []

leave-Frames :
    (identity : Identity) (body : Body) (w u : World) (a : UserAgent)
    (x : Result (Unit {0}) × World)
    → body a u ≡ x
    → IsEnrolled a
    → u.sent ≡ (w.sent ++ ua_alloc (aor_of identity) ∷ []) ++ ua_register a.handle ∷ []
    → (leave a x).0 ≡ ok tt
    → Frames identity body w (leave a x).1
unfolding leave
leave-Frames identity body w u a (err x, v) e able s h = absurd (ground arith)
leave-Frames identity body w u a (ok t, v) e able s h = record {
  agent = a;
  start = u;
  begun = s;
  served = ap (λ (y : Result (Unit {0}) × World). y.0) e;
  left =
      unregister_sent a v able
      ∙ ap (λ (y : Result (Unit {0}) × World). y.1.sent ++ ua_unregister a.handle ∷ []) (sym e);
}

serve_as-Frames :
    (identity : Identity) (body : Body) (w : World) (x : Result (Unit {0}) × UserAgent × World)
    → (x.0 ≡ ok tt → IsEnrolled x.1)
    → x.2.sent ≡ (w.sent ++ ua_alloc (aor_of identity) ∷ []) ++ ua_register x.1.handle ∷ []
    → (serve_as body x).0 ≡ ok tt
    → Frames identity body w (serve_as body x).1
unfolding serve_as
serve_as-Frames identity body w (err x, a, u) able s h = absurd (ground arith)
serve_as-Frames identity body w (ok t, a, u) able s h =
    leave-Frames identity body w u a (body a u) refl (able refl) s h

register_sent :
    (strerror : ℕ → Text) (a : UserAgent) (w : World)
    → (register strerror a w).0 ≡ ok tt
    → (register strerror a w).2.sent ≡ w.sent ++ ua_register (register strerror a w).1.handle ∷ []
register_sent strerror a w h =
    let (able, same, sent) = register-IsEnrolled strerror a w h in
    sent ∙ ap (λ (n : ℕ). w.sent ++ ua_register n ∷ []) (sym same)

served-ok :
    (body : Body) (x : Result (Unit {0}) × UserAgent × World)
    → (serve_as body x).0 ≡ ok tt
    → x.0 ≡ ok tt
unfolding serve_as
served-ok body (ok t, a, u) h = refl
served-ok body (err e, a, u) h = absurd (ground arith)

run_as-Frames :
    (strerror : ℕ → Text) (identity : Identity) (body : Body) (w u : World) (r : Result UserAgent)
    → u.sent ≡ w.sent ++ ua_alloc (aor_of identity) ∷ []
    → (run_as strerror body (r, u)).0 ≡ ok tt
    → Frames identity body w (run_as strerror body (r, u)).1
unfolding run_as
run_as-Frames strerror identity body w u (err e) s h = absurd (ground arith)
run_as-Frames strerror identity body w u (ok a) s h =
    let enlisted = served-ok body (register strerror a u) h in
    serve_as-Frames identity body w (register strerror a u)
      (λ k. (register-IsEnrolled strerror a u k).0)
      (register_sent strerror a u enlisted
        ∙ ap (λ (l : List Command). l ++ ua_register (register strerror a u).1.handle ∷ []) s)
      h

-- A program that ends without an exception has allocated its agent, registered it, done its own
-- work, which ended without an exception too, and as the last thing unregistered the agent.
pub run_agent-Frames :
    (strerror : ℕ → Text) (identity : Identity) (body : Body) (w : World)
    → (run_agent strerror identity body w).0 ≡ ok tt
    → Frames identity body w (run_agent strerror identity body w).1
unfolding run_agent create create_with policy_of text_eq command deliver
run_agent-Frames strerror identity body w h =
    run_as-Frames strerror identity body w (command (ua_alloc (aor_of identity)) w)
      (made identity TransferPolicy.manual (reply_handle (head_turn w.turns).reply)) refl h
