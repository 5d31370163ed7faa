-- ===== src/UserAgent/Registering.antt =====
-- What `register` and `unregister` end with, and what they leave of the agent.
use baresip_python.Base.{
  ℕ, ◌≡◌, refl, ◌∙◌, ap, Bool, true, false, not, Option, none, some, List, [], ◌∷◌, ◌++◌, ◌⊎◌, inl,
  inr, Text, ◌==◌, if◌then◌else◌, arith, Option-cases, if_false,
}
use baresip_python.Errors.{Error, Result, ok, err}
use baresip_python.Call.{Arrival}
use baresip_python.Call.Transfer.{or_later}
use baresip_python.UserAgent.{
  UserAgent, registration_verdict, first_registration, register_error, note, or_unconfirmed,
  await_registration, confirm, register, unregister,
}
use baresip_python.Wire.{ua_register}
use baresip_python.World.{World, head_turn, head_wait, command, pause, deliver}

-- The agent says `goal` if the method returned, and what it said before if it raised.
abbrev pub Notes : Bool → UserAgent → Result (Unit {0}) × UserAgent × World → Type 0
Notes goal a x =
    ((x.0 ≡ ok tt) × (x.1.registered ≡ goal)) ⊎ ((e : Error) × (x.0 ≡ err e) × (x.1 ≡ a))

Notes-note :
    (goal : Bool) (r : Result (Unit {0})) (a : UserAgent) (w : World)
    → Notes goal a (r, note goal r a, w)
Notes-note goal (ok u) a w = inl (refl, refl)
Notes-note goal (err e) a w = inr (e, refl, refl)

confirm-Notes :
    (goal : Bool) (e : Option Error) (arrivals : List Arrival) (a : UserAgent) (w : World)
    → Notes goal a (confirm goal e arrivals a w)
unfolding confirm await_registration
confirm-Notes goal (some e) arrivals a w = inr (e, refl, refl)
confirm-Notes goal none arrivals a w = elim (Option-cases (first_registration a.handle arrivals)) [
  | inl nothing ↦ rw (nothing, confirm, await_registration) (Notes-note goal _ a (pause w))
  | inr (r, something) ↦ rw (something, confirm, await_registration) (Notes-note goal r a w)
]

Notes-if :
    (goal : Bool) (a : UserAgent) (b : Bool) (x y : Result (Unit {0}) × UserAgent × World)
    → Notes goal a x
    → Notes goal a y
    → Notes goal a (if b then x else y)
Notes-if goal a true x y p q = p
Notes-if goal a false x y p q = q

Notes-skip :
    (a : UserAgent) (b : Bool) (w : World) (x : Result (Unit {0}) × UserAgent × World)
    → a.registered ≡ b
    → Notes false a x
    → Notes false a (if not b then (ok tt, a, w) else x)
Notes-skip a true w x e q = q
Notes-skip a false w x e q = inl (refl, e)

-- After `register` returns, the agent says that it is registered. When `register` raises, nothing
-- of the agent has changed.
pub register-Notes :
    (strerror : ℕ → Text) (a : UserAgent) (w : World) → Notes true a (register strerror a w)
unfolding register
register-Notes strerror a w =
    Notes-if true a a.registration_disabled _ _ (inr (_, refl, refl)) (confirm-Notes true _ _ a _)

-- After `unregister` returns, the agent says that it is not registered. When `unregister` raises,
-- nothing of the agent has changed.
pub unregister-Notes : (a : UserAgent) (w : World) → Notes false a (unregister a w)
unfolding unregister
unregister-Notes a w =
    Notes-if false a a.registration_disabled _ _ (inr (_, refl, refl))
      (Notes-skip a a.registered w _ refl (confirm-Notes false _ _ a _))

first_registration-append :
    (h : ℕ) (early later : List Arrival)
    → first_registration h (early ++ later)
      ≡ or_later (first_registration h early) (first_registration h later)
unfolding first_registration
first_registration-append h [] later = refl
first_registration-append h (a ∷ early) later =
    elim (Option-cases
      (if a.event.ua == h then registration_verdict a.event.event a.event.text else none)) [
        | inl e ↦ rw (e, first_registration) (first_registration-append h early later)
        | inr (r, e) ↦ rw (e, first_registration)
      ]

confirm-first :
    (goal : Bool) (e : Option Error) (arrivals : List Arrival) (a : UserAgent) (w : World)
    → e ≡ none
    → (confirm goal e arrivals a w).0
      ≡ or_unconfirmed (first_registration a.handle (arrivals ++ head_wait w.waits))
unfolding confirm await_registration
confirm-first goal (some e) arrivals a w h = absurd (ground arith)
confirm-first goal none arrivals a w h =
    rw (first_registration-append a.handle arrivals (head_wait w.waits))
      (elim (Option-cases (first_registration a.handle arrivals)) [
        | inl nothing ↦ rw (nothing, confirm, await_registration)
        | inr (r, something) ↦ rw (something, confirm, await_registration)
      ])

-- Where the account allows registration and the reply to the command is no error, `register` ends
-- with the first answer of the registrar among the events that it hears; with none it raises
-- RegistrationError.
pub register-first :
    (strerror : ℕ → Text) (a : UserAgent) (w : World)
    → a.registration_disabled ≡ false
    → register_error strerror (head_turn w.turns).reply ≡ none
    → (register strerror a w).0
      ≡ or_unconfirmed
          (first_registration a.handle ((head_turn w.turns).arrivals ++ head_wait w.waits))
unfolding register command deliver
register-first strerror a w able clean =
    ap (λ (x : Result (Unit {0}) × UserAgent × World). x.0)
      (if_false a.registration_disabled _ _ able)
    ∙ confirm-first true _ (head_turn w.turns).arrivals a (command (ua_register a.handle) w) clean
