-- ===== src/Call/Session/Hold.antt =====
-- What `hold` and `resume` leave: our own flag, and what was sent.
use baresip_python.Base.{
  ℕ, ◌≡◌, refl, ◌≢◌, ◌∙◌, Bool, true, false, not, Option, none, some, [], ◌∷◌, ◌++◌, ◌⊎◌, inl, inr,
  if◌then◌else◌, arith, Bool-cases, append_assoc, ==_refl,
}
use baresip_python.Errors.{Error, Result, ok, err}
use baresip_python.Call.Life.{receive_all-keeps}
use baresip_python.Call.Session.{
  handle_of, is_up, same_bool, saw_offer, roll_back, finish_hold, request_hold, set_hold,
}
use baresip_python.Wire.{Command, call_hold}
use baresip_python.World.{World, head_turn, command, update, deliver, reply_error}

pub on_hold-command :
    (c : Command) (i : ℕ) (w : World) → ((command c w).calls i).on_hold ≡ (w.calls i).on_hold
unfolding command deliver
on_hold-command c i w = (receive_all-keeps (head_turn w.turns).arrivals (w.calls i)).1

pub handle-command : (c : Command) (i : ℕ) (w : World) → handle_of i (command c w) ≡ handle_of i w
unfolding command deliver
handle-command c i w = (receive_all-keeps (head_turn w.turns).arrivals (w.calls i)).0

pub sent-command : (c : Command) (w : World) → (command c w).sent ≡ w.sent ++ c ∷ []
unfolding command deliver
sent-command c w = refl

-- Our flag is what was asked for if the method returned, and else what it was.
abbrev pub Sets : ℕ → Bool → World → Result (Unit {0}) × World → Type 0
Sets i hold w (r, v) =
    ((r ≡ ok tt) × ((v.calls i).on_hold ≡ hold))
    ⊎ ((e : Error) × (r ≡ err e) × ((v.calls i).on_hold ≡ (w.calls i).on_hold))

finish_hold-Sets :
    (i : ℕ) (hold : Bool) (e : Option Error) (offer : Bool) (w v : World)
    → (v.calls i).on_hold ≡ (w.calls i).on_hold
    → Sets i hold w (finish_hold i hold e offer v)
unfolding finish_hold roll_back update
finish_hold-Sets i hold (some e) offer w v h = inr (e, refl, h)
finish_hold-Sets i hold none false w v h = inr (_, refl, on_hold-command _ i v ∙ h)
finish_hold-Sets i hold none true w v h = inl (refl, rw (==_refl i) refl)

same_bool_eq : (a b : Bool) → same_bool a b ≡ true → a ≡ b
same_bool_eq true b h = ground arith
same_bool_eq false b h = ground arith

-- After `hold` our flag says held, and after `resume` it says not held, if the method returned. If
-- it raised, for whatever reason, the flag is what it was before.
pub set_hold-Sets : (i : ℕ) (hold : Bool) (w : World) → Sets i hold w (set_hold i hold w)
unfolding set_hold request_hold
set_hold-Sets i hold w = elim (Bool-cases (same_bool (w.calls i).on_hold hold)) [
  | inl same ↦ rw (same, set_hold) (inl (refl, same_bool_eq _ _ same))
  | inr differs ↦ elim (Bool-cases (is_up (w.calls i).state)) [
    | inr down ↦ rw (differs, set_hold, down) (inr (_, refl, refl))
    | inl up ↦
        rw (differs, set_hold, up, request_hold)
          (finish_hold-Sets i hold _ _ w _ (on_hold-command _ i w))
  ]
]

-- On an established call whose flag differs, with a clean reply: if the re-INVITE's offer was seen
-- then the one command is the one asked for and the method returns; if none was seen then the
-- opposite command follows it and the method raises.
pub set_hold-sent :
    (i : ℕ) (hold : Bool) (w : World)
    → is_up (w.calls i).state ≡ true
    → same_bool (w.calls i).on_hold hold ≡ false
    → reply_error (head_turn w.turns).reply ≡ none
    → let h = handle_of i w in
      let offer = saw_offer h (head_turn w.turns).arrivals in
      ((set_hold i hold w).1.sent
        ≡ w.sent
          ++ (if offer
              then call_hold h hold ∷ []
              else call_hold h hold ∷ call_hold h (not hold) ∷ []))
      × (offer ≡ true → (set_hold i hold w).0 ≡ ok tt)
      × (offer ≡ false → (set_hold i hold w).0 ≢ ok tt)
unfolding set_hold request_hold finish_hold roll_back update
set_hold-sent i hold w up differs clean =
    elim (Bool-cases (saw_offer (handle_of i w) (head_turn w.turns).arrivals)) [
      | inl seen ↦
          rw (differs, set_hold, up, request_hold, clean, seen)
            (sent-command _ w, (λ e. refl), (λ e. absurd (ground arith)))
      | inr unseen ↦
          rw (differs, set_hold, up, request_hold, clean, unseen)
            (
              (rw
                  (
                    sent-command _ (command (call_hold (handle_of i w) hold) w),
                    sent-command _ w,
                    handle-command _ i w,
                  )
                  (append_assoc w.sent (call_hold (handle_of i w) hold ∷ [])
                    (call_hold (handle_of i w) (not hold) ∷ []))),
              (λ e. absurd (ground arith)),
              (λ e x. cc),
            )
    ]
