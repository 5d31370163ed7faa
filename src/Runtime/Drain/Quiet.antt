-- ===== src/Runtime/Drain/Quiet.antt =====
-- What follows a `drain`, src/baresip/runtime.py and ua.py.
use baresip_python.Base.{
  ℕ, ◌≡◌, refl, sym, ◌∙◌, ap, subst, Bool, true, false, not, List, [], ◌∷◌, ◌⊎◌, inl, inr, ◌↔◌,
  Text, if_true, if_false, arith, Bool-cases,
}
use baresip_python.Errors.{Error, Result, ok, err}
use baresip_python.Runtime.Drain.{is_idle, next_round, poll, start_draining, after_set_drain, drain}
use baresip_python.Wire.{Reply, set_drain, call_count}
use baresip_python.World.{World, Turn, head_turn, command, pause, deliver}
use baresip_python.UserAgent.Dial.{VideoOffer, dial}
use baresip_python.UserAgent.Dial.Dialing.{dial-draining}

poll-draining : (turns : List Turn) (w : World) → (poll turns w).1.draining ≡ w.draining
unfolding poll command pause deliver
poll-draining [] w = refl
poll-draining (t ∷ turns) w =
    go (is_idle t.reply) (poll turns (pause (command call_count w)))
      (poll-draining turns (pause (command call_count w)))
  where
    go :
        (r : Result Bool) (rest : Result (Unit {0}) × World)
        → rest.1.draining ≡ w.draining
        → (next_round r rest (command call_count w)).1.draining ≡ w.draining
    go (err e) rest h = refl
    go (ok true) rest h = refl
    go (ok false) rest h = h

drain-draining : (w : World) → w.running ≡ true → (drain w).1.draining ≡ true
unfolding drain after_set_drain command deliver
drain-draining w running =
    subst Draining (sym (if_false (not w.running) _ _ (ap not running)))
      (elim (Bool-cases w.draining) [
        | inl before ↦
            subst Draining (sym (if_true w.draining _ _ before)) (poll-draining w.turns w ∙ before)
        | inr first ↦
            subst Draining (sym (if_false w.draining _ _ first))
              (go (head_turn w.turns).reply (command set_drain (start_draining w)) refl)
      ])
  where
    Draining : Result (Unit {0}) × World → Type 0
    Draining x = x.1.draining ≡ true

    go :
        (r : Result Reply) (v : World) → v.draining ≡ true → (after_set_drain r v).1.draining ≡ true
    go (err e) v h = h
    go (ok r) v h = poll-draining v.turns v ∙ h

-- Once `drain` was called on a running runtime, whatever it ended with, no dial goes out: the
-- error is ValueError or DrainingError and nothing changes.
pub dial-drain :
    (ua : ℕ) (uri : Text) (headers : List (Text × Text)) (video : VideoOffer) (w : World)
    → w.running ≡ true
    → (dial ua uri headers video (drain w).1 ≡ (err Error.value_error, (drain w).1))
      ⊎ (dial ua uri headers video (drain w).1 ≡ (err Error.draining_error, (drain w).1))
dial-drain ua uri headers video w running =
    dial-draining ua uri headers video (drain w).1 (drain-draining w running)

-- The replies count the live calls, none of them zero, until one that is.
pub data Empties : List Turn → Type 0 where
  idle : {t : Turn} {turns : List Turn} → is_idle t.reply ≡ ok true → Empties (t ∷ turns)
  busy :
      {t : Turn} {turns : List Turn}
      → is_idle t.reply ≡ ok false
      → Empties turns
      → Empties (t ∷ turns)

one_round :
    (t : Turn) (turns : List Turn) (rest : Result (Unit {0}) × World) (w : World) (r : Result Bool)
    → is_idle t.reply ≡ r
    → (rest.0 ≡ ok tt → Empties turns)
    → (next_round r rest w).0 ≡ ok tt
    → Empties (t ∷ turns)
one_round t turns rest w (err e) same f k = absurd (ground arith)
one_round t turns rest w (ok true) same f k = Empties.idle same
one_round t turns rest w (ok false) same f k = Empties.busy same (f k)

poll_to : (turns : List Turn) (w : World) → (poll turns w).0 ≡ ok tt → Empties turns
unfolding poll
poll_to [] w h = absurd (ground arith)
poll_to (t ∷ turns) w h =
    one_round t turns _ _ (is_idle t.reply) refl (poll_to turns (pause (command call_count w))) h

poll_from : {turns : List Turn} (w : World) → Empties turns → (poll turns w).0 ≡ ok tt
unfolding poll
poll_from w (Empties.idle e) = rw (e, poll)
poll_from w (Empties.busy e rest) = rw (e, poll) (poll_from _ rest)

-- The loop of `drain` returns exactly when the stack's replies count live calls down to a zero.
pub poll-Empties : (turns : List Turn) (w : World) → ((poll turns w).0 ≡ ok tt) ↔ Empties turns
poll-Empties turns w = (poll_to turns w, poll_from w)
