-- ===== src/Call/Keys/Sent.antt =====
-- Which keys `send_dtmf` sends.
use baresip_python.Base.{
  ℕ, ◌≡◌, refl, sym, ◌∙◌, ap, true, false, List, [], ◌∷◌, ◌++◌, Text, map, all, to_upper, arith,
  Bool-cases, inl, inr, append_assoc, append-nil, ◌⊎◌,
}
use baresip_python.Errors.{Error, Result, ok, err}
use baresip_python.Events.{ℤ}
use baresip_python.Call.Session.{Method, handle_of, request}
use baresip_python.Call.Session.Hold.{handle-command, sent-command}
use baresip_python.Call.Transfer.{and_then}
use baresip_python.Call.Keys.{send_digit, sleep, press, press_all, is_dtmf, is_negative, send_dtmf}
use baresip_python.Call.Life.{receive_all-keeps}
use baresip_python.Wire.{Command, call_send_digit}
use baresip_python.World.{World, head_wait, pause, deliver}

-- Each digit goes down and up again.
abbrev pub keystrokes : ℕ → Text → List Command
keystrokes h [] = []
keystrokes h (d ∷ ds) = call_send_digit h d ∷ call_send_digit h b'R' ∷ keystrokes h ds

-- From `w` the method has sent `cs` beside what was sent, if it returned; the handle stays.
record Sends (i : ℕ) (cs : List Command) (w : World) (x : Result (Unit {0}) × World) : Type 0 where
  pub sent : x.0 ≡ ok tt → x.1.sent ≡ w.sent ++ cs
  pub handle : handle_of i x.1 ≡ handle_of i w

Sends-and_then :
    (i : ℕ) (cs ds : List Command) (w : World) (x : Result (Unit {0}) × World)
    (n : Method (Unit {0}))
    → Sends i cs w x
    → ((v : World) → handle_of i v ≡ handle_of i w → Sends i ds v (n v))
    → Sends i (cs ++ ds) w (and_then x n)
Sends-and_then i cs ds w (ok u, v) n p q =
    let next = q v p.handle in
    record {
      sent = λ e. next.sent e ∙ rw (p.sent refl) (append_assoc w.sent cs ds);
      handle = next.handle ∙ p.handle;
    }
Sends-and_then i cs ds w (err e, v) n p q = record { sent = λ h. cc; handle = p.handle }

send_digit-Sends :
    (i key h : ℕ) (w : World)
    → handle_of i w ≡ h
    → Sends i (call_send_digit h key ∷ []) w (send_digit i key w)
unfolding send_digit request
send_digit-Sends i key h w e = record {
  sent = λ r.
      rw (sent-command (call_send_digit (handle_of i w) key) w)
        (ap (λ x. w.sent ++ call_send_digit x key ∷ []) e);
  handle = handle-command (call_send_digit (handle_of i w) key) i w;
}

sleep-Sends : (i : ℕ) (w : World) → Sends i [] w (sleep w)
unfolding pause deliver
sleep-Sends i w = record {
  sent = λ r. sym (append-nil w.sent);
  handle = (receive_all-keeps (head_wait w.waits) (w.calls i)).0;
}

press-Sends :
    (i d h : ℕ) (w : World) → handle_of i w ≡ h → Sends i (keystrokes h (d ∷ [])) w (press i d w)
unfolding press
press-Sends i d h w e =
    Sends-and_then i (call_send_digit h d ∷ []) (call_send_digit h b'R' ∷ []) w _ _
      (Sends-and_then i (call_send_digit h d ∷ []) [] w _ _ (send_digit-Sends i d h w e)
        (λ v k. sleep-Sends i v))
      (λ v k. send_digit-Sends i b'R' h v (k ∙ e))

press_all-Sends :
    (i h : ℕ) (ds : Text) (w : World)
    → handle_of i w ≡ h
    → Sends i (keystrokes h ds) w (press_all i ds w)
unfolding press_all
press_all-Sends i h [] w e = record { sent = λ r. sym (append-nil w.sent); handle = refl }
press_all-Sends i h (d ∷ []) w e = press-Sends i d h w e
press_all-Sends i h (d ∷ x ∷ rest) w e =
    Sends-and_then i (keystrokes h (d ∷ [])) (keystrokes h (x ∷ rest)) w _ _
      (Sends-and_then i (keystrokes h (d ∷ [])) [] w _ _ (press-Sends i d h w e)
        (λ v k. sleep-Sends i v))
      (λ v k. press_all-Sends i h (x ∷ rest) v (k ∙ e))

-- When `send_dtmf` returns, every character was a DTMF digit once in upper case, and it has sent
-- the press and the release of each, in order, and nothing else.
pub send_dtmf-sent :
    (i : ℕ) (digits : Text) (interdigit_ms : ℤ) (w : World)
    → (send_dtmf i digits interdigit_ms w).0 ≡ ok tt
    → (all is_dtmf (map to_upper digits) ≡ true)
      × ((send_dtmf i digits interdigit_ms w).1.sent
          ≡ w.sent ++ keystrokes (handle_of i w) (map to_upper digits))
unfolding send_dtmf
send_dtmf-sent i digits ms w done = elim (Bool-cases (all is_dtmf (map to_upper digits))) [
  | inr bad ↦ absurd (ground arith)
  | inl fine ↦ elim (Bool-cases (is_negative ms)) [
    | inl negative ↦ absurd (ground arith)
    | inr spaced ↦
        let sends = press_all-Sends i (handle_of i w) (map to_upper digits) w refl in
        (fine, rw (fine, send_dtmf, spaced) (sends.sent (rw (fine, send_dtmf, spaced) at done)))
  ]
]

-- A character that is no DTMF digit, or a negative spacing, raises ValueError before anything is
-- sent or any event is awaited.
pub send_dtmf_invalid :
    (i : ℕ) (digits : Text) (interdigit_ms : ℤ) (w : World)
    → (all is_dtmf (map to_upper digits) ≡ false) ⊎ (is_negative interdigit_ms ≡ true)
    → send_dtmf i digits interdigit_ms w ≡ (err Error.value_error, w)
unfolding send_dtmf
send_dtmf_invalid i digits ms w (inl bad) = rw (bad, send_dtmf)
send_dtmf_invalid i digits ms w (inr negative) = ground arith
