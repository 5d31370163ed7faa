-- ===== src/Call/Keys/Completed.antt =====
-- `send_dtmf` of src/baresip/call.py where the stack accepts every key.
use baresip_python.Base.{
  ℕ, zero, suc, ◌≡◌, refl, sym, ◌∙◌, ap, subst, true, false, not, none, List, [], ◌∷◌, ◌++◌, map,
  Text, to_upper, all, if_false, arith,
}
use baresip_python.Errors.{Result, ok, err}
use baresip_python.Events.{ℤ}
use baresip_python.Call.Session.{Method, handle_of, request, outcome}
use baresip_python.Call.Transfer.{and_then}
use baresip_python.Call.Keys.{send_digit, sleep, press, press_all, is_dtmf, is_negative, send_dtmf}
use baresip_python.Call.Keys.Sent.{keystrokes, send_dtmf-sent}
use baresip_python.World.{World, Turn, head_turn, rest_turns, command, pause, deliver, reply_error}

-- At least `n` turns are left, whose commands the stack accepts.
abbrev pub Accepts : ℕ → List Turn → Type 0
Accepts zero ts = Unit {0}
Accepts (suc n) [] = ⊥
Accepts (suc n) (t ∷ ts) = (reply_error t.reply ≡ none) × Accepts n ts

-- The method returns, and leaves `n` such turns.
abbrev Returns : ℕ → Result (Unit {0}) × World → Type 0
Returns n x = (x.0 ≡ ok tt) × Accepts n x.1.turns

Returns-and_then :
    (m n : ℕ) (x : Result (Unit {0}) × World) (k : Method (Unit {0}))
    → Returns m x
    → ((v : World) → Accepts m v.turns → Returns n (k v))
    → Returns n (and_then x k)
Returns-and_then m n (ok u, v) k (e, h) f = f v h
Returns-and_then m n (err x, v) k (e, h) f = absurd (ground arith)

send_digit-Returns :
    (i key n : ℕ) (w : World) (ts : List Turn)
    → w.turns ≡ ts
    → Accepts (suc n) ts
    → Returns n (send_digit i key w)
unfolding send_digit request command deliver
send_digit-Returns i key n w [] e h = absurd h
send_digit-Returns i key n w (t ∷ ts) e (clean, h) =
    subst (λ us. (outcome (reply_error (head_turn us).reply) ≡ ok tt) × Accepts n (rest_turns us))
      (sym e) (ap outcome clean, h)

press-Returns : (i d n : ℕ) (w : World) → Accepts (suc (suc n)) w.turns → Returns n (press i d w)
unfolding press pause deliver
press-Returns i d n w h =
    Returns-and_then (suc n) n _ (send_digit i b'R')
      (Returns-and_then (suc n) (suc n) _ sleep (send_digit-Returns i d (suc n) w w.turns refl h)
        (λ v k. (refl, k)))
      (λ v k. send_digit-Returns i b'R' n v v.turns refl k)

abbrev pub key_count : Text → ℕ
key_count [] = 0
key_count (d ∷ ds) = suc (suc (key_count ds))

press_all-Returns :
    (i : ℕ) (ds : Text) (w : World) → Accepts (key_count ds) w.turns → Returns 0 (press_all i ds w)
unfolding press_all pause deliver
press_all-Returns i [] w h = (refl, tt)
press_all-Returns i (d ∷ []) w h = press-Returns i d 0 w h
press_all-Returns i (d ∷ x ∷ rest) w h =
    Returns-and_then (key_count (x ∷ rest)) 0 _ (press_all i (x ∷ rest))
      (Returns-and_then (key_count (x ∷ rest)) (key_count (x ∷ rest)) _ sleep
        (press-Returns i d (key_count (x ∷ rest)) w h) (λ v k. (refl, k)))
      (λ v k. press_all-Returns i (x ∷ rest) v k)

-- Where the digits are DTMF digits, the spacing is not negative and the stack accepts every key,
-- `send_dtmf` returns, and it has sent the press and the release of each digit in upper case, in
-- order, and nothing else.
pub send_dtmf-completes :
    (i : ℕ) (digits : Text) (interdigit_ms : ℤ) (w : World)
    → all is_dtmf (map to_upper digits) ≡ true
    → is_negative interdigit_ms ≡ false
    → Accepts (key_count (map to_upper digits)) w.turns
    → ((send_dtmf i digits interdigit_ms w).0 ≡ ok tt)
      × ((send_dtmf i digits interdigit_ms w).1.sent
          ≡ w.sent ++ keystrokes (handle_of i w) (map to_upper digits))
unfolding send_dtmf
send_dtmf-completes i digits ms w fine late accepts =
    let returned : (send_dtmf i digits ms w).0 ≡ ok tt =
      ap (λ (x : Result (Unit {0}) × World). x.0)
        (if_false (not (all is_dtmf (map to_upper digits))) _ _ (ap not fine)
          ∙ if_false (is_negative ms) _ _ late)
      ∙ (press_all-Returns i (map to_upper digits) w accepts).0 in
    (returned, (send_dtmf-sent i digits ms w returned).1)
