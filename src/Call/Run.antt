-- ===== src/Call/Run.antt =====
-- A method of a call, src/baresip/call.py, run as a whole.
use baresip_python.Base.{
  ℕ, ◌<◌, ◌≡◌, ◌∙◌, Bool, true, false, not, Option, List, Text, map, all, to_upper, leb, ◌&&◌,
}
use baresip_python.Events.{ℤ}
use baresip_python.Call.{Arrival}
use baresip_python.Call.Life.{reported, state-receive_all}
use baresip_python.Call.Session.{answer, reject, hangup, hold, resume, set_video_direction}
use baresip_python.Call.Transfer.{transfer, attended_transfer, accept_transfer, reject_transfer}
use baresip_python.Call.Establish.{wait_established}
use baresip_python.Call.Keys.{send_dtmf, is_dtmf, is_negative}
use baresip_python.World.{World}
use baresip_python.Call.Advance.{Offers, Advances, Advances-refl}
use baresip_python.Call.Truth.{
  Leads-stop, Leads-if, answer-IsTrue, reject-IsTrue, hangup-IsTrue, set_hold-IsTrue,
  set_direction-IsTrue, transfer-IsTrue, attended_transfer-IsTrue, accept_request-IsTrue,
  reject_request-IsTrue, wait_in_state-IsTrue, press_all-IsTrue,
}

-- The methods of a call, with their arguments.
pub data CallMethod : Type 0 where
  answers : Bool → Option (List (Text × Text)) → CallMethod
  rejects hangs_up holds resumes waits accepts_transfer : CallMethod
  sets_video : Text → CallMethod
  transfers : Text → CallMethod
  transfers_to : ℕ → CallMethod
  rejects_transfer : ℕ → CallMethod
  sends_dtmf : Text → ℤ → CallMethod

-- The world that a method of the object `i` leaves.
pub run : ℕ → CallMethod → World → World
run i (answers video headers) w = (answer i video headers w).1
run i rejects w = (reject i w).1
run i hangs_up w = (hangup i w).1
run i holds w = (hold i w).1
run i resumes w = (resume i w).1
run i waits w = (wait_established i w).1
run i accepts_transfer w = (accept_transfer i w).1
run i (sets_video d) w = (set_video_direction i d w).1
run i (transfers uri) w = (transfer i uri w).1
run i (transfers_to j) w = (attended_transfer i j w).1
run i (rejects_transfer status) w = (reject_transfer i status w).1
run i (sends_dtmf digits ms) w = (send_dtmf i digits ms w).1

run-Advances : (i : ℕ) (m : CallMethod) (w : World) → Advances w (run i m w)
unfolding run hold resume set_video_direction accept_transfer reject_transfer send_dtmf
    wait_established
run-Advances i (answers video headers) w =
    (answer-IsTrue i video headers w w (Advances-refl w)).advance
run-Advances i rejects w = (reject-IsTrue i w w (Advances-refl w)).advance
run-Advances i hangs_up w = (hangup-IsTrue i w w (Advances-refl w)).advance
run-Advances i holds w = (set_hold-IsTrue i true w w (Advances-refl w)).advance
run-Advances i resumes w = (set_hold-IsTrue i false w w (Advances-refl w)).advance
run-Advances i waits w = (wait_in_state-IsTrue _ i w w (Advances-refl w)).advance
run-Advances i accepts_transfer w = (accept_request-IsTrue i _ w w (Advances-refl w)).advance
run-Advances i (sets_video d) w = (set_direction-IsTrue i _ w w (Advances-refl w)).advance
run-Advances i (transfers uri) w = (transfer-IsTrue i uri w w (Advances-refl w)).advance
run-Advances i (transfers_to j) w = (attended_transfer-IsTrue i j w w (Advances-refl w)).advance
run-Advances i (rejects_transfer status) w =
    (Leads-if (leb 300 status && leb status 699) _ _
      (reject_request-IsTrue i status _ w w (Advances-refl w))
      (Leads-stop (Advances-refl w))).advance
run-Advances i (sends_dtmf digits ms) w =
    (Leads-if (not (all is_dtmf (map to_upper digits))) _ _ (Leads-stop (Advances-refl w)) (
      Leads-if (is_negative ms) _ _ (Leads-stop (Advances-refl w))
        (press_all-IsTrue i _ w w (Advances-refl w)))).advance

-- Whatever method of whatever call runs, there are events, all of them among those that the
-- environment has to deliver, that alone account for where every subscribed call of the heap then
-- stands.
pub state-run :
    (i : ℕ) (m : CallMethod) (w : World)
    → (arrivals : List Arrival) × ((p : Arrival → Bool) → Offers p w → all p arrivals ≡ true)
      × ((k : ℕ)
          → k < w.next_object
          → (w.calls k).subscribed ≡ true
          → ((run i m w).calls k).state ≡ reported (w.calls k).handle (w.calls k).state arrivals)
state-run i m w =
    let a = run-Advances i m w in
    (
      a.arrivals,
      (λ p o. (a.heard p o).0),
      λ k lt sub. (a.same k lt).state ∙ state-receive_all a.arrivals (w.calls k) sub,
    )
