-- ===== src/Programs/Agent.antt =====
-- The frame that the programs of src/examples share, and the programs that dial:
-- src/examples/01_register.py, 02_dial.py and 05_dtmf_ivr.py. The runtime has been started, and its
-- close is not part of a program here.
pub mod Unregisters
use baresip_python.Base.{ℕ, Bool, true, false, Option, none, some, List, [], ◌∷◌, Text, codes}
use baresip_python.Errors.{Error, Result, ok, err, is_call_failed}
use baresip_python.Events.{pos}
use baresip_python.Call.Session.{Method, hangup}
use baresip_python.Call.Transfer.{and_then}
use baresip_python.Call.Establish.{wait_established}
use baresip_python.Call.Keys.{send_dtmf, sleep}
use baresip_python.UserAgent.{UserAgent, Identity, create, register, unregister}
use baresip_python.UserAgent.Dial.{VideoOffer, dial}
use baresip_python.World.{World, pause}

abbrev pub Body : Type 0
Body = UserAgent → Method (Unit {0})

-- A method of an agent whose agent is no longer needed.
abbrev pub last_step : Result (Unit {0}) × UserAgent × World → Result (Unit {0}) × World
last_step (r, a, w) = (r, w)

-- `await ua.unregister()` behind the body.
unfoldable pub leave : UserAgent → Result (Unit {0}) × World → Result (Unit {0}) × World
unfolding unregister
leave a (err e, w) = (err e, w)
leave a (ok u, w) = last_step (unregister a w)

unfoldable pub serve_as : Body → Result (Unit {0}) × UserAgent × World → Result (Unit {0}) × World
unfolding leave
serve_as body (err e, a, w) = (err e, w)
serve_as body (ok u, a, w) = leave a (body a w)

unfoldable pub run_as : (ℕ → Text) → Body → Result UserAgent × World → Result (Unit {0}) × World
unfolding register serve_as
run_as strerror body (err e, w) = (err e, w)
run_as strerror body (ok a, w) = serve_as body (register strerror a w)

-- `UserAgent.create`, `register`, what the program does, `unregister`.
unfoldable pub run_agent : (ℕ → Text) → Identity → Body → Method (Unit {0})
unfolding create run_as
run_agent strerror identity body w = run_as strerror body (create identity (codes "manual") w)

-- The body of 01_register.py: it parks until the signal.
unfoldable pub park : Body
park a w = (ok tt, pause w)

-- What a program does with the call that `dial` gave.
abbrev pub with_call : Result ℕ × World → (ℕ → Method (Unit {0})) → Result (Unit {0}) × World
with_call (err e, w) rest = (err e, w)
with_call (ok i, w) rest = rest i w

-- The good call of 02_dial.py.
unfoldable pub talk : ℕ → Method (Unit {0})
unfolding wait_established hangup
talk i w = and_then (and_then (wait_established i w) sleep) (hangup i)

abbrev pub expect_failure : Result (Unit {0}) × World → Result (Unit {0}) × World
unfolding is_call_failed
expect_failure (ok u, w) = (ok u, w)
expect_failure (err e, w) = (elim (is_call_failed e) [ true ↦ ok tt | false ↦ err e ], w)

-- The failed call of 02_dial.py: CallBusy and CallFailed are reported.
unfoldable pub try_busy : Text → Body
unfolding dial wait_established expect_failure
try_busy uri a w =
    expect_failure (with_call (dial a.handle uri [] (VideoOffer.plain false) w) wait_established)

-- The body of 02_dial.py.
unfoldable pub dial_twice : Text → List (Text × Text) → Text → Body
unfolding dial talk try_busy
dial_twice echo headers busy a w =
    and_then (with_call (dial a.handle echo headers (VideoOffer.plain false) w) talk)
      (try_busy busy a)

-- The caller side of 05_dtmf_ivr.py, behind its `wait_established`.
unfoldable pub press_keys : ℕ → Method (Unit {0})
unfolding send_dtmf
press_keys i w =
    and_then
      (and_then (and_then (send_dtmf i (codes "1") (pos 120) w) sleep)
        (send_dtmf i (codes "2") (pos 120)))
      sleep

-- `press` of 05_dtmf_ivr.py.
unfoldable pub press_body : Text → Body
unfolding dial wait_established press_keys
press_body uri a w =
    with_call (dial a.handle uri [] (VideoOffer.plain false) w)
      (λ i v. and_then (wait_established i v) (press_keys i))
