-- ===== src/Runtime/Watchdog.antt =====
-- `_watchdog` of src/baresip/runtime.py: a PING in each interval, a critical record for each that
-- meets its timeout, and the end at any other error of the library. The loop has no end of its own:
-- its rounds are the turns that it is given.
pub mod Alarms
use baresip_python.Base.{ℕ, suc, Bool, true, false, List, [], ◌∷◌}
use baresip_python.Errors.{Error, Result, ok, err, is_baresip_error}
use baresip_python.Wire.{Reply, ping}
use baresip_python.World.{World, Turn, command, pause}

-- What a round ends with: the loop goes on, with a critical record or without; it returns; or the
-- task ends with an exception that is none of the library's.
pub data Round : Type 0 where
  calm alarmed returned : Round
  raised : Error → Round

abbrev pub round_error : Error → Bool → Round
round_error e true = Round.returned
round_error e false = Round.raised e

-- The clauses of `except`, in order.
unfoldable pub round_of : Result Reply → Round
unfolding is_baresip_error
round_of (ok r) = Round.calm
round_of (err Error.command_timeout) = Round.alarmed
round_of (err e) = round_error e (is_baresip_error e)

-- The number of critical records, what the last round was, and the world.
pub record Watch : Type 0 where
  pub alarms : ℕ
  pub last : Round
  pub world : World

abbrev pub next_watch : Round → Watch → World → Watch
next_watch Round.calm rest w = rest
next_watch Round.alarmed rest w = record rest { alarms = suc rest.alarms }
next_watch Round.returned rest w = record { alarms = 0; last = Round.returned; world = w }
next_watch (Round.raised e) rest w = record { alarms = 0; last = Round.raised e; world = w }

-- Each round sleeps first.
unfoldable pub watchdog : List Turn → World → Watch
unfolding round_of
watchdog [] w = record { alarms = 0; last = Round.calm; world = w }
watchdog (t ∷ turns) w =
    let v = command ping (pause w) in next_watch (round_of t.reply) (watchdog turns v) v
