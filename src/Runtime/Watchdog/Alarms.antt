-- ===== src/Runtime/Watchdog/Alarms.antt =====
-- What `_watchdog` of src/baresip/runtime.py reports and sends.
use baresip_python.Base.{
  ℕ, suc, ◌≡◌, refl, sym, ◌∙◌, ap, Bool, true, false, if◌then◌else◌, List, [], ◌∷◌, ◌++◌,
  append-nil, append_assoc,
}
use baresip_python.Errors.{Error, Result, ok, err, is_baresip_error}
use baresip_python.Wire.{Command, Reply, ping}
use baresip_python.World.{World, Turn, command, pause, deliver}
use baresip_python.Runtime.Watchdog.{round_of, Watch, next_watch, watchdog}

abbrev pub is_timeout : Result Reply → Bool
is_timeout (ok r) = false
is_timeout (err Error.command_timeout) = true
is_timeout (err e) = false

-- The loop goes on behind this reply.
abbrev pub goes_on : Result Reply → Bool
goes_on (ok r) = true
goes_on (err e) = is_timeout (err e)

abbrev pub counted : Bool → ℕ → ℕ
counted true n = suc n
counted false n = n

-- The timeouts in front of the first error that is none.
abbrev pub timeouts : List Turn → ℕ
timeouts [] = 0
timeouts (t ∷ turns) =
    let rest = timeouts turns in if goes_on t.reply then counted (is_timeout t.reply) rest else 0

-- One PING for each reply up to that error.
abbrev pub pings : List Turn → List Command
pings [] = []
pings (t ∷ turns) = let rest = pings turns in if goes_on t.reply then ping ∷ rest else ping ∷ []

-- A round of the loop, by its reply.
round_alarms :
    (r : Result Reply) (rest : Watch) (w : World)
    → (next_watch (round_of r) rest w).alarms
      ≡ (if goes_on r then counted (is_timeout r) rest.alarms else 0)
unfolding round_of is_baresip_error
round_alarms (ok r) rest w = refl
round_alarms (err Error.command_timeout) rest w = refl
round_alarms (err Error.value_error) rest w = refl
round_alarms (err e) rest w = refl

round_world :
    (r : Result Reply) (rest : Watch) (w : World)
    → (next_watch (round_of r) rest w).world ≡ (if goes_on r then rest.world else w)
unfolding round_of is_baresip_error
round_world (ok r) rest w = refl
round_world (err Error.command_timeout) rest w = refl
round_world (err e) rest w = refl

watchdog_alarms : (turns : List Turn) (w : World) → (watchdog turns w).alarms ≡ timeouts turns
unfolding watchdog
watchdog_alarms [] w = refl
watchdog_alarms (t ∷ turns) w =
    let v = command ping (pause w) in
    round_alarms t.reply (watchdog turns v) v
    ∙ ap (λ (n : ℕ). if goes_on t.reply then counted (is_timeout t.reply) n else 0)
        (watchdog_alarms turns v)

watchdog_sent :
    (turns : List Turn) (w : World) → (watchdog turns w).world.sent ≡ w.sent ++ pings turns
unfolding watchdog pause command deliver
watchdog_sent [] w = sym (append-nil w.sent)
watchdog_sent (t ∷ turns) w =
    let v = command ping (pause w) in
    ap (λ (u : World). u.sent) (round_world t.reply (watchdog turns v) v)
    ∙ by_reply (goes_on t.reply) (watchdog turns v).world v refl
        (watchdog_sent turns v ∙ append_assoc w.sent (ping ∷ []) (pings turns))
  where
    by_reply :
        (b : Bool) (later v : World)
        → v.sent ≡ w.sent ++ ping ∷ []
        → later.sent ≡ w.sent ++ ping ∷ pings turns
        → (if b then later else v).sent ≡ w.sent ++ (if b then ping ∷ pings turns else ping ∷ [])
    by_reply true later v now rest = rest
    by_reply false later v now rest = now

-- The watchdog reports each PING that meets its timeout as critical and goes on; it sends one PING
-- in each round, up to and with the round that ends in any other error, and none behind it.
pub watchdog_alarms-timeouts :
    (turns : List Turn) (w : World)
    → ((watchdog turns w).alarms ≡ timeouts turns)
      × ((watchdog turns w).world.sent ≡ w.sent ++ pings turns)
watchdog_alarms-timeouts turns w = (watchdog_alarms turns w, watchdog_sent turns w)
