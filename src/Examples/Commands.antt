-- ===== src/Examples/Commands.antt =====
-- The command half of a runtime on concrete inputs.
use baresip_python.Base.{
  ℕ, zero, suc, ◌≡◌, ◌≢◌, ◌<◌, refl, ◌+◌, ◌-◌, none, [], ◌∷◌, arith, ◌*◌, ◌/◌, ◌^◌, ltb,
}
use baresip_python.Errors.{Error}
use baresip_python.Events.{Payload, ℤ, pos, negsuc}
use baresip_python.Stats.{CallStats, Thousandths, over_1000, from_payload}
use baresip_python.Stats.Score.{Floats}
use baresip_python.Stats.Score.Range.{IsOrdered}
use baresip_python.Stats.RoundTrip.{encode, from_payload-encode}
use baresip_python.Runtime.Sequence.{seq_mod, next_seq, advance, skip}
use baresip_python.Runtime.Sequence.Free.{FirstUnused, next_seq-FirstUnused}
use baresip_python.Runtime.Commands.{
  State, Outcome, Runtime, find, encodes, send, dispatch, state_error, accept, expire, fail_pending,
}
use baresip_python.Runtime.Commands.Steps.{Step, sends, moves, expires, Reach, here, next, fresh}
use baresip_python.Runtime.Commands.Registered.{
  IsRegistered, Reach-IsRegistered, fail_pending_settles,
}
use baresip_python.Runtime.Commands.Contract.{trace, Reach-Serves}
use baresip_python.Runtime.Commands.Settling.{expire-settles}
use baresip_python.Runtime.Commands.Delivery.{dispatch-completes}

-- A runtime that runs and has sent two commands.
abbrev running : Runtime
running = record fresh { state = State.running }

abbrev two_sent : Runtime
two_sent = send (send running none 0) none 0

two_sent-Reach : Reach fresh two_sent
unfolding send encodes accept next_seq advance skip state_error
two_sent-Reach =
    next (next (next here (moves State.running)) (sends none 0 (ground arith)))
      (sends none 0 (ground arith))

Reach-IsRegistered_example : IsRegistered two_sent
Reach-IsRegistered_example = Reach-IsRegistered two_sent-Reach

dispatch-completes_example :
    let s = dispatch two_sent 0 2 Payload.absent Payload.absent in
    (s.outcomes 1 ≡ Outcome.completed 0 Payload.absent)
    × (find 2 s.pending ≡ none)
    × ((c : ℕ) → 1 ≢ c → s.outcomes c ≡ two_sent.outcomes c)
    × ((k : ℕ) → 2 ≢ k → find k s.pending ≡ find k two_sent.pending)
    × (s.delivered ≡ two_sent.delivered)
unfolding send encodes accept next_seq advance skip state_error find
dispatch-completes_example =
    dispatch-completes 0 2 1 Payload.absent Payload.absent two_sent-Reach (ground arith) refl refl

abbrev heard_by : Runtime
heard_by = record fresh { listeners = 4 ∷ 5 ∷ [] }

abbrev one_done : Runtime
one_done = record fresh { outcomes = λ c. Outcome.raised Error.command_timeout; next_call = 1 }

Reach-Serves_example :
    let q = trace two_sent-Reach in
    (q.issued ≡ 2) × ((c : ℕ) → c < 2 → q.result c ≡ two_sent.outcomes c)
unfolding send encodes accept next_seq advance skip state_error
Reach-Serves_example = Reach-Serves two_sent-Reach

next_seq-FirstUnused_example :
    FirstUnused (1 ∷ 2 ∷ []) (seq_mod - 1) (next_seq (seq_mod - 1) (1 ∷ 2 ∷ []))
next_seq-FirstUnused_example =
    next_seq-FirstUnused (seq_mod - 1) (1 ∷ 2 ∷ []) (ground arith) (ground arith)

fail_pending_settles_example :
    (fail_pending two_sent Error.runtime_dead).outcomes 1 ≢ Outcome.waiting
unfolding send encodes accept state_error
fail_pending_settles_example =
    fail_pending_settles Error.runtime_dead 1 two_sent-Reach (ground arith)

-- A command is sent, and its timer fires at every later step.
abbrev timed_run : ℕ → Runtime
timed_run zero = running
timed_run (suc zero) = send running none 0
timed_run (suc (suc n)) = expire (timed_run (suc n)) 0

timed_run-Step : (n : ℕ) → Step (timed_run n) (timed_run (suc n))
timed_run-Step zero = sends none 0 (ground arith)
timed_run-Step (suc n) = expires 0

expire-settles_example :
    (m : ℕ) × (o : Outcome) × (o ≢ Outcome.waiting) × ((j : ℕ) → (timed_run (m + j)).outcomes 0 ≡ o)
unfolding send encodes accept state_error
expire-settles_example = expire-settles timed_run 0 1 0 timed_run-Step (ground arith) refl

abbrev counters : CallStats
counters = record {
  duration_s = pos 60;
  setup_s = pos 2;
  tx_packets = pos 3000;
  tx_bytes = pos 480000;
  tx_errors = pos 0;
  tx_avg_bitrate_bps = pos 64000;
  rx_packets = pos 2990;
  rx_bytes = pos 478400;
  rx_errors = pos 1;
  rx_avg_bitrate_bps = pos 63800;
  tx_lost = pos 0;
  rx_lost = pos 10;
  tx_jitter_ms = over_1000 (pos 1500);
  rx_jitter_ms = over_1000 (pos 2500);
  rtt_ms = over_1000 (pos 30500);
  jbuf_late = none;
  jbuf_lost = none;
  jbuf_overflow = none;
  jbuf_out_of_sequence = none;
  jbuf_delay_ms = none;
  jbuf_jitter_ms = none;
  jbuf_skew_ms = none;
  audio_tx_silence_frames = pos 5;
  audio_tx_starved_frames = pos 0;
  audio_rx_dropped_bytes = pos 7;
  audio_rx_discarded_bytes = pos 9;
}

from_payload-encode_example : from_payload (encode counters none) ≡ counters
from_payload-encode_example =
    from_payload-encode counters none (refl, refl, refl, refl, refl, refl, refl)

-- Whole numbers in place of floating-point ones, with what is below zero cut off.
abbrev whole : ℤ → ℕ
whole (pos n) = n
whole (negsuc n) = 0

abbrev whole_ms : Thousandths → ℕ
whole_ms (over_1000 n) = whole n / 1000

abbrev wholes : Floats ℕ
wholes = record {
  literal = λ m d. m / 10 ^ d;
  of_int = whole;
  of_thousandths = whole_ms;
  add = λ x y. x + y;
  sub = λ x y. x - y;
  mul = λ x y. x * y;
  div = λ x y. x / y;
  less = ltb;
  round_two = λ x. x;
}

wholes-IsOrdered : IsOrdered wholes
wholes-IsOrdered = record { asymmetric = λ x y h. ground arith; one_below_five = refl }
