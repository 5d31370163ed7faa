-- ===== src/Stats/RoundTrip.antt =====
-- The statistics object that the stack writes for given statistics, and the round trip through it.
use baresip_python.Base.{◌≡◌, refl, Option, none, some, [], ◌∷◌, codes, text_eq, arith}
use baresip_python.Events.{ℤ, Section, StatsPayload}
use baresip_python.Stats.{Thousandths, over_1000, CallStats, from_payload}

abbrev micros : Thousandths → ℤ
micros (over_1000 n) = n

-- The seven numbers of the jitter buffer, in the order of the fields.
pub record Jitter : Type 0 where
  pub jbuf_late : ℤ
  pub jbuf_lost : ℤ
  pub jbuf_overflow : ℤ
  pub jbuf_out_of_sequence : ℤ
  pub jbuf_delay_ms : ℤ
  pub jbuf_jitter_ms : ℤ
  pub jbuf_skew_ms : ℤ

-- The jitter-buffer fields of `c` are those of `j`, or all `None`.
abbrev pub HasJitter : CallStats → Option Jitter → Type 0
HasJitter c none =
    (c.jbuf_late ≡ none)
    × (c.jbuf_lost ≡ none)
    × (c.jbuf_overflow ≡ none)
    × (c.jbuf_out_of_sequence ≡ none)
    × (c.jbuf_delay_ms ≡ none)
    × (c.jbuf_jitter_ms ≡ none)
    × (c.jbuf_skew_ms ≡ none)
HasJitter c (some j) =
    (c.jbuf_late ≡ some j.jbuf_late)
    × (c.jbuf_lost ≡ some j.jbuf_lost)
    × (c.jbuf_overflow ≡ some j.jbuf_overflow)
    × (c.jbuf_out_of_sequence ≡ some j.jbuf_out_of_sequence)
    × (c.jbuf_delay_ms ≡ some j.jbuf_delay_ms)
    × (c.jbuf_jitter_ms ≡ some j.jbuf_jitter_ms)
    × (c.jbuf_skew_ms ≡ some j.jbuf_skew_ms)

abbrev jitter_section : Option Jitter → Option Section
jitter_section none = none
jitter_section (some j) = some (
    (codes "late", j.jbuf_late)
    ∷ (codes "lost", j.jbuf_lost)
    ∷ (codes "overflow", j.jbuf_overflow)
    ∷ (codes "oos", j.jbuf_out_of_sequence)
    ∷ (codes "delay_ms", j.jbuf_delay_ms)
    ∷ (codes "jitter_ms", j.jbuf_jitter_ms)
    ∷ (codes "skew_ms", j.jbuf_skew_ms)
    ∷ [])

-- The object of the stack's encoder, src/_native/shim.c: every section but that of the jitter
-- buffer is there, each number under its key.
abbrev pub encode : CallStats → Option Jitter → StatsPayload
encode c j = record {
  duration = some c.duration_s;
  setup = some c.setup_s;
  tx = some (
      (codes "packets", c.tx_packets)
      ∷ (codes "bytes", c.tx_bytes)
      ∷ (codes "errors", c.tx_errors)
      ∷ (codes "avg_bitrate", c.tx_avg_bitrate_bps)
      ∷ []);
  rx = some (
      (codes "packets", c.rx_packets)
      ∷ (codes "bytes", c.rx_bytes)
      ∷ (codes "errors", c.rx_errors)
      ∷ (codes "avg_bitrate", c.rx_avg_bitrate_bps)
      ∷ []);
  rtcp = some (
      (codes "tx_lost", c.tx_lost)
      ∷ (codes "rx_lost", c.rx_lost)
      ∷ (codes "tx_jitter_us", micros c.tx_jitter_ms)
      ∷ (codes "rx_jitter_us", micros c.rx_jitter_ms)
      ∷ (codes "rtt_us", micros c.rtt_ms)
      ∷ []);
  jbuf = jitter_section j;
  audio = some (
      (codes "tx_silence_frames", c.audio_tx_silence_frames)
      ∷ (codes "tx_starved_frames", c.audio_tx_starved_frames)
      ∷ (codes "rx_dropped", c.audio_rx_dropped_bytes)
      ∷ (codes "rx_discarded", c.audio_rx_discarded_bytes)
      ∷ []);
}

micros_over : (t : Thousandths) → over_1000 (micros t) ≡ t
micros_over (over_1000 n) = refl

-- Statistics read back from the stack's object are those that it was written from: each field has
-- its own key, and the jitter-buffer fields are all there or all `None`.
pub from_payload-encode :
    (c : CallStats) (j : Option Jitter) → HasJitter c j → from_payload (encode c j) ≡ c
unfolding from_payload text_eq
from_payload-encode c none h =
    ground (arith, micros_over c.tx_jitter_ms, micros_over c.rx_jitter_ms, micros_over c.rtt_ms)
from_payload-encode c (some j) h =
    ground (arith, micros_over c.tx_jitter_ms, micros_over c.rx_jitter_ms, micros_over c.rtt_ms)
