-- ===== src/Stats.antt =====
-- src/baresip/stats.py: `CallStats` and its build from the statistics object of an event. A
-- quotient by 1000 is kept as its numerator.
pub mod RoundTrip
pub mod Score
use baresip_python.Base.{ℕ, Option, none, some, List, [], ◌∷◌, Text, codes, text_eq, if◌then◌else◌}
use baresip_python.Events.{ℤ, pos, Section, StatsPayload, get_or}

-- A number of microseconds over 1000: the milliseconds that Python computes in floating point.
pub data Thousandths : Type 0 where
  over_1000 : ℤ → Thousandths

pub record CallStats : Type 0 where
  pub duration_s : ℤ
  pub setup_s : ℤ
  pub tx_packets : ℤ
  pub tx_bytes : ℤ
  pub tx_errors : ℤ
  pub tx_avg_bitrate_bps : ℤ
  pub rx_packets : ℤ
  pub rx_bytes : ℤ
  pub rx_errors : ℤ
  pub rx_avg_bitrate_bps : ℤ
  pub tx_lost : ℤ
  pub rx_lost : ℤ
  pub tx_jitter_ms : Thousandths
  pub rx_jitter_ms : Thousandths
  pub rtt_ms : Thousandths
  pub jbuf_late : Option ℤ
  pub jbuf_lost : Option ℤ
  pub jbuf_overflow : Option ℤ
  pub jbuf_out_of_sequence : Option ℤ
  pub jbuf_delay_ms : Option ℤ
  pub jbuf_jitter_ms : Option ℤ
  pub jbuf_skew_ms : Option ℤ
  pub audio_tx_silence_frames : ℤ
  pub audio_tx_starved_frames : ℤ
  pub audio_rx_dropped_bytes : ℤ
  pub audio_rx_discarded_bytes : ℤ

unfoldable pub lookup : Text → Section → Option ℤ
lookup key [] = none
lookup key ((k, v) ∷ rest) = if text_eq key k then some v else lookup key rest

-- `section.get(key, 0)`
unfoldable pub number_at : Text → Section → ℤ
unfolding lookup
number_at key section = get_or (lookup key section) (pos 0)

-- `jb`: `None` where there is no section at all, and 0 for a key that is missing in it.
unfoldable pub jitter_at : Text → Option Section → Option ℤ
unfolding number_at
jitter_at key none = none
jitter_at key (some section) = some (number_at key section)

-- `CallStats._from_payload`
unfoldable pub from_payload : StatsPayload → CallStats
unfolding number_at jitter_at
from_payload stats =
    let tx = get_or stats.tx [] in
    let rx = get_or stats.rx [] in
    let rtcp = get_or stats.rtcp [] in
    let audio = get_or stats.audio [] in
    record {
      duration_s = get_or stats.duration (pos 0);
      setup_s = get_or stats.setup (pos 0);
      tx_packets = number_at (codes "packets") tx;
      tx_bytes = number_at (codes "bytes") tx;
      tx_errors = number_at (codes "errors") tx;
      tx_avg_bitrate_bps = number_at (codes "avg_bitrate") tx;
      rx_packets = number_at (codes "packets") rx;
      rx_bytes = number_at (codes "bytes") rx;
      rx_errors = number_at (codes "errors") rx;
      rx_avg_bitrate_bps = number_at (codes "avg_bitrate") rx;
      tx_lost = number_at (codes "tx_lost") rtcp;
      rx_lost = number_at (codes "rx_lost") rtcp;
      tx_jitter_ms = over_1000 (number_at (codes "tx_jitter_us") rtcp);
      rx_jitter_ms = over_1000 (number_at (codes "rx_jitter_us") rtcp);
      rtt_ms = over_1000 (number_at (codes "rtt_us") rtcp);
      jbuf_late = jitter_at (codes "late") stats.jbuf;
      jbuf_lost = jitter_at (codes "lost") stats.jbuf;
      jbuf_overflow = jitter_at (codes "overflow") stats.jbuf;
      jbuf_out_of_sequence = jitter_at (codes "oos") stats.jbuf;
      jbuf_delay_ms = jitter_at (codes "delay_ms") stats.jbuf;
      jbuf_jitter_ms = jitter_at (codes "jitter_ms") stats.jbuf;
      jbuf_skew_ms = jitter_at (codes "skew_ms") stats.jbuf;
      audio_tx_silence_frames = number_at (codes "tx_silence_frames") audio;
      audio_tx_starved_frames = number_at (codes "tx_starved_frames") audio;
      audio_rx_dropped_bytes = number_at (codes "rx_dropped") audio;
      audio_rx_discarded_bytes = number_at (codes "rx_discarded") audio;
    }
