-- ===== src/Audio.antt =====
-- src/baresip/audio.py: a call's PCM streams. The native functions are a parameter, `NativeAudio`,
-- on a state `S` of the native side; each gives what it returns, a byte count or an error number
-- below zero, with the state it leaves.
pub mod Rebinding
use baresip_python.Base.{
  ℕ, zero, suc, ◌+◌, Bool, true, false, Option, none, some, List, [], ◌∷◌, length, ◌==◌,
  if◌then◌else◌,
}
use baresip_python.Errors.{Error, Result, ok, err}
use baresip_python.Events.{ℤ, pos, negsuc}

-- struct bp_audio_info; `AudioInfo` is all of it but the epoch.
pub record AudioInfo : Type 0 where
  pub tx_ready : Bool
  pub rx_ready : Bool
  pub tx_sample_rate : ℕ
  pub tx_channels : ℕ
  pub tx_ptime_ms : ℕ
  pub rx_sample_rate : ℕ
  pub rx_channels : ℕ
  pub tx_buffered : ℕ
  pub rx_buffered : ℕ
  pub tx_capacity : ℕ
  pub rx_capacity : ℕ

pub record AudioStats : Type 0 where
  pub tx_silence_frames : ℕ
  pub tx_starved_frames : ℕ
  pub tx_rejected_bytes : ℕ
  pub tx_flushed_bytes : ℕ
  pub tx_buffered : ℕ
  pub tx_high_water : ℕ
  pub rx_dropped_bytes : ℕ
  pub rx_discarded_bytes : ℕ
  pub rx_buffered : ℕ
  pub rx_high_water : ℕ

-- `bp_audio_probe` and `bp_audio_stats_get` give an epoch and a snapshot, or fail; the others take
-- a call's handle and an epoch. `bp_audio_read` also gives the bytes that it wrote.
pub record NativeAudio (S : Type 0) : Type 0 where
  pub probe : ℕ → S → Option (ℕ × AudioInfo)
  pub stats_get : ℕ → S → Option (ℕ × AudioStats)
  pub write_bytes : ℕ → ℕ → List ℕ → S → ℤ × S
  pub read_bytes : ℕ → ℕ → ℕ → S → ℤ × List ℕ × S
  pub flush_bytes : ℕ → ℕ → S → ℤ × S

pub record CallAudio : Type 0 where
  pub handle : ℕ
  pub bound_epoch : Option ℕ

-- errno.ESTALE on Linux
abbrev pub estale : ℕ
estale = 116

abbrev pub bind_to : Option ℕ → CallAudio → CallAudio
bind_to epoch a = record a { bound_epoch = epoch }

-- `info` and `stats` behind the native call.
unfoldable pub probed : {A : Type 0} → Option (ℕ × A) → CallAudio → Result A × CallAudio
probed none a = (err Error.audio_not_active, bind_to none a)
probed (some (epoch, x)) a = (ok x, bind_to (some epoch) a)

-- `_checked`
unfoldable pub checked : ℤ → CallAudio → Result ℕ × CallAudio
checked (pos n) a = (ok n, a)
checked (negsuc n) a = (
  err (if suc n == estale then Error.audio_restarted else Error.audio_not_active),
  bind_to none a,
)

-- An operation's result, the object and the native side behind it.
abbrev pub Step : Type 0 → Type 0 → Type 0
Step S A = Result A × CallAudio × S

abbrev pub first_bytes : ℕ → List ℕ → List ℕ
first_bytes zero xs = []
first_bytes (suc n) [] = []
first_bytes (suc n) (x ∷ xs) = x ∷ first_bytes n xs

abbrev pub taken : Result ℕ → List ℕ → Result (List ℕ)
taken (err e) buffer = err e
taken (ok n) buffer = ok (first_bytes n buffer)

abbrev pub dropped : Result ℕ → Result (Unit {0})
dropped (err e) = err e
dropped (ok n) = ok tt

-- `_ensure_bound`, with what the operation does with the epoch.
abbrev pub at_epoch :
    {S A : Type 0}
    → Result AudioInfo × CallAudio
    → (ℕ → CallAudio → Step S A)
    → S
    → Option ℕ
    → Step S A
at_epoch (err e, a) f s bound = (err e, a, s)
at_epoch (ok x, a) f s none = (err Error.type_error, a, s)
at_epoch (ok x, a) f s (some epoch) = f epoch a

module _ {S : Type 0} (native : NativeAudio S) where
  -- `info`
  unfoldable pub info : CallAudio → S → Result AudioInfo × CallAudio
  unfolding probed
  info a s = probed (native.probe a.handle s) a

  -- `stats`
  unfoldable pub stats : CallAudio → S → Result AudioStats × CallAudio
  unfolding probed
  stats a s = probed (native.stats_get a.handle s) a

  -- `_ensure_bound` runs `info` on an unbound object only.
  unfoldable pub ensure_bound :
      {A : Type 0} → Option ℕ → CallAudio → (ℕ → CallAudio → Step S A) → S → Step S A
  unfolding info
  ensure_bound (some epoch) a f s = f epoch a
  ensure_bound none a f s = at_epoch (info a s) f s (info a s).1.bound_epoch

  unfoldable pub write_at : List ℕ → S → ℕ → CallAudio → Step S ℕ
  unfolding checked
  write_at pcm s epoch a =
      let (n, t) = native.write_bytes a.handle epoch pcm s in let (r, b) = checked n a in (r, b, t)

  -- `write`
  unfoldable pub write : List ℕ → CallAudio → S → Step S ℕ
  unfolding ensure_bound write_at
  write [] a s = (ok 0, a, s)
  write (x ∷ pcm) a s = ensure_bound a.bound_epoch a (write_at (x ∷ pcm) s) s

  unfoldable pub flush_at : S → ℕ → CallAudio → Step S (Unit {0})
  unfolding checked
  flush_at s epoch a =
      let (n, t) = native.flush_bytes a.handle epoch s in
      let (r, b) = checked n a in (dropped r, b, t)

  -- `flush_tx`
  unfoldable pub flush_tx : CallAudio → S → Step S (Unit {0})
  unfolding ensure_bound flush_at
  flush_tx a s = ensure_bound a.bound_epoch a (flush_at s) s

  unfoldable pub read_at : ℕ → S → ℕ → CallAudio → Step S (List ℕ)
  unfolding checked
  read_at max_bytes s epoch a =
      let (n, buffer, t) = native.read_bytes a.handle epoch max_bytes s in
      let (r, b) = checked n a in (taken r buffer, b, t)

  -- `read`
  unfoldable pub read : ℤ → CallAudio → S → Step S (List ℕ)
  unfolding ensure_bound read_at
  read (negsuc n) a s = (err Error.value_error, a, s)
  read (pos zero) a s = (err Error.value_error, a, s)
  read (pos (suc n)) a s = ensure_bound a.bound_epoch a (read_at (suc n) s) s
