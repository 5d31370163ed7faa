-- ===== src/Programs/Bridge.antt =====
-- `pump` of src/examples/07_warm_transfer.py: one direction of a bridge between two calls. The rounds
-- that it makes until it is cancelled are a number, and what happens to the native side between two
-- rounds is a parameter.
pub mod Unbroken
use baresip_python.Base.{
  ℕ, zero, suc, ◌≡◌, refl, sym, ◌∙◌, Option, none, some, List, [], ◌∷◌, ◌⊎◌, inl, inr, Bool, true,
  false, ◌==◌, Option-cases, if◌then◌else◌, arith,
}
use baresip_python.Errors.{Error, Result, ok, err}
use baresip_python.Events.{ℤ, pos, negsuc}
use baresip_python.Audio.{
  AudioInfo, NativeAudio, CallAudio, Step, estale, probed, checked, taken, at_epoch, info,
  ensure_bound, write_at, write, read_at, read,
}

-- `except (AudioNotActive, AudioRestarted): pass`
abbrev pub swallow : Error → Result (Unit {0})
swallow Error.audio_not_active = ok tt
swallow Error.audio_restarted = ok tt
swallow e = err e

abbrev pub swallowed : Result ℕ → Result (Unit {0})
swallowed (ok n) = ok tt
swallowed (err e) = swallow e

-- Both streams, and the native side.
pub record Bridge (S : Type 0) : Type 0 where
  pub source : CallAudio
  pub target : CallAudio
  pub side : S

module _ {S : Type 0} (native : NativeAudio S) where
  abbrev pub forward : Step S (List ℕ) → CallAudio → Result (Unit {0}) × Bridge S
  unfolding write
  forward (err e, src, s) dst = (swallow e, record { source = src; target = dst; side = s })
  forward (ok [], src, s) dst = (ok tt, record { source = src; target = dst; side = s })
  forward (ok (x ∷ pcm), src, s) dst =
      let (r, dst', t) = write native (x ∷ pcm) dst s in
      (swallowed r, record { source = src; target = dst'; side = t })

  -- The body of the loop.
  unfoldable pub pump_round : Bridge S → Result (Unit {0}) × Bridge S
  unfolding read forward
  pump_round b = forward (read native (pos 3840) b.source b.side) b.target

  abbrev pub after_round :
      (S → S)
      → Result (Unit {0}) × Bridge S
      → (Bridge S → Result (Unit {0}) × Bridge S)
      → Result (Unit {0}) × Bridge S
  after_round between (err e, b) rest = (err e, b)
  after_round between (ok u, b) rest = rest (record b { side = between b.side })

  unfoldable pub pump : ℕ → (S → S) → Bridge S → Result (Unit {0}) × Bridge S
  unfolding pump_round
  pump zero between b = (ok tt, b)
  pump (suc rounds) between b = after_round between (pump_round b) (pump rounds between)
