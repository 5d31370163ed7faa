-- ===== src/Programs/Bridge/Unbroken.antt =====
-- The errors of a call's audio, src/baresip/audio.py, do not break the bridge of
-- src/examples/07_warm_transfer.py.
use baresip_python.Base.{
  ℕ, zero, suc, ◌≡◌, refl, Option, none, some, List, [], ◌∷◌, Bool, true, false, ◌==◌,
  if◌then◌else◌, arith,
}
use baresip_python.Errors.{Error, Result, ok, err}
use baresip_python.Events.{ℤ, pos, negsuc}
use baresip_python.Audio.{
  AudioInfo, NativeAudio, CallAudio, Step, estale, probed, checked, taken, at_epoch, info,
  ensure_bound, write_at, write, read_at, read,
}
use baresip_python.Programs.Bridge.{
  swallow, swallowed, Bridge, forward, pump_round, after_round, pump,
}

-- What the audio methods raise.
IsAudioError : Error → Type 0
IsAudioError Error.audio_not_active = Unit
IsAudioError Error.audio_restarted = Unit
IsAudioError e = ⊥

Fails : {A : Type 0} → Result A → Type 0
unfolding IsAudioError
Fails (ok x) = Unit
Fails (err e) = IsAudioError e

error_of-Fails :
    (b : Bool) → IsAudioError (if b then Error.audio_restarted else Error.audio_not_active)
unfolding IsAudioError
error_of-Fails true = tt
error_of-Fails false = tt

checked-Fails : (n : ℤ) (a : CallAudio) → Fails (checked n a).0
unfolding checked Fails
checked-Fails (pos n) a = tt
checked-Fails (negsuc n) a = error_of-Fails (suc n == estale)

taken-Fails : (r : Result ℕ) (buffer : List ℕ) → Fails r → Fails (taken r buffer)
unfolding Fails
taken-Fails (ok n) buffer h = tt
taken-Fails (err e) buffer h = h

module _ {S : Type 0} (native : NativeAudio S) where
  write_at-Fails :
      (pcm : List ℕ) (s : S) (epoch : ℕ) (a : CallAudio) → Fails (write_at native pcm s epoch a).0
  unfolding write_at
  write_at-Fails pcm s epoch a = checked-Fails (native.write_bytes a.handle epoch pcm s).0 a

  read_at-Fails : (n : ℕ) (s : S) (epoch : ℕ) (a : CallAudio) → Fails (read_at native n s epoch a).0
  unfolding read_at
  read_at-Fails n s epoch a =
      let (count, buffer, t) = native.read_bytes a.handle epoch n s in
      taken-Fails (checked count a).0 buffer (checked-Fails count a)

  probed-Fails :
      {A : Type 0} (p : Option (ℕ × AudioInfo)) (a : CallAudio) (f : ℕ → CallAudio → Step S A)
      (s : S)
      → ((epoch : ℕ) (b : CallAudio) → Fails (f epoch b).0)
      → Fails (at_epoch (probed p a) f s (probed p a).1.bound_epoch).0
  unfolding probed Fails IsAudioError
  probed-Fails none a f s h = tt
  probed-Fails (some (epoch, x)) a f s h = h epoch (record a { bound_epoch = some epoch })

  ensure_bound-Fails :
      {A : Type 0} (bound : Option ℕ) (a : CallAudio) (f : ℕ → CallAudio → Step S A) (s : S)
      → ((epoch : ℕ) (b : CallAudio) → Fails (f epoch b).0)
      → Fails (ensure_bound native bound a f s).0
  unfolding ensure_bound info
  ensure_bound-Fails (some epoch) a f s h = h epoch a
  ensure_bound-Fails none a f s h = probed-Fails (native.probe a.handle s) a f s h

  write-Fails : (pcm : List ℕ) (a : CallAudio) (s : S) → Fails (write native pcm a s).0
  unfolding write Fails
  write-Fails [] a s = tt
  write-Fails (x ∷ pcm) a s =
      ensure_bound-Fails a.bound_epoch a (write_at native (x ∷ pcm) s) s
        (write_at-Fails (x ∷ pcm) s)

  read-Fails : (n : ℕ) (a : CallAudio) (s : S) → Fails (read native (pos (suc n)) a s).0
  unfolding read
  read-Fails n a s =
      ensure_bound-Fails a.bound_epoch a (read_at native (suc n) s) s (read_at-Fails (suc n) s)

  swallow-ok : (e : Error) → IsAudioError e → swallow e ≡ ok tt
  unfolding IsAudioError
  swallow-ok Error.audio_not_active h = refl
  swallow-ok Error.audio_restarted h = refl
  swallow-ok e h = absurd h

  swallowed-ok : (r : Result ℕ) → Fails r → swallowed r ≡ ok tt
  unfolding Fails
  swallowed-ok (ok n) h = refl
  swallowed-ok (err e) h = swallow-ok e h

  forward-ok :
      (x : Step S (List ℕ)) (dst : CallAudio) → Fails x.0 → (forward native x dst).0 ≡ ok tt
  unfolding Fails forward
  forward-ok (err e, src, s) dst h = swallow-ok e h
  forward-ok (ok [], src, s) dst h = refl
  forward-ok (ok (x ∷ pcm), src, s) dst h =
      swallowed-ok (write native (x ∷ pcm) dst s).0 (write-Fails (x ∷ pcm) dst s)

  pump_round-ok : (b : Bridge S) → (pump_round native b).0 ≡ ok tt
  unfolding pump_round
  pump_round-ok b =
      forward-ok (read native (pos 3840) b.source b.side) b.target (read-Fails 3839 b.source b.side)

  after_round-ok :
      (between : S → S) (x : Result (Unit {0}) × Bridge S)
      (rest : Bridge S → Result (Unit {0}) × Bridge S)
      → x.0 ≡ ok tt
      → ((c : Bridge S) → (rest c).0 ≡ ok tt)
      → (after_round native between x rest).0 ≡ ok tt
  after_round-ok between (ok u, c) rest h f = f (record c { side = between c.side })
  after_round-ok between (err e, c) rest h f = absurd (ground arith)

  -- Whatever the native side answers, and however it changes between two rounds, a bridge goes on
  -- for as many rounds as it is given: no stream that stops or restarts under it raises.
  pub pump-ok :
      (rounds : ℕ) (between : S → S) (b : Bridge S) → (pump native rounds between b).0 ≡ ok tt
  unfolding pump
  pump-ok zero between b = refl
  pump-ok (suc rounds) between b =
      after_round-ok between (pump_round native b) (pump native rounds between) (pump_round-ok b)
        (pump-ok rounds between)
