-- ===== src/Audio/Rebinding.antt =====
-- Renegotiation seen from a call's PCM streams, src/baresip/audio.py.
use baresip_python.Base.{
  ℕ, suc, ◌≡◌, ◌≢◌, refl, sym, ◌∙◌, ap, subst, Option, none, some, List, [], ◌∷◌,
}
use baresip_python.Errors.{Error, ok, err}
use baresip_python.Events.{ℤ, pos, negsuc}
use baresip_python.Audio.{
  NativeAudio, CallAudio, AudioInfo, Step, bind_to, probed, checked, info, ensure_bound, read_at,
  read, write_at, write, at_epoch, taken,
}

-- What the documentation of the native functions promises, for a state in which the slot of the
-- call `handle` has streams of the epoch `current`: the probe reports that epoch; a function that
-- is given it returns a count; one that is given another returns -ESTALE and does nothing.
pub record Serves (S : Type 0) (native : NativeAudio S) (handle current : ℕ) (s : S) : Type 0 where
  pub snapshot : AudioInfo
  pub probe_epoch : native.probe handle s ≡ some (current, snapshot)
  pub read_served : (n : ℕ) → (k : ℕ) × ((native.read_bytes handle current n s).0 ≡ pos k)
  pub read_stale :
      (epoch n : ℕ) → epoch ≢ current → native.read_bytes handle epoch n s ≡ (negsuc 115, [], s)
  pub write_served :
      (pcm : List ℕ) → (k : ℕ) × ((native.write_bytes handle current pcm s).0 ≡ pos k)
  pub write_stale :
      (epoch : ℕ) (pcm : List ℕ)
      → epoch ≢ current
      → native.write_bytes handle epoch pcm s ≡ (negsuc 115, s)

abbrev pub Succeeds : {S A : Type 0} → ℕ → Step S A → Type 0
Succeeds {S} {A} current x = (y : A) × (x.0 ≡ ok y) × (x.1.bound_epoch ≡ some current)

module _ {S : Type 0} (native : NativeAudio S) where
  ensure_bound-fresh :
      {A : Type 0} (a : CallAudio) (f : ℕ → CallAudio → Step S A) (s : S) (current : ℕ)
      → Serves S native a.handle current s
      → ensure_bound native none a f s ≡ f current (bind_to (some current) a)
  unfolding ensure_bound info probed
  ensure_bound-fresh a f s current serves =
      ap (λ (x : Option (ℕ × AudioInfo)). at_epoch (probed x a) f s (probed x a).1.bound_epoch)
        serves.probe_epoch

  read_at-served :
      (n : ℕ) (s : S) (current : ℕ) (a : CallAudio)
      → Serves S native a.handle current s
      → a.bound_epoch ≡ some current
      → Succeeds current (read_at native n s current a)
  unfolding read_at checked
  read_at-served n s current a serves bound =
      let (k, e) = serves.read_served n in
      let buffer = (native.read_bytes a.handle current n s).1 in
      (_, ap (λ x. taken (checked x a).0 buffer) e, ap (λ x. (checked x a).1.bound_epoch) e ∙ bound)

  read_at-stale :
      (n : ℕ) (s : S) (epoch current : ℕ) (a : CallAudio)
      → Serves S native a.handle current s
      → epoch ≢ current
      → read_at native n s epoch a ≡ (err Error.audio_restarted, bind_to none a, s)
  unfolding read_at checked
  read_at-stale n s epoch current a serves other =
      ap (λ (r : ℤ × List ℕ × S). (taken (checked r.0 a).0 r.1, (checked r.0 a).1, r.2))
        (serves.read_stale epoch n other)

  write_at-served :
      (pcm : List ℕ) (s : S) (current : ℕ) (a : CallAudio)
      → Serves S native a.handle current s
      → a.bound_epoch ≡ some current
      → Succeeds current (write_at native pcm s current a)
  unfolding write_at checked
  write_at-served pcm s current a serves bound =
      let (k, e) = serves.write_served pcm in
      (k, ap (λ x. (checked x a).0) e, ap (λ x. (checked x a).1.bound_epoch) e ∙ bound)

  write_at-stale :
      (pcm : List ℕ) (s : S) (epoch current : ℕ) (a : CallAudio)
      → Serves S native a.handle current s
      → epoch ≢ current
      → write_at native pcm s epoch a ≡ (err Error.audio_restarted, bind_to none a, s)
  unfolding write_at checked
  write_at-stale pcm s epoch current a serves other =
      ap (λ (r : ℤ × S). ((checked r.0 a).0, (checked r.0 a).1, r.1))
        (serves.write_stale epoch pcm other)

  -- A read by an object that is bound to streams which renegotiation has replaced raises
  -- AudioRestarted, reads nothing and leaves the object unbound; the next read, of streams of
  -- whatever epoch, succeeds and binds to that epoch.
  pub read-restarts_once :
      (n m epoch current later : ℕ) (a : CallAudio) (s t : S)
      → a.bound_epoch ≡ some epoch
      → epoch ≢ current
      → Serves S native a.handle current s
      → Serves S native a.handle later t
      → (read native (pos (suc n)) a s ≡ (err Error.audio_restarted, bind_to none a, s))
        × Succeeds later (read native (pos (suc m)) (read native (pos (suc n)) a s).1 t)
  unfolding read ensure_bound
  read-restarts_once n m epoch current later a s t bound other serves again =
      let first : read native (pos (suc n)) a s ≡ (err Error.audio_restarted, bind_to none a, s) =
        ap (λ b. ensure_bound native b a (read_at native (suc n) s) s) bound
        ∙ read_at-stale (suc n) s epoch current a serves other in
      (
        first,
        subst (λ (x : Step S (List ℕ)). Succeeds later (read native (pos (suc m)) x.1 t))
            (sym first)
            (subst (Succeeds later)
              (sym (ensure_bound-fresh (bind_to none a) (read_at native (suc m) t) t later again))
              (read_at-served (suc m) t later (bind_to (some later) a) again refl)),
      )

  -- A write of some bytes by an object that is bound to streams which renegotiation has replaced
  -- raises AudioRestarted, queues nothing and leaves the object unbound; the next write, to streams
  -- of whatever epoch, succeeds and binds to that epoch.
  pub write-restarts_once :
      (x y epoch current later : ℕ) (xs ys : List ℕ) (a : CallAudio) (s t : S)
      → a.bound_epoch ≡ some epoch
      → epoch ≢ current
      → Serves S native a.handle current s
      → Serves S native a.handle later t
      → (write native (x ∷ xs) a s ≡ (err Error.audio_restarted, bind_to none a, s))
        × Succeeds later (write native (y ∷ ys) (write native (x ∷ xs) a s).1 t)
  unfolding write ensure_bound
  write-restarts_once x y epoch current later xs ys a s t bound other serves again =
      let first : write native (x ∷ xs) a s ≡ (err Error.audio_restarted, bind_to none a, s) =
        ap (λ b. ensure_bound native b a (write_at native (x ∷ xs) s) s) bound
        ∙ write_at-stale (x ∷ xs) s epoch current a serves other in
      (
        first,
        subst (λ (z : Step S ℕ). Succeeds later (write native (y ∷ ys) z.1 t)) (sym first)
            (subst (Succeeds later)
              (sym (ensure_bound-fresh (bind_to none a) (write_at native (y ∷ ys) t) t later again))
              (write_at-served (y ∷ ys) t later (bind_to (some later) a) again refl)),
      )
