-- ===== src/Video/Frames.antt =====
-- The binding of a call's video object to the streams of an epoch, src/baresip/video.py.
use baresip_python.Base.{
  ℕ, suc, ◌≡◌, refl, sym, subst, Bool, true, false, Option, none, some, List, ◌∷◌, ◌⊎◌, inl, inr,
  ◌==◌, if◌then◌else◌, Option-cases, arith,
}
use baresip_python.Errors.{Error, Result, ok, err}
use baresip_python.Events.{ℤ, pos, negsuc}
use baresip_python.Audio.{estale}
use baresip_python.Video.{
  NativeVideo, CallVideo, VideoInfo, VideoFrame, Step, i420_size, probed, checked, written, framed,
  info, ensure_bound, write_at, write_frame, read_at, read_frame, einval, enospc,
}

-- The exception says that the streams are not there, or not any more.
abbrev pub IsLost : Error → Type 0
IsLost e = (e ≡ Error.video_restarted) ⊎ (e ≡ Error.video_not_active)

-- The object is unbound and the operation raised `IsLost`'s exception, or the object is bound to
-- `epoch`, takes frames to have the size `size`, and the operation did not raise that exception.
abbrev pub Kept : {S A : Type 0} → Option ℕ → ℕ → Step S A → Type 0
Kept {S} {A} epoch size x =
    ((x.1.bound_epoch ≡ none) × (e : Error) × (x.0 ≡ err e) × IsLost e)
    ⊎ ((x.1.bound_epoch ≡ epoch)
        × (x.1.frame_size ≡ size)
        × ((e : Error) → x.0 ≡ err e → ¬ IsLost e))

-- Behind the probe of an unbound object, `Kept` is about the epoch and the geometry that it found.
abbrev pub Probes : {S A : Type 0} → Option (ℕ × VideoInfo) → Step S A → Type 0
Probes {S} {A} none x = (x.0 ≡ err Error.video_not_active) × (x.1.bound_epoch ≡ none)
Probes {S} {A} (some (epoch, i)) x = Kept (some epoch) (i420_size i.width i.height) x

-- The same for a bound object, which is not probed, and for an unbound one.
abbrev pub Tracks : {S A : Type 0} → NativeVideo S → CallVideo → S → Step S A → Type 0
Tracks {S} {A} native v s x =
    ((epoch : ℕ) × (v.bound_epoch ≡ some epoch) × Kept (some epoch) v.frame_size x)
    ⊎ ((v.bound_epoch ≡ none) × Probes (native.probe v.handle s) x)

if-IsLost : (b : Bool) → IsLost (if b then Error.video_restarted else Error.video_not_active)
if-IsLost true = inl refl
if-IsLost false = inr refl

module _ {S : Type 0} (native : NativeVideo S) where
  tracks :
      {A : Type 0} (v : CallVideo) (f : ℕ → CallVideo → Step S A) (s : S)
      → ((epoch : ℕ) (u : CallVideo) → Kept u.bound_epoch u.frame_size (f epoch u))
      → Tracks native v s (ensure_bound native v.bound_epoch v f s)
  unfolding ensure_bound info probed
  tracks v f s h = elim (Option-cases v.bound_epoch) [
    | inr (epoch, bound) ↦ inl (
      epoch,
      bound,
      subst (λ b. Kept (some epoch) v.frame_size (ensure_bound native b v f s)) (sym bound)
          (subst (λ b. Kept b v.frame_size (f epoch v)) bound (h epoch v)),
    )
    | inl unbound ↦ inr (
      unbound,
      subst (λ b. Probes (native.probe v.handle s) (ensure_bound native b v f s)) (sym unbound)
          (probes (native.probe v.handle s) refl),
    )
  ]
    where
      probes :
          (p : Option (ℕ × VideoInfo))
          → native.probe v.handle s ≡ p
          → Probes p (ensure_bound native none v f s)
      probes none e = rw e (refl, refl)
      probes (some (epoch, i)) e =
          rw e (
            h epoch
              (record v { bound_epoch = some epoch; frame_size = i420_size i.width i.height }))

  checked-Kept :
      (n : ℤ) (frame : VideoFrame) (v : CallVideo) (t : S)
      → Kept v.bound_epoch v.frame_size (framed (checked n v).0 frame, (checked n v).1, t)
  unfolding checked
  checked-Kept (pos n) frame v t = inr (refl, refl, λ e h x. absurd (ground arith))
  checked-Kept (negsuc n) frame v t = inl (refl, _, refl, if-IsLost (suc n == estale))

  read_at-Kept :
      (s : S) (epoch : ℕ) (v : CallVideo)
      → Kept v.bound_epoch v.frame_size (read_at native s epoch v)
  unfolding read_at
  read_at-Kept s epoch v =
      let (n, frame, t) = native.read_native v.handle epoch v.frame_size s in
      checked-Kept n frame v t

  not-IsLost : (e : Error) → ◌≡◌ {A = Result Bool} (err Error.value_error) (err e) → ¬ IsLost e
  not-IsLost e q (inl restarted) = cc
  not-IsLost e q (inr inactive) = cc

  refused-Kept :
      (a b : Bool) (e : Error) (v : CallVideo) (t : S)
      → IsLost e
      → let x : Result Bool × CallVideo =
          if a
          then (err Error.value_error, v)
          else if b
          then (ok false, v)
          else (err e, record v { bound_epoch = none }) in
        Kept v.bound_epoch v.frame_size (x.0, x.1, t)
  refused-Kept true b e v t h = inr (refl, refl, λ x q lost. not-IsLost x q lost)
  refused-Kept false true e v t h = inr (refl, refl, λ x q lost. absurd (ground arith))
  refused-Kept false false e v t h = inl (refl, e, refl, h)

  written-Kept :
      (n : ℤ) (v : CallVideo) (t : S)
      → Kept v.bound_epoch v.frame_size ((written n v).0, (written n v).1, t)
  unfolding written checked
  written-Kept (pos n) v t = inr (refl, refl, λ e h x. absurd (ground arith))
  written-Kept (negsuc n) v t =
      refused-Kept (suc n == einval) (suc n == enospc) _ v t (if-IsLost (suc n == estale))

  -- After `read_frame`, the object is unbound and VideoRestarted or VideoNotActive was raised, or it
  -- is bound as before and neither was raised; an object that was unbound is bound to the epoch that the probe found, and
  -- takes frames to have the size of that geometry.
  pub read_frame-Tracks : (v : CallVideo) (s : S) → Tracks native v s (read_frame native v s)
  unfolding read_frame
  read_frame-Tracks v s = tracks v (read_at native s) s (read_at-Kept s)

  -- After `write_frame` of some bytes, the object is unbound and VideoRestarted or VideoNotActive
  -- was raised, or it is bound as before and neither was raised, also where the frame was refused;
  -- an object that was
  -- unbound is bound to the epoch that the probe found, with the size of that geometry.
  pub write_frame-Tracks :
      (x : ℕ) (i420 : List ℕ) (timestamp : ℕ) (v : CallVideo) (s : S)
      → Tracks native v s (write_frame native (x ∷ i420) timestamp v s)
  unfolding write_frame write_at
  write_frame-Tracks x i420 timestamp v s =
      tracks v (write_at native (x ∷ i420) timestamp s) s (λ epoch u.
        let (n, t) = native.write_native u.handle epoch (x ∷ i420) timestamp s in
        written-Kept n u t)
