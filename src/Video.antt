-- ===== src/Video.antt =====
-- src/baresip/video.py: a call's video frames. The native functions are a parameter, `NativeVideo`,
-- on a state `S` of the native side, as those of the audio are; `request_keyframe` sends a command.
pub mod Frames
use baresip_python.Base.{
  ℕ, zero, suc, ◌+◌, ◌*◌, ◌/◌, Bool, true, false, Option, none, some, List, [], ◌∷◌, ◌==◌,
  if◌then◌else◌,
}
use baresip_python.Errors.{Error, Result, ok, err}
use baresip_python.Events.{ℤ, pos, negsuc}
use baresip_python.Audio.{estale, first_bytes}
use baresip_python.Call.Session.{Method}
use baresip_python.Wire.{Command, Reply, stale_handle, call_video_keyframe}
use baresip_python.World.{World, Turn, head_turn, command}

-- struct bp_video_info but the epoch; `fps_thousandths` is 1000 times `VideoInfo.fps`.
pub record VideoInfo : Type 0 where
  pub tx_ready : Bool
  pub rx_ready : Bool
  pub width : ℕ
  pub height : ℕ
  pub fps_thousandths : ℕ
  pub tx_frames : ℕ
  pub tx_skipped : ℕ
  pub rx_frames : ℕ
  pub rx_dropped : ℕ
  pub rx_oversize : ℕ

pub record VideoFrame : Type 0 where
  pub data_bytes : List ℕ
  pub frame_width : ℕ
  pub frame_height : ℕ
  pub timestamp_us : ℕ

-- `bp_video_read` gives what it returns and the frame that it wrote to a buffer of the size given.
pub record NativeVideo (S : Type 0) : Type 0 where
  pub probe : ℕ → S → Option (ℕ × VideoInfo)
  pub write_native : ℕ → ℕ → List ℕ → ℕ → S → ℤ × S
  pub read_native : ℕ → ℕ → ℕ → S → ℤ × VideoFrame × S

pub record CallVideo : Type 0 where
  pub handle : ℕ
  pub bound_epoch : Option ℕ
  pub frame_size : ℕ

-- The size of a packed I420 frame.
unfoldable pub i420_size : ℕ → ℕ → ℕ
i420_size width height = width * height + 2 * ((width + 1) / 2) * ((height + 1) / 2)

-- `info` behind the native call.
unfoldable pub probed : Option (ℕ × VideoInfo) → CallVideo → Result VideoInfo × CallVideo
unfolding i420_size
probed none v = (err Error.video_not_active, record v { bound_epoch = none })
probed (some (epoch, x)) v =
    (ok x, record v { bound_epoch = some epoch; frame_size = i420_size x.width x.height })

-- `_checked`
unfoldable pub checked : ℤ → CallVideo → Result ℕ × CallVideo
checked (pos n) v = (ok n, v)
checked (negsuc n) v = (
  err (if suc n == estale then Error.video_restarted else Error.video_not_active),
  record v { bound_epoch = none },
)

-- errno.EINVAL and errno.ENOSPC
abbrev pub einval : ℕ
einval = 22

abbrev pub enospc : ℕ
enospc = 28

-- What `write_frame` makes of the native function's number.
unfoldable pub written : ℤ → CallVideo → Result Bool × CallVideo
unfolding checked
written (pos n) v = (ok true, v)
written (negsuc n) v =
    if suc n == einval
    then (err Error.value_error, v)
    else if suc n == enospc
    then (ok false, v)
    else elim (checked (negsuc n) v).0 [
      | err e ↦ (err e, (checked (negsuc n) v).1)
      | ok k ↦ (ok true, (checked (negsuc n) v).1)
    ]

abbrev pub framed : Result ℕ → VideoFrame → Result (Option VideoFrame)
framed (err e) frame = err e
framed (ok zero) frame = ok none
framed (ok (suc n)) frame =
    ok (some (record frame { data_bytes = first_bytes (suc n) frame.data_bytes }))

abbrev pub Step : Type 0 → Type 0 → Type 0
Step S A = Result A × CallVideo × S

abbrev pub at_epoch :
    {S A : Type 0}
    → Result VideoInfo × CallVideo
    → (ℕ → CallVideo → Step S A)
    → S
    → Option ℕ
    → Step S A
at_epoch (err e, v) f s bound = (err e, v, s)
at_epoch (ok x, v) f s none = (err Error.type_error, v, s)
at_epoch (ok x, v) f s (some epoch) = f epoch v

module _ {S : Type 0} (native : NativeVideo S) where
  -- `info`
  unfoldable pub info : CallVideo → S → Result VideoInfo × CallVideo
  unfolding probed
  info v s = probed (native.probe v.handle s) v

  -- `_ensure_bound`, with what the operation does with the epoch.
  unfoldable pub ensure_bound :
      {A : Type 0} → Option ℕ → CallVideo → (ℕ → CallVideo → Step S A) → S → Step S A
  unfolding info
  ensure_bound (some epoch) v f s = f epoch v
  ensure_bound none v f s = at_epoch (info v s) f s (info v s).1.bound_epoch

  unfoldable pub write_at : List ℕ → ℕ → S → ℕ → CallVideo → Step S Bool
  unfolding written
  write_at i420 timestamp s epoch v =
      let (n, t) = native.write_native v.handle epoch i420 timestamp s in
      let (r, u) = written n v in (r, u, t)

  -- `write_frame`, with the timestamp that was given or that the clock gave.
  unfoldable pub write_frame : List ℕ → ℕ → CallVideo → S → Step S Bool
  unfolding ensure_bound write_at
  write_frame [] timestamp v s = (err Error.value_error, v, s)
  write_frame (x ∷ i420) timestamp v s =
      ensure_bound v.bound_epoch v (write_at (x ∷ i420) timestamp s) s

  unfoldable pub read_at : S → ℕ → CallVideo → Step S (Option VideoFrame)
  unfolding checked
  read_at s epoch v =
      let (n, frame, t) = native.read_native v.handle epoch v.frame_size s in
      let (r, u) = checked n v in (framed r frame, u, t)

  -- `read_frame`
  unfoldable pub read_frame : CallVideo → S → Step S (Option VideoFrame)
  unfolding ensure_bound read_at
  read_frame v s = ensure_bound v.bound_epoch v (read_at s) s

abbrev pub keyframe_result : Result Reply → Result (Unit {0})
keyframe_result (err e) = err e
keyframe_result (ok r) = if r.ev == stale_handle then err Error.stale_handle_error else ok tt

-- `request_keyframe`
unfoldable pub request_keyframe : CallVideo → Method (Unit {0})
request_keyframe v w =
    (keyframe_result (head_turn w.turns).reply, command (call_video_keyframe v.handle) w)
