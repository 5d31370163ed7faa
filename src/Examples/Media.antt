-- ===== src/Examples/Media.antt =====
-- Media objects over a native side that knows only its epoch.
use baresip_python.Base.{
  ℕ, ◌≡◌, ◌≢◌, refl, true, false, none, some, [], ◌∷◌, ◌==◌, if◌then◌else◌, if_false, arith,
}
use baresip_python.Errors.{Error, err}
use baresip_python.Events.{pos, negsuc}
use baresip_python.Audio.{NativeAudio, AudioInfo, CallAudio, bind_to, read}
use baresip_python.Audio.Rebinding.{Serves, Succeeds, read-restarts_once}
use baresip_python.Video.{NativeVideo, VideoInfo, CallVideo, write_frame}
use baresip_python.Video.Frames.{Tracks, write_frame-Tracks}

abbrev quiet_info : AudioInfo
quiet_info = record {
  tx_ready = true;
  rx_ready = true;
  tx_sample_rate = 8000;
  tx_channels = 1;
  tx_ptime_ms = 20;
  rx_sample_rate = 8000;
  rx_channels = 1;
  tx_buffered = 0;
  rx_buffered = 2;
  tx_capacity = 16000;
  rx_capacity = 16000;
}

abbrev pub epoch_only : NativeAudio ℕ
epoch_only = record {
  probe = λ h s. some (s, quiet_info);
  stats_get = λ h s. none;
  write_bytes = λ h e pcm s. if e == s then (pos 2, s) else (negsuc 115, s);
  read_bytes = λ h e n s. if e == s then (pos 2, 7 ∷ 8 ∷ [], s) else (negsuc 115, [], s);
  flush_bytes = λ h e s. if e == s then (pos 0, s) else (negsuc 115, s);
}

differ : (a b : ℕ) → a ≢ b → (a == b) ≡ false
differ a b h = ground arith

epoch_only-Serves : (h s : ℕ) → Serves ℕ epoch_only h s s
epoch_only-Serves h s = record {
  snapshot = quiet_info;
  probe_epoch = refl;
  read_served = λ n. (2, ground arith);
  read_stale = λ e n other. if_false (e == s) _ _ (differ e s other);
  write_served = λ pcm. (2, ground arith);
  write_stale = λ e pcm other. if_false (e == s) _ _ (differ e s other);
}

abbrev bound_audio : CallAudio
bound_audio = record { handle = 7; bound_epoch = some 1 }

read-restarts_once_example :
    (read epoch_only (pos 160) bound_audio 2
      ≡ (err Error.audio_restarted, bind_to none bound_audio, 2))
    × Succeeds 3 (read epoch_only (pos 160) (read epoch_only (pos 160) bound_audio 2).1 3)
read-restarts_once_example =
    read-restarts_once epoch_only 159 159 1 2 3 bound_audio 2 3 refl (λ e. ground arith)
      (epoch_only-Serves 7 2) (epoch_only-Serves 7 3)

abbrev small_info : VideoInfo
small_info = record {
  tx_ready = true;
  rx_ready = true;
  width = 2;
  height = 2;
  fps_thousandths = 30000;
  tx_frames = 0;
  tx_skipped = 0;
  rx_frames = 0;
  rx_dropped = 0;
  rx_oversize = 0;
}

abbrev full_ring : NativeVideo ℕ
full_ring = record {
  probe = λ h s. some (s, small_info);
  write_native = λ h e frame t s. (negsuc 27, s);
  read_native = λ h e size s.
      (pos 0, record { data_bytes = []; frame_width = 0; frame_height = 0; timestamp_us = 0 }, s);
}

abbrev unbound_video : CallVideo
unbound_video = record { handle = 7; bound_epoch = none; frame_size = 0 }

write_frame-Tracks_example :
    Tracks full_ring unbound_video 4 (write_frame full_ring (9 ∷ []) 33 unbound_video 4)
write_frame-Tracks_example = write_frame-Tracks full_ring 9 [] 33 unbound_video 4
