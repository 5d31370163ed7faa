-- ===== src/Wire.antt =====
-- The commands that the Python side sends to the SIP thread, with the text of their arguments:
-- `args` of the calls of `Runtime.cmd` in src/baresip/call.py, ua.py and
-- runtime.py.
use baresip_python.Base.{ℕ, Bool, true, false, List, [], ◌∷◌, ◌++◌, Text, decimal}
use baresip_python.Events.{Payload}
use baresip_python.Runtime.Commands.{ReplyData}

-- A handle is that of the object concerned.
pub data Command : Type 0 where
  ua_alloc : Text → Command
  ua_register ua_unregister : ℕ → Command
  ua_connect : ℕ → ℕ → Text → List (Text × Text) → Command
  call_answer : ℕ → Bool → Command
  call_reject call_hangup call_video_keyframe : ℕ → Command
  call_hold : ℕ → Bool → Command
  call_set_video_dir : ℕ → ℕ → Command
  call_transfer : ℕ → Text → Command
  call_replace_transfer : ℕ → ℕ → Command
  call_transfer_accept : ℕ → Text → Command
  call_transfer_reject : ℕ → ℕ → Command
  call_send_digit : ℕ → ℕ → Command
  set_drain call_count ping audio_drivers : Command
  set_log_level : ℕ → Command
  set_sip_trace : Bool → Command
  set_expose_headers : List Text → Command
  set_instance_id : Text → Command

abbrev pub flag : Bool → ℕ
flag true = 1
flag false = 0

-- f"{handle} {rest}"
abbrev pub spaced : ℕ → Text → Text
spaced handle rest = decimal handle ++ b' ' ∷ rest

abbrev pub header_lines : List (Text × Text) → Text
header_lines [] = []
header_lines ((name, value) ∷ rest) = 10 ∷ (name ++ b':' ∷ b' ' ∷ (value ++ header_lines rest))

-- `",".join(names)`
abbrev pub comma_joined : List Text → Text
comma_joined [] = []
comma_joined (name ∷ []) = name
comma_joined (name ∷ next ∷ rest) = name ++ b',' ∷ comma_joined (next ∷ rest)

-- What goes over the wire beside the command's number.
unfoldable pub arguments : Command → Text
arguments (ua_alloc aor) = aor
arguments (ua_register h) = decimal h
arguments (ua_unregister h) = decimal h
arguments (ua_connect h direction uri headers) =
    spaced h (spaced direction (uri ++ header_lines headers))
arguments (call_answer h video) = spaced h (decimal (flag video))
arguments (call_reject h) = decimal h
arguments (call_hangup h) = decimal h
arguments (call_video_keyframe h) = decimal h
arguments (call_hold h hold) = spaced h (decimal (flag hold))
arguments (call_set_video_dir h direction) = spaced h (decimal direction)
arguments (call_transfer h uri) = spaced h uri
arguments (call_replace_transfer h consult) = spaced h (decimal consult)
arguments (call_transfer_accept h raw) = spaced h raw
arguments (call_transfer_reject h status) = spaced h (decimal status)
arguments (call_send_digit h key) = spaced h (key ∷ [])
arguments set_drain = []
arguments call_count = []
arguments ping = []
arguments audio_drivers = []
arguments (set_log_level level) = decimal level
arguments (set_sip_trace enabled) = decimal (flag enabled)
arguments (set_expose_headers names) = comma_joined names
arguments (set_instance_id id) = id

-- The event that completes a command, as `cmd` returns it.
pub record Reply : Type 0 where
  pub ev : ℕ
  pub payload : Payload ReplyData

-- BP_EV_STALE_HANDLE
abbrev pub stale_handle : ℕ
stale_handle = 3
