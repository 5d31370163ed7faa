-- ===== src/Examples/Settings.antt =====
-- A configuration and a close reason on concrete inputs.
use baresip_python.Base.{
  ◌++◌, arith, ℕ, ◌≡◌, refl, Bool, true, false, none, some, [], ◌∷◌, codes, text_eq, decimal,
  line_feeds, line_feeds-decimal, before, after,
}
use baresip_python.Errors.{Error, ok, from_close_reason}
use baresip_python.Errors.Status.{from_close_reason-decimal}
use baresip_python.Events.{pos}
use baresip_python.Account.{is_fine, reject_chars, is_rejected}
use baresip_python.Configuration.{
  Config, render, is_valid_config, is_driver, is_header_name, is_token_char, utf8_length, ended,
}
use baresip_python.Configuration.Rendered.{line_feeds-render}

-- The defaults with a fixed interface and an RTP timeout, and frame rates that are whole numbers.
abbrev pub local_bench : Config ℕ
local_bench = record {
  net_interface = some (codes "127.0.0.1");
  audio_driver = codes "aumem";
  audio_source = some (codes "aufile,/tmp/a.wav");
  audio_player = none;
  expose_headers = codes "X-Id" ∷ [];
  native_log_level = codes "warning";
  sip_trace = false;
  max_concurrent_calls = some (pos 2);
  instance_id = none;
  rtp_timeout = pos 30;
  video_source = none;
  video_width = pos 640;
  video_height = pos 480;
  video_fps = 30;
  video_bitrate = pos 1000000;
  extra_config_text = [];
}

abbrev pub any_rate : ℕ → Bool
any_rate n = true

line_feeds-render_example : line_feeds (render any_rate decimal local_bench) ≡ 10
unfolding is_valid_config is_driver is_header_name is_token_char utf8_length before after is_fine
    reject_chars is_rejected text_eq ended
line_feeds-render_example = line_feeds-render any_rate decimal local_bench line_feeds-decimal refl

from_close_reason-decimal_example :
    from_close_reason (decimal 486 ++ b' ' ∷ codes "Busy Here")
    ≡ ok (Error.call_busy (some 486) (codes "Busy Here"))
from_close_reason-decimal_example =
    from_close_reason-decimal 486 (codes "Busy Here") (ground arith) (ground arith)
