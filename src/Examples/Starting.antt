-- ===== src/Examples/Starting.antt =====
-- The start of a runtime on concrete inputs.
use baresip_python.Base.{
  ◌≡◌, ◌<◌, refl, ◌++◌, true, none, some, [], ◌∷◌, codes, text_eq, before, decimal, All,
}
use baresip_python.Errors.{ok}
use baresip_python.Events.{Payload}
use baresip_python.Account.{is_fine, reject_chars, is_rejected}
use baresip_python.Call.{CallState}
use baresip_python.Configuration.{
  is_valid_config, is_driver, is_header_name, is_token_char, utf8_length,
}
use baresip_python.Runtime.Boot.{
  Registry, Setup, set_up, settings, start_drivers, start_identity, start_headers, start_trace,
  validate_audio_drivers, registered, check_drivers, names_in, tell_stack,
}
use baresip_python.Runtime.Boot.Ready.{Lists, startup_commands, set_up-Lists}
use baresip_python.Runtime.Boot.Validated.{Fits, settings_valid}
use baresip_python.World.{World, Turn, head_turn, command, deliver}
use baresip_python.Examples.Data.{world, turn, no_reply}
use baresip_python.Examples.Settings.{local_bench, any_rate}

-- The stack's audio drivers: two sources, one player.
abbrev drivers_turn : Turn
drivers_turn = record {
  arrivals = [];
  reply = ok (record {
    ev = 0;
    payload = Payload.parsed (record no_reply {
      ausrc = some (codes "aumem" ∷ codes "aufile" ∷ []);
      auplay = some (codes "aumem" ∷ []);
    });
  });
}

abbrev bench_setup : Setup
bench_setup = record {
  text = codes "# none" ++ 10 ∷ [];
  level = 2;
  sip_trace = true;
  expose_headers = codes "X-Id" ∷ [];
  instance_id = none;
  drivers = (Registry.source, codes "aufile") ∷ (Registry.player, codes "aumem") ∷ [];
}

abbrev coming_up : World
coming_up = world CallState.established (drivers_turn ∷ turn [] ∷ turn [] ∷ []) []

set_up-Lists_example :
    Lists (head_turn coming_up.turns).reply bench_setup.drivers
    × ((set_up bench_setup coming_up).1.sent ≡ startup_commands bench_setup)
unfolding set_up start_drivers start_identity start_headers start_trace validate_audio_drivers
    registered check_drivers names_in tell_stack command deliver text_eq
set_up-Lists_example = set_up-Lists bench_setup coming_up refl

settings_valid_example :
    (s : Setup) × (settings any_rate decimal 2 (some local_bench) ≡ ok s)
    × (s.level < 4)
    × All Fits s.drivers
unfolding is_valid_config is_driver is_header_name is_token_char utf8_length before is_fine
    reject_chars is_rejected text_eq
settings_valid_example = settings_valid any_rate decimal 2 local_bench refl
