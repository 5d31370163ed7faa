-- ===== src/Runtime/Boot.antt =====
-- What `start` of src/baresip/runtime.py takes from the configuration, and what it asks of the
-- stack once the SIP thread is ready; the log level and the trace of SIP messages.
pub mod Ready
pub mod Validated
use baresip_python.Base.{
  ℕ, Bool, true, false, not, ◌&&◌, Option, none, some, List, [], ◌∷◌, ◌++◌, Text, codes, text_eq,
  before, any, if◌then◌else◌,
}
use baresip_python.Errors.{Error, Result, ok, err}
use baresip_python.Events.{Payload, get_or}
use baresip_python.Configuration.{Config, or_else, render}
use baresip_python.Runtime.Commands.{ReplyData}
use baresip_python.Call.Session.{Method}
use baresip_python.Call.Transfer.{and_then}
use baresip_python.Wire.{
  Command, Reply, audio_drivers, set_log_level, set_sip_trace, set_expose_headers, set_instance_id,
}
use baresip_python.World.{World, Turn, head_turn, command}

-- `LOG_LEVELS`: BP_LOG_DEBUG to BP_LOG_ERROR.
unfoldable pub log_level : Text → Option ℕ
log_level name =
    if text_eq name (codes "debug")
    then some 0
    else if text_eq name (codes "info")
    then some 1
    else if text_eq name (codes "warning")
    then some 2
    else if text_eq name (codes "error")
    then some 3
    else none

-- The registries of audio drivers, `"ausrc"` and `"auplay"`.
pub data Registry : Type 0 where
  source player : Registry

pub record Setup : Type 0 where
  pub text : Text
  pub level : ℕ
  pub sip_trace : Bool
  pub expose_headers : List Text
  pub instance_id : Option Text
  pub drivers : List (Registry × Text)

abbrev pub default_config : Text
default_config = codes "# baresip-python defaults" ++ 10 ∷ []

-- `config or _DEFAULT_CONFIG`
abbrev pub or_default : Text → Text
or_default [] = default_config
or_default (c ∷ s) = c ∷ s

-- `(override or driver).split(",")[0]`
unfoldable pub module_of : Option Text → Text → Text
unfolding before
module_of override driver = before b',' (or_else override driver)

abbrev pub known_level : Option ℕ → Result ℕ
known_level none = err Error.key_error
known_level (some n) = ok n

-- `await self.cmd(...)` where no reply counts.
unfoldable pub tell_stack : Command → Method (Unit {0})
tell_stack c w = elim (head_turn w.turns).reply [
  | ok r ↦ (ok tt, command c w)
  | err e ↦ (err e, command c w)
]

abbrev pub checked_level : Option ℕ → Method (Unit {0})
unfolding tell_stack
checked_level none w = (err Error.value_error, w)
checked_level (some level) w = tell_stack (set_log_level level) w

-- `set_native_log_level`
unfoldable pub set_native_log_level : Text → Method (Unit {0})
unfolding log_level
set_native_log_level level w = checked_level (log_level level) w

-- `registered.get(registry, [])`
unfoldable pub names_in : Registry → ReplyData → List Text
names_in Registry.source d = get_or d.ausrc []
names_in Registry.player d = get_or d.auplay []

abbrev pub no_drivers : ReplyData
no_drivers = record {
  error = none;
  errno = none;
  handle = none;
  calls = none;
  host = none;
  ausrc = none;
  auplay = none;
}

-- `json.loads(payload or b"{}")`
unfoldable pub registered : Payload ReplyData → Result ReplyData
registered Payload.absent = ok no_drivers
registered Payload.empty = ok no_drivers
registered Payload.unparseable = err Error.value_error
registered (Payload.parsed d) = ok d

unfoldable pub check_drivers : List (Registry × Text) → ReplyData → Result (Unit {0})
unfolding names_in
check_drivers [] d = ok tt
check_drivers ((registry, name) ∷ wanted) d =
    let rest = check_drivers wanted d in
    if any (text_eq name) (names_in registry d) then rest else err Error.baresip_error

abbrev pub checked_drivers : List (Registry × Text) → Result ReplyData → Result (Unit {0})
checked_drivers wanted (ok d) = check_drivers wanted d
checked_drivers wanted (err e) = err e

abbrev pub drivers_reply : List (Registry × Text) → Result Reply → Result (Unit {0})
unfolding registered check_drivers
drivers_reply wanted (err e) = err e
drivers_reply wanted (ok r) = checked_drivers wanted (registered r.payload)

-- `_validate_audio_drivers`
unfoldable pub validate_audio_drivers : List (Registry × Text) → Method (Unit {0})
validate_audio_drivers wanted w =
    (drivers_reply wanted (head_turn w.turns).reply, command audio_drivers w)

-- A payload of the reply is the stack's refusal.
abbrev pub identity_reply : Result Reply → Result (Unit {0})
identity_reply (err e) = err e
identity_reply (ok r) = elim r.payload [ Payload.absent ↦ ok tt | _ ↦ err Error.baresip_error ]

-- `if audio_drivers:`
unfoldable pub start_drivers : List (Registry × Text) → Method (Unit {0})
unfolding validate_audio_drivers
start_drivers [] w = (ok tt, w)
start_drivers (d ∷ ds) w = validate_audio_drivers (d ∷ ds) w

-- `if instance_id:`
unfoldable pub start_identity : Option Text → Method (Unit {0})
start_identity none w = (ok tt, w)
start_identity (some []) w = (ok tt, w)
start_identity (some (c ∷ s)) w =
    (identity_reply (head_turn w.turns).reply, command (set_instance_id (c ∷ s)) w)

-- `if expose_headers:`
unfoldable pub start_headers : List Text → Method (Unit {0})
unfolding tell_stack
start_headers [] w = (ok tt, w)
start_headers (name ∷ names) w = tell_stack (set_expose_headers (name ∷ names)) w

-- `if sip_trace: await self.set_sip_trace(True)`
unfoldable pub start_trace : Bool → Method (Unit {0})
unfolding tell_stack
start_trace false w = (ok tt, w)
start_trace true w = tell_stack (set_sip_trace true) w

-- `start` from the state `running` to the watchdog.
unfoldable pub set_up : Setup → Method (Unit {0})
unfolding start_drivers start_identity start_headers start_trace
set_up s w =
    and_then
      (and_then (and_then (start_drivers s.drivers w) (start_identity s.instance_id))
        (start_headers s.expose_headers))
      (start_trace s.sip_trace)

module _ {F : Type 0} (is_positive_float : F → Bool) (format_g : F → Text) where
  abbrev pub with_level : Config F → Result ℕ → Result Setup
  unfolding module_of render
  with_level c (err e) = err e
  with_level c (ok level) = ok (record {
    text = or_default (render is_positive_float format_g c);
    level = level;
    sip_trace = c.sip_trace;
    expose_headers = c.expose_headers;
    instance_id = c.instance_id;
    drivers =
        (Registry.source, module_of c.audio_source c.audio_driver)
        ∷ (Registry.player, module_of c.audio_player c.audio_driver)
        ∷ [];
  })

  -- What `start` makes of its argument before it takes the lock, with the constructor's level.
  unfoldable pub settings : ℕ → Option (Config F) → Result Setup
  unfolding log_level
  settings level none = ok (record {
    text = default_config;
    level = level;
    sip_trace = false;
    expose_headers = [];
    instance_id = none;
    drivers = [];
  })
  settings level (some c) = with_level c (known_level (log_level c.native_log_level))
