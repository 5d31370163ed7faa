-- ===== src/Runtime/Boot/Validated.antt =====
-- The settings of `start` of src/baresip/runtime.py, from a configuration that was validated.
use baresip_python.Base.{
  ℕ, ◌<◌, ◌≤◌, leb, length, all, before, ◌≡◌, refl, ap, Bool, true, false, ◌||◌, if◌then◌else◌,
  Option, none, some, [], ◌∷◌, Text, codes, text_eq, All, arith, and_true,
}
use baresip_python.Errors.{ok}
use baresip_python.Account.{is_one_of, is_fine}
use baresip_python.Configuration.{
  Config, is_driver, utf8_length, if_given, is_header_name, log_level_names, is_valid_config,
}
use baresip_python.Runtime.Boot.{
  Registry, Setup, module_of, log_level, known_level, with_level, settings,
}

choice_known :
    (a b c d : Bool)
    → (a || (b || (c || (d || false)))) ≡ true
    → (n : ℕ) × ((if a
          then some 0
          else if b
          then some 1
          else if c
          then some 2
          else if d
          then some 3
          else none)
        ≡ some n)
      × (n < 4)
choice_known true b c d h = (0, refl, ground arith)
choice_known false true c d h = (1, refl, ground arith)
choice_known false false true d h = (2, refl, ground arith)
choice_known false false false true h = (3, refl, ground arith)
choice_known false false false false h = absurd (ground arith)

level_known :
    (name : Text)
    → is_one_of log_level_names name ≡ true
    → (n : ℕ) × (log_level name ≡ some n) × (n < 4)
unfolding log_level
level_known name h =
    choice_known (text_eq name (codes "debug")) (text_eq name (codes "info"))
      (text_eq name (codes "warning")) (text_eq name (codes "error")) h

abbrev pub Fits : Registry × Text → Type 0
Fits (registry, name) = utf8_length name ≤ 15

driver_fits : (value : Text) → is_driver value ≡ true → utf8_length (before b',' value) ≤ 15
unfolding is_driver
driver_fits value h =
    let (fine, sizes) = and_true (is_fine (34 ∷ []) false value) _ h in
    let (short, rest) = and_true (leb (utf8_length (before b',' value)) 15) _ sizes in ground arith

module_fits :
    (override : Option Text) (driver : Text)
    → if_given is_driver override ≡ true
    → is_driver driver ≡ true
    → utf8_length (module_of override driver) ≤ 15
unfolding module_of
module_fits none driver h k = driver_fits driver k
module_fits (some []) driver h k = driver_fits driver k
module_fits (some (c ∷ s)) driver h k = driver_fits (c ∷ s) h

module _ {F : Type 0} (is_positive_float : F → Bool) (format_g : F → Text) where
  -- A configuration that passed its validation gives `start` its settings without a KeyError: a
  -- log level of the stack, and two audio drivers whose module names fit the stack's 16 bytes.
  pub settings_valid :
      (level : ℕ) (c : Config F)
      → is_valid_config is_positive_float format_g c ≡ true
      → (s : Setup) × (settings is_positive_float format_g level (some c) ≡ ok s)
        × (s.level < 4)
        × All Fits s.drivers
  unfolding settings is_valid_config with_level
  settings_valid level c valid =
      let (interface, h1) = and_true (if_given (is_fine [] false) c.net_interface) _ valid in
      let (driver, h2) = and_true (is_driver c.audio_driver) _ h1 in
      let (source, h3) = and_true (if_given is_driver c.audio_source) _ h2 in
      let (player, h4) = and_true (if_given is_driver c.audio_player) _ h3 in
      let (video, h5) = and_true (if_given is_driver c.video_source) _ h4 in
      let (few, h6) = and_true (leb (length c.expose_headers) 16) _ h5 in
      let (headers, h7) = and_true (all is_header_name c.expose_headers) _ h6 in
      let (named, h8) = and_true (is_one_of log_level_names c.native_log_level) _ h7 in
      let (n, known, small) = level_known c.native_log_level named in
      (
        _,
        ap (λ (o : Option ℕ). with_level is_positive_float format_g c (known_level o)) known,
        small,
        (
          module_fits c.audio_source c.audio_driver source driver,
          (module_fits c.audio_player c.audio_driver player driver, tt),
        ),
      )
