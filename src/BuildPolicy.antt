-- ===== src/BuildPolicy.antt =====
-- The checks of scripts/build_native.py on what a native build has put
-- together. A set of modules is a list in which only membership counts. What cmake printed, the
-- static.c that it wrote and its link commands are inputs. Text is read as ASCII.
pub mod Scan
pub mod Links
pub mod Gate
pub mod Exports
use baresip_python.Base.{
  ℕ, Bool, true, false, not, ◌&&◌, ◌||◌, Option, none, some, List, [], ◌∷◌, ◌++◌, map, any, all,
  Text, codes, text_eq, ◌==◌, if◌then◌else◌,
}
use Scan.{parse_modules_from_static_c, parse_modules_detected, split_modules, has_gpl_link}

abbrev pub has_module : Text → List Text → Bool
has_module m modules = any (text_eq m) modules

unfoldable pub default_modules : List Text
default_modules =
    codes "g711"
    ∷ codes "libg722"
    ∷ codes "opus"
    ∷ codes "vp8"
    ∷ codes "srtp"
    ∷ codes "dtls_srtp"
    ∷ codes "ice"
    ∷ codes "stun"
    ∷ codes "turn"
    ∷ codes "aufile"
    ∷ codes "ausine"
    ∷ codes "auconv"
    ∷ codes "auresamp"
    ∷ codes "rtcpsummary"
    ∷ []

unfoldable pub platform_modules : Text → List Text
platform_modules system =
    if text_eq system (codes "Darwin")
    then codes "coreaudio" ∷ codes "avcapture" ∷ []
    else if text_eq system (codes "Linux")
    then codes "alsa" ∷ codes "v4l2" ∷ []
    else []

unfoldable pub debug_modules : List Text
debug_modules = codes "menu" ∷ codes "stdio" ∷ codes "cons" ∷ []

unfoldable pub ffmpeg_modules : List Text
ffmpeg_modules = codes "avcodec" ∷ codes "avformat" ∷ codes "avfilter" ∷ codes "swscale" ∷ []

-- The modules that `build` asks cmake for.
unfoldable pub wanted_modules : Text → List Text → Bool → List Text
unfolding default_modules platform_modules debug_modules
wanted_modules system extras debug =
    default_modules
    ++ (platform_modules system ++ (extras ++ (if debug then debug_modules else [])))

-- What a BuildPolicyError is about.
pub data PolicyError : Type 0 where
  modules_disagree ffmpeg_enabled gpl_linked module_mismatch : PolicyError

-- `xs - ys` is empty.
unfoldable pub is_within : List Text → List Text → Bool
is_within xs ys = all (λ (m : Text). has_module m ys) xs

abbrev pub unless : Bool → PolicyError → Option PolicyError
unless true e = none
unless false e = some e

unfoldable pub check_gpl_modules : List Text → List Text → Option PolicyError
unfolding ffmpeg_modules
check_gpl_modules enabled extras =
    unless (all (λ (m : Text). not (has_module m ffmpeg_modules) || has_module m extras) enabled)
      PolicyError.ffmpeg_enabled

-- `bool(allowed_extra & FFMPEG_MODULES)`
unfoldable pub gpl_requested : List Text → Bool
unfolding ffmpeg_modules
gpl_requested extras = any (λ (m : Text). has_module m ffmpeg_modules) extras

unfoldable pub check_gpl_link_lines : List Text → List Text → Option PolicyError
unfolding gpl_requested
check_gpl_link_lines links extras =
    unless (not (any has_gpl_link links) || gpl_requested extras) PolicyError.gpl_linked

unfoldable pub check_completeness : List Text → List Text → Option PolicyError
unfolding is_within
check_completeness actual expected =
    unless (is_within expected actual && is_within actual expected) PolicyError.module_mismatch

-- The cross-check, where configure's output names modules.
unfoldable pub check_detected : List Text → List Text → Option PolicyError
unfolding is_within
check_detected [] enabled = none
check_detected (m ∷ detected) enabled =
    unless (is_within (m ∷ detected) enabled && is_within enabled (m ∷ detected))
      PolicyError.modules_disagree

abbrev pub or_next : Option PolicyError → Option PolicyError → Option PolicyError
or_next (some e) next = some e
or_next none next = next

-- The checks of `build` behind cmake, in order; `extras` is what `--extra-modules` asks for.
unfoldable pub check_build : Text → List Text → Bool → Text → Text → List Text → Option PolicyError
unfolding check_detected check_gpl_modules check_gpl_link_lines check_completeness wanted_modules
    parse_modules_from_static_c parse_modules_detected
check_build system extras debug configure_output static_c links =
    let enabled = parse_modules_from_static_c static_c in
    or_next (check_detected (parse_modules_detected configure_output) enabled) (
      or_next (check_gpl_modules enabled extras) (
        or_next (check_gpl_link_lines links extras)
          (check_completeness enabled (wanted_modules system extras debug))))
