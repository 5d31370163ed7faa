-- ===== src/Examples/Building.antt =====
-- A native build on concrete inputs.
use baresip_python.Base.{
  ◌≡◌, refl, false, List, [], ◌∷◌, Text, codes, text_eq, starts_with, strip, is_digit, is_space,
}
use baresip_python.BuildPolicy.{
  check_build, wanted_modules, default_modules, platform_modules, debug_modules, ffmpeg_modules,
  is_within, check_gpl_modules, gpl_requested, check_gpl_link_lines, check_completeness,
  check_detected,
}
use baresip_python.BuildPolicy.Scan.{
  parse_modules_from_static_c, parse_modules_detected, is_word, word_before_semicolon, export_here,
  split_list, sgr_rest, drop_sgr, detected_in, library_file, path_to_library, gpl_token,
  has_gpl_link,
}
use baresip_python.BuildPolicy.Gate.{IsAllowed, check_build-IsAllowed}
use baresip_python.BuildPolicy.Exports.{static_c_of, parse_modules_from_static_c-static_c_of}

abbrev two_modules : List Text
two_modules = codes "g711" ∷ codes "dtls_srtp" ∷ []

parse_modules_from_static_c-static_c_of_example :
    parse_modules_from_static_c (static_c_of two_modules) ≡ two_modules
unfolding is_word is_digit
parse_modules_from_static_c-static_c_of_example =
    parse_modules_from_static_c-static_c_of two_modules (refl, (refl, tt))

abbrev clean_link : Text
clean_link = codes "cc -o b -L/usr/lib/libopus -lopus"

-- The default modules on a system without modules of its own.
check_build-IsAllowed_example :
    IsAllowed (codes "Minix") [] false (static_c_of default_modules) (clean_link ∷ [])
unfolding check_build wanted_modules default_modules platform_modules debug_modules ffmpeg_modules
    is_within check_gpl_modules gpl_requested check_gpl_link_lines check_completeness check_detected
    parse_modules_from_static_c parse_modules_detected is_word word_before_semicolon export_here
    split_list sgr_rest drop_sgr detected_in library_file path_to_library gpl_token has_gpl_link
    text_eq starts_with strip is_digit is_space
check_build-IsAllowed_example =
    check_build-IsAllowed (codes "Minix") [] false (codes "-- no output")
      (static_c_of default_modules) (clean_link ∷ []) refl
