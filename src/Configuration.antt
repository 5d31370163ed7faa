-- ===== src/Configuration.antt =====
-- `Config` of src/baresip/config.py: its validation and the text that it is rendered to. The frame
-- rate is of a type `F` of floating-point numbers, with the test that it is positive and its text
-- under the format `g`.
pub mod Rendered
use baresip_python.Base.{
  ℕ, zero, suc, ◌+◌, Bool, true, false, not, ◌&&◌, ◌||◌, Option, none, some, List, [], ◌∷◌, ◌++◌,
  any, all, contains, length, Text, codes, text_eq, before, after, ◌==◌, ltb, leb, if◌then◌else◌,
  decimal,
}
use baresip_python.Errors.{Error, Result, ok, err}
use baresip_python.Events.{ℤ, pos, negsuc}
use baresip_python.Account.{is_fine, is_empty, is_one_of, integer}

-- The types of the fields are those that `__post_init__` insists on.
pub record Config (F : Type 0) : Type 0 where
  pub net_interface : Option Text
  pub audio_driver : Text
  pub audio_source : Option Text
  pub audio_player : Option Text
  pub expose_headers : List Text
  pub native_log_level : Text
  pub sip_trace : Bool
  pub max_concurrent_calls : Option ℤ
  pub instance_id : Option Text
  pub rtp_timeout : ℤ
  pub video_source : Option Text
  pub video_width : ℤ
  pub video_height : ℤ
  pub video_fps : F
  pub video_bitrate : ℤ
  pub extra_config_text : Text

abbrev pub is_positive : ℤ → Bool
is_positive (pos zero) = false
is_positive (pos (suc n)) = true
is_positive (negsuc n) = false

abbrev pub is_not_negative : ℤ → Bool
is_not_negative (pos n) = true
is_not_negative (negsuc n) = false

abbrev pub if_given : {A : Type 0} → (A → Bool) → Option A → Bool
if_given test none = true
if_given test (some x) = test x

-- `len(s.encode())`
unfoldable pub utf8_length : Text → ℕ
utf8_length [] = 0
utf8_length (c ∷ s) =
    (if ltb c 128 then 1 else if ltb c 2048 then 2 else if ltb c 65536 then 3 else 4)
    + utf8_length s

-- A value of `audio_driver`, `audio_source`, `audio_player` or `video_source`.
unfoldable pub is_driver : Text → Bool
unfolding is_fine utf8_length before after
is_driver value =
    is_fine (34 ∷ []) false value
    && (leb (utf8_length (before b',' value)) 15 && leb (utf8_length (after b',' value)) 127)

abbrev is_letter_or_digit : ℕ → Bool
is_letter_or_digit c =
    (leb b'A' c && leb c b'Z') || ((leb b'a' c && leb c b'z') || (leb b'0' c && leb c b'9'))

-- `_HEADER_NAME`
unfoldable pub is_token_char : ℕ → Bool
is_token_char c = is_letter_or_digit c || contains c (39 ∷ codes "!#$%&*+.^_`|~-")

unfoldable pub is_header_name : Text → Bool
unfolding is_token_char
is_header_name name = not (is_empty name) && (all is_token_char name && leb (length name) 63)

unfoldable pub is_hex : ℕ → Bool
is_hex c = (leb b'0' c && leb c b'9') || (leb b'a' c && leb c b'f')

-- Groups of hexadecimal digits with a `-` between them: the text of a UUID.
unfoldable pub is_grouped : List ℕ → Text → Bool
unfolding is_hex
is_grouped [] s = false
is_grouped (zero ∷ []) [] = true
is_grouped (zero ∷ []) (c ∷ s) = false
is_grouped (zero ∷ (m ∷ rest)) [] = false
is_grouped (zero ∷ (m ∷ rest)) (c ∷ s) = (c == b'-') && is_grouped (m ∷ rest) s
is_grouped (suc n ∷ rest) [] = false
is_grouped (suc n ∷ rest) (c ∷ s) = is_hex c && is_grouped (n ∷ rest) s

abbrev pub is_uuid : Text → Bool
unfolding is_grouped
is_uuid = is_grouped (8 ∷ 4 ∷ 4 ∷ 4 ∷ 12 ∷ [])

abbrev pub log_level_names : List Text
log_level_names = codes "debug" ∷ codes "info" ∷ codes "warning" ∷ codes "error" ∷ []

abbrev pub norm : Text → Text
norm driver = if contains b',' driver then driver else driver ++ codes ",default"

-- `x or y`
abbrev pub or_else : Option Text → Text → Text
or_else none y = y
or_else (some []) y = y
or_else (some (c ∷ s)) y = c ∷ s

abbrev pub limit_of : Option ℤ → ℤ
limit_of none = pos 0
limit_of (some n) = n

abbrev pub line : Text → Text → Text
line key value = key ++ (value ++ 10 ∷ [])

abbrev pub interface_line : Option Text → Text
interface_line none = []
interface_line (some []) = []
interface_line (some (c ∷ s)) = line (codes "net_interface ") (c ∷ s)

abbrev pub timeout_line : ℤ → Text
timeout_line (pos zero) = []
timeout_line (pos (suc n)) = line (codes "rtp_timeout ") (decimal (suc n))
timeout_line (negsuc n) = line (codes "rtp_timeout ") (integer (negsuc n))

-- The text with a line feed at its end, if it has any.
unfoldable pub ended : Text → Text
ended [] = []
ended (c ∷ []) = if c == 10 then c ∷ [] else c ∷ (10 ∷ [])
ended (c ∷ (d ∷ s)) = c ∷ ended (d ∷ s)

abbrev pub size_text : ℤ → ℤ → Text
size_text w h = 34 ∷ (integer w ++ b'x' ∷ (integer h ++ 34 ∷ []))

module _ {F : Type 0} (is_positive_float : F → Bool) (format_g : F → Text) where
  unfoldable pub is_valid_config : Config F → Bool
  unfolding is_fine is_driver is_header_name is_uuid
  is_valid_config c =
      if_given (is_fine [] false) c.net_interface
      && (is_driver c.audio_driver
          && (if_given is_driver c.audio_source
              && (if_given is_driver c.audio_player
                  && (if_given is_driver c.video_source
                      && (leb (length c.expose_headers) 16
                          && (all is_header_name c.expose_headers
                              && (is_one_of log_level_names c.native_log_level
                                  && (if_given is_positive c.max_concurrent_calls
                                      && (if_given is_uuid c.instance_id
                                          && (is_not_negative c.rtp_timeout
                                              && (is_positive c.video_width
                                                  && (is_positive c.video_height
                                                      && (is_positive_float c.video_fps
                                                          && is_positive
                                                            c.video_bitrate)))))))))))))

  -- `__post_init__`
  unfoldable pub post_init_config : Config F → Result (Config F)
  unfolding is_valid_config
  post_init_config c = if is_valid_config c then ok c else err Error.value_error

  -- `render`
  unfoldable pub render : Config F → Text
  unfolding ended
  render c =
      interface_line c.net_interface
      ++ (line (codes "audio_source ") (norm (or_else c.audio_source c.audio_driver))
          ++ (line (codes "audio_player ") (norm (or_else c.audio_player c.audio_driver))
              ++ (line (codes "call_max_calls ") (integer (limit_of c.max_concurrent_calls))
                  ++ (timeout_line c.rtp_timeout
                      ++ (line (codes "video_source ")
                            (norm (or_else c.video_source (codes "vidmem")))
                          ++ (line (codes "video_display ") (codes "vidmem,default")
                              ++ (line (codes "video_size ")
                                    (size_text c.video_width c.video_height)
                                  ++ (line (codes "video_fps ") (format_g c.video_fps)
                                      ++ (line (codes "video_bitrate ") (integer c.video_bitrate)
                                          ++ ended c.extra_config_text)))))))))
