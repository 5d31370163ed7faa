-- ===== src/Configuration/Rendered.antt =====
-- The lines of a rendered configuration, src/baresip/config.py.
use baresip_python.Base.{
  ℕ, zero, suc, ◌+◌, ◌≡◌, refl, ◌∙◌, ap, Bool, true, false, Option, none, some, [], ◌∷◌, ◌++◌,
  contains, Text, codes, if_true, if_false, Bool-cases, inl, inr, decimal, arith, line_feeds,
  line_feeds-append, line_feeds-plain, line_feeds-decimal, is_plain, and_true,
}
use baresip_python.Events.{ℤ, pos, negsuc}
use baresip_python.Account.{is_fine, is_rejected, integer}
use baresip_python.Account.Line.{accepted_fine}
use baresip_python.Configuration.{
  Config, if_given, is_driver, norm, or_else, limit_of, line, interface_line, timeout_line, ended,
  size_text, is_valid_config, render,
}

plain_char : (deny : Text) (c : ℕ) → is_rejected deny false c ≡ false → is_plain c ≡ true
unfolding is_rejected
plain_char deny c h = ground arith

line_feeds-fine : (deny value : Text) → is_fine deny false value ≡ true → line_feeds value ≡ 0
line_feeds-fine deny value h =
    line_feeds-plain value (accepted_fine is_plain deny false (plain_char deny) value h)

line_feeds-driver : (value : Text) → is_driver value ≡ true → line_feeds value ≡ 0
unfolding is_driver
line_feeds-driver value h =
    line_feeds-fine (34 ∷ []) value ((and_true (is_fine (34 ∷ []) false value) _ h).0)

line_feeds-norm : (driver : Text) → line_feeds driver ≡ 0 → line_feeds (norm driver) ≡ 0
line_feeds-norm driver h = elim (Bool-cases (contains b',' driver)) [
  | inl given ↦ ap line_feeds (if_true _ _ _ given) ∙ h
  | inr bare ↦
      ap line_feeds (if_false _ _ _ bare)
      ∙ line_feeds-append driver (codes ",default")
      ∙ ap (λ n. n + 0) h
]

line_feeds-or_else :
    (x : Option Text) (y : Text)
    → if_given is_driver x ≡ true
    → line_feeds y ≡ 0
    → line_feeds (norm (or_else x y)) ≡ 0
line_feeds-or_else none y h k = line_feeds-norm y k
line_feeds-or_else (some []) y h k = line_feeds-norm y k
line_feeds-or_else (some (c ∷ s)) y h k = line_feeds-norm (c ∷ s) (line_feeds-driver (c ∷ s) h)

line_feeds-integer : (n : ℤ) → line_feeds (integer n) ≡ 0
line_feeds-integer (pos n) = line_feeds-decimal n
line_feeds-integer (negsuc n) = line_feeds-decimal (suc n)

-- A line of one key and one value, and what follows it.
line_feeds-line :
    (key value rest : Text)
    → line_feeds key ≡ 0
    → line_feeds value ≡ 0
    → line_feeds (line key value ++ rest) ≡ suc (line_feeds rest)
line_feeds-line key value rest h k =
    let a = line_feeds-append (key ++ (value ++ 10 ∷ [])) rest in
    let b = line_feeds-append key (value ++ 10 ∷ []) in
    let c = line_feeds-append value (10 ∷ []) in ground arith

-- A line that may be missing.
abbrev pub interface_count : Option Text → ℕ
interface_count none = 0
interface_count (some []) = 0
interface_count (some (c ∷ s)) = 1

abbrev pub timeout_count : ℤ → ℕ
timeout_count (pos zero) = 0
timeout_count (pos (suc n)) = 1
timeout_count (negsuc n) = 1

line_feeds-interface :
    (i : Option Text) (rest : Text)
    → if_given (is_fine [] false) i ≡ true
    → line_feeds (interface_line i ++ rest) ≡ interface_count i + line_feeds rest
line_feeds-interface none rest h = omega arith
line_feeds-interface (some []) rest h = omega arith
line_feeds-interface (some (c ∷ s)) rest h =
    line_feeds-line (codes "net_interface ") (c ∷ s) rest refl (line_feeds-fine [] (c ∷ s) h)
    ∙ omega arith

line_feeds-timeout :
    (n : ℤ) (rest : Text) → line_feeds (timeout_line n ++ rest) ≡ timeout_count n + line_feeds rest
line_feeds-timeout (pos zero) rest = omega arith
line_feeds-timeout (pos (suc n)) rest =
    line_feeds-line (codes "rtp_timeout ") (decimal (suc n)) rest refl (line_feeds-decimal (suc n))
    ∙ omega arith
line_feeds-timeout (negsuc n) rest =
    line_feeds-line (codes "rtp_timeout ") (integer (negsuc n)) rest refl
      (line_feeds-integer (negsuc n))
    ∙ omega arith

line_feeds-size : (w h : ℤ) → line_feeds (size_text w h) ≡ 0
line_feeds-size w h =
    let a = line_feeds-append (integer w) (b'x' ∷ (integer h ++ 34 ∷ [])) in
    let b = line_feeds-append (integer h) (34 ∷ []) in
    let c = line_feeds-integer w in let d = line_feeds-integer h in ground arith

module _ {F : Type 0} (is_positive_float : F → Bool) (format_g : F → Text) where
  abbrev from_bitrate : Config F → Text
  from_bitrate c =
      line (codes "video_bitrate ") (integer c.video_bitrate) ++ ended c.extra_config_text

  abbrev from_fps : Config F → Text
  from_fps c = line (codes "video_fps ") (format_g c.video_fps) ++ from_bitrate c

  abbrev from_size : Config F → Text
  from_size c = line (codes "video_size ") (size_text c.video_width c.video_height) ++ from_fps c

  abbrev from_display : Config F → Text
  from_display c = line (codes "video_display ") (codes "vidmem,default") ++ from_size c

  abbrev from_source : Config F → Text
  from_source c =
      line (codes "video_source ") (norm (or_else c.video_source (codes "vidmem")))
      ++ from_display c

  abbrev from_timeout : Config F → Text
  from_timeout c = timeout_line c.rtp_timeout ++ from_source c

  abbrev from_calls : Config F → Text
  from_calls c =
      line (codes "call_max_calls ") (integer (limit_of c.max_concurrent_calls)) ++ from_timeout c

  abbrev from_player : Config F → Text
  from_player c =
      line (codes "audio_player ") (norm (or_else c.audio_player c.audio_driver)) ++ from_calls c

  line_feeds-video :
      (c : Config F)
      → ((f : F) → line_feeds (format_g f) ≡ 0)
      → if_given is_driver c.video_source ≡ true
      → line_feeds (from_source c) ≡ 5 + line_feeds (ended c.extra_config_text)
  line_feeds-video c number video =
      line_feeds-line (codes "video_source ") (norm (or_else c.video_source (codes "vidmem")))
        (from_display c) refl (line_feeds-or_else c.video_source (codes "vidmem") video refl)
      ∙ ap suc (
          line_feeds-line (codes "video_display ") (codes "vidmem,default") (from_size c) refl refl
          ∙ ap suc (
              line_feeds-line (codes "video_size ") (size_text c.video_width c.video_height)
                (from_fps c) refl (line_feeds-size c.video_width c.video_height)
              ∙ ap suc (
                  line_feeds-line (codes "video_fps ") (format_g c.video_fps) (from_bitrate c) refl
                    (number c.video_fps)
                  ∙ ap suc (
                      line_feeds-line (codes "video_bitrate ") (integer c.video_bitrate)
                        (ended c.extra_config_text) refl (line_feeds-integer c.video_bitrate)))))
      ∙ omega arith

  -- The text of a valid configuration has one line for each of its eight fixed settings, one for the
  -- interface and one for the RTP timeout where they are set, and the lines of the extra text: no
  -- value adds a line, where the text of a number does not.
  pub line_feeds-render :
      (c : Config F)
      → ((f : F) → line_feeds (format_g f) ≡ 0)
      → is_valid_config is_positive_float format_g c ≡ true
      → line_feeds (render is_positive_float format_g c)
        ≡ 8
          + interface_count c.net_interface
          + timeout_count c.rtp_timeout
          + line_feeds (ended c.extra_config_text)
  unfolding is_valid_config render
  line_feeds-render c number valid =
      let (interface, h1) = and_true (if_given (is_fine [] false) c.net_interface) _ valid in
      let (driver, h2) = and_true (is_driver c.audio_driver) _ h1 in
      let (source, h3) = and_true (if_given is_driver c.audio_source) _ h2 in
      let (player, h4) = and_true (if_given is_driver c.audio_player) _ h3 in
      let (video, h5) = and_true (if_given is_driver c.video_source) _ h4 in
      let base = line_feeds-driver c.audio_driver driver in
      let i =
        line_feeds-interface c.net_interface
          (line (codes "audio_source ") (norm (or_else c.audio_source c.audio_driver))
            ++ from_player c)
          interface in
      let a =
        line_feeds-line (codes "audio_source ") (norm (or_else c.audio_source c.audio_driver))
          (from_player c) refl (line_feeds-or_else c.audio_source c.audio_driver source base) in
      let b =
        line_feeds-line (codes "audio_player ") (norm (or_else c.audio_player c.audio_driver))
          (from_calls c) refl (line_feeds-or_else c.audio_player c.audio_driver player base) in
      let d =
        line_feeds-line (codes "call_max_calls ") (integer (limit_of c.max_concurrent_calls))
          (from_timeout c) refl (line_feeds-integer (limit_of c.max_concurrent_calls)) in
      let e = line_feeds-timeout c.rtp_timeout (from_source c) in
      i
      ∙ ap (λ n. interface_count c.net_interface + n)
          (a
            ∙ ap suc (
                b
                ∙ ap suc (
                    d
                    ∙ ap suc (
                        e
                        ∙ ap (λ n. timeout_count c.rtp_timeout + n)
                            (line_feeds-video c number video)))))
      ∙ omega arith
