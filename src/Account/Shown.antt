-- ===== src/Account/Shown.antt =====
-- `Account.__repr__` of src/baresip/config.py: what a log shows of an account. The characters outside
-- ASCII, which Python escapes by a table of its own, are shown by a parameter.
use baresip_python.Base.{
  ℕ, ◌+◌, ◌-◌, ◌/◌, ◌%◌, ◌≡◌, ap, Bool, not, ◌&&◌, ◌||◌, Option, none, some, List, [], ◌∷◌, ◌++◌,
  contains, Text, codes, ◌==◌, ltb, if◌then◌else◌,
}
use baresip_python.Account.{Account, is_empty, integer}

-- The mask that stands for a password.
unfoldable pub masked : Text → Text
masked password = if is_empty password then [] else codes "***"

abbrev pub hex_digit : ℕ → ℕ
hex_digit n = if ltb n 10 then b'0' + n else b'a' + (n - 10)

-- A string is quoted by an apostrophe, unless it has one and no quotation mark.
abbrev pub quote_of : Text → ℕ
quote_of s = if contains 39 s && not (contains 34 s) then 34 else 39

module _ (wide : ℕ → Text) where
  -- One character inside the quotes `quote`.
  unfoldable pub shown_char : ℕ → ℕ → Text
  shown_char quote c =
      if (c == quote) || (c == 92)
      then 92 ∷ c ∷ []
      else if c == 9
      then codes "\\t"
      else if c == 10
      then codes "\\n"
      else if c == 13
      then codes "\\r"
      else if ltb c 32 || (c == 127)
      then 92 ∷ b'x' ∷ hex_digit (c / 16) ∷ hex_digit (c % 16) ∷ []
      else if ltb c 127
      then c ∷ []
      else wide c

  abbrev pub shown_chars : ℕ → Text → Text
  unfolding shown_char
  shown_chars quote [] = []
  shown_chars quote (c ∷ s) = shown_char quote c ++ shown_chars quote s

  -- `repr` of a string, of an optional one and of a tuple of strings.
  unfoldable pub shown : Text → Text
  unfolding shown_chars
  shown s = quote_of s ∷ (shown_chars (quote_of s) s ++ quote_of s ∷ [])

  abbrev pub shown_option : Option Text → Text
  unfolding shown
  shown_option none = codes "None"
  shown_option (some s) = shown s

  abbrev pub shown_items : List Text → Text
  unfolding shown
  shown_items [] = []
  shown_items (s ∷ []) = shown s
  shown_items (s ∷ t ∷ rest) = shown s ++ b',' ∷ b' ' ∷ shown_items (t ∷ rest)

  abbrev pub shown_tuple : List Text → Text
  unfolding shown_items
  shown_tuple [] = codes "()"
  shown_tuple (s ∷ []) = b'(' ∷ (shown s ++ codes ",)")
  shown_tuple (s ∷ t ∷ rest) = b'(' ∷ (shown_items (s ∷ t ∷ rest) ++ b')' ∷ [])

  abbrev pub shown_public : Account → Text
  unfolding shown_option shown_tuple
  shown_public a =
      codes ", registrar="
      ++ (shown_option a.registrar
          ++ (codes ", reg_interval="
              ++ (integer a.reg_interval
                  ++ (codes ", transport="
                      ++ (shown a.transport
                          ++ (codes ", audio_codecs="
                              ++ (shown_tuple a.audio_codecs
                                  ++ (codes ", dtmf_mode="
                                      ++ (shown a.dtmf_mode
                                          ++ (codes ", auth_user="
                                              ++ (shown_option a.auth_user ++ codes ")")))))))))))

  -- `__repr__`
  unfoldable pub repr : Account → Text
  unfolding masked shown_public
  repr a =
      codes "Account(user="
      ++ (shown a.user
          ++ (codes ", domain="
              ++ (shown a.domain
                  ++ (codes ", password=" ++ (shown (masked a.password) ++ shown_public a)))))

  -- What a log shows of an account tells of the password only whether there is one, and nothing of
  -- the extra parameters: two accounts that agree in all else are shown alike.
  pub repr_secret :
      (a : Account) (password : Text) (extra_params : List Text)
      → is_empty password ≡ is_empty a.password
      → repr (record a { password = password; extra_params = extra_params }) ≡ repr a
  unfolding repr masked
  repr_secret a password extra_params same =
      ap
        (λ (b : Bool).
          codes "Account(user="
          ++ (shown a.user
              ++ (codes ", domain="
                  ++ (shown a.domain
                      ++ (codes ", password="
                          ++ (shown (if b then [] else codes "***") ++ shown_public a))))))
        same
