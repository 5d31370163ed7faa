-- ===== src/Account.antt =====
-- `Account` of src/baresip/config.py: its validation and the line that it is rendered to.
pub mod Line
pub mod Secret
pub mod Shown
use baresip_python.Base.{
  ℕ, zero, suc, Bool, true, false, not, ◌&&◌, ◌||◌, Option, none, some, List, [], ◌∷◌, ◌++◌, any,
  all, contains, Text, codes, text_eq, starts_with, ◌==◌, ltb, if◌then◌else◌, decimal,
}
use baresip_python.Errors.{Error, Result, ok, err}
use baresip_python.Events.{ℤ, pos, negsuc}

-- The types of the fields are those that `__post_init__` insists on.
pub record Account : Type 0 where
  pub user : Text
  pub domain : Text
  pub password : Text
  pub registrar : Option Text
  pub reg_interval : ℤ
  pub transport : Text
  pub audio_codecs : List Text
  pub dtmf_mode : Text
  pub auth_user : Option Text
  pub extra_params : List Text

abbrev pub floor : Bool → ℕ
floor true = 32
floor false = 33

unfoldable pub is_rejected : Text → Bool → ℕ → Bool
is_rejected deny allow_space c = ltb c (floor allow_space) || ((c == 127) || contains c deny)

-- `_reject_chars` raises.
unfoldable pub reject_chars : Text → Bool → Text → Bool
unfolding is_rejected
reject_chars deny allow_space value = any (is_rejected deny allow_space) value

abbrev pub is_empty : Text → Bool
is_empty [] = true
is_empty (c ∷ s) = false

-- A field that may not be empty and whose characters are checked.
unfoldable pub is_fine : Text → Bool → Text → Bool
unfolding reject_chars
is_fine deny allow_space value = not (is_empty value) && not (reject_chars deny allow_space value)

abbrev pub is_fine_if_given : Text → Option Text → Bool
is_fine_if_given deny none = true
is_fine_if_given deny (some value) = is_fine deny false value

abbrev pub is_one_of : List Text → Text → Bool
is_one_of options value = any (text_eq value) options

abbrev pub transports : List Text
transports = codes "udp" ∷ codes "tcp" ∷ codes "tls" ∷ []

abbrev pub dtmf_modes : List Text
dtmf_modes = codes "rtpevent" ∷ codes "info" ∷ codes "auto" ∷ []

abbrev pub is_natural : ℤ → Bool
is_natural (pos n) = true
is_natural (negsuc n) = false

-- '@:;<>"?' and the other sets of characters that the fields may not have.
abbrev pub user_deny : Text
user_deny = b'@' ∷ b':' ∷ b';' ∷ b'<' ∷ b'>' ∷ 34 ∷ b'?' ∷ []

abbrev pub domain_deny : Text
domain_deny = b'@' ∷ b';' ∷ b'<' ∷ b'>' ∷ 34 ∷ b'?' ∷ []

abbrev pub password_deny : Text
password_deny = 34 ∷ 92 ∷ []

abbrev pub registrar_deny : Text
registrar_deny = 34 ∷ 92 ∷ b'<' ∷ b'>' ∷ []

abbrev pub codec_deny : Text
codec_deny = b',' ∷ b';' ∷ 34 ∷ []

abbrev pub auth_user_deny : Text
auth_user_deny = b';' ∷ b'<' ∷ b'>' ∷ 34 ∷ 92 ∷ []

unfoldable pub is_valid : Account → Bool
unfolding is_fine reject_chars
is_valid a =
    is_fine user_deny false a.user
    && (is_fine domain_deny false a.domain
        && (not (reject_chars password_deny true a.password)
            && (is_fine_if_given registrar_deny a.registrar
                && (is_natural a.reg_interval
                    && (is_one_of transports a.transport
                        && (all (is_fine codec_deny false) a.audio_codecs
                            && (is_one_of dtmf_modes a.dtmf_mode
                                && (is_fine_if_given auth_user_deny a.auth_user
                                    && all (is_fine [] true) a.extra_params))))))))

-- `__post_init__`
unfoldable pub post_init : Account → Result Account
unfolding is_valid
post_init a = if is_valid a then ok a else err Error.value_error

abbrev pub integer : ℤ → Text
integer (pos n) = decimal n
integer (negsuc n) = b'-' ∷ decimal (suc n)

-- `sep.join(…)`
unfoldable pub join : ℕ → List Text → Text
join sep [] = []
join sep (x ∷ []) = x
join sep (x ∷ (y ∷ rest)) = x ++ sep ∷ join sep (y ∷ rest)

abbrev pub auth_pass_param : Text → List Text
auth_pass_param [] = []
auth_pass_param (c ∷ s) = (codes "auth_pass=" ++ 34 ∷ ((c ∷ s) ++ 34 ∷ [])) ∷ []

abbrev pub auth_user_param : Option Text → List Text
auth_user_param none = []
auth_user_param (some name) = (codes "auth_user=" ++ name) ∷ []

unfoldable pub codecs_param : List Text → List Text
unfolding join
codecs_param [] = []
codecs_param (x ∷ xs) = (codes "audio_codecs=" ++ join b',' (x ∷ xs)) ∷ []

abbrev pub outbound_uri : Text → Text
outbound_uri uri =
    if starts_with uri (codes "sip:") || starts_with uri (codes "sips:")
    then uri
    else codes "sip:" ++ uri

abbrev pub outbound_param : Option Text → List Text
outbound_param none = []
outbound_param (some uri) = (codes "outbound=" ++ 34 ∷ (outbound_uri uri ++ 34 ∷ [])) ∷ []

unfoldable pub params_of : Account → List Text
unfolding codecs_param
params_of a =
    auth_pass_param a.password
    ++ (auth_user_param a.auth_user
        ++ ((codes "regint=" ++ integer a.reg_interval)
            ∷ (codes "answermode=manual"
                ∷ (codecs_param a.audio_codecs
                    ++ ((codes "dtmfmode=" ++ a.dtmf_mode)
                        ∷ (outbound_param a.registrar ++ a.extra_params))))))

-- `aor`
unfoldable pub aor : Account → Text
unfolding params_of join
aor a =
    codes "<sip:"
    ++ (a.user
        ++ b'@'
          ∷ (a.domain
              ++ (codes ";transport=" ++ (a.transport ++ (codes ">;" ++ join b';' (params_of a))))))
