-- ===== src/Logging.antt =====
-- src/baresip/logging_utils.py: the filter that lets the DEBUG records of single calls pass.
pub mod Traced
use baresip_python.Base.{
  ℕ, Bool, true, false, ◌||◌, Option, none, some, List, [], ◌∷◌, Text, text_eq, ◌==◌, ltb,
  if◌then◌else◌, any,
}

-- The value of an extra field: a call's handle or a text. An `int` of Python is no `str`.
pub data CallId : Type 0 where
  handle : ℕ → CallId
  text : Text → CallId

unfoldable pub same_id : CallId → CallId → Bool
same_id (handle m) (handle n) = m == n
same_id (text s) (text t) = text_eq s t
same_id (handle m) (text t) = false
same_id (text s) (handle n) = false

-- A record with the extra fields `call` and `sip_call_id`, which it may lack.
pub record LogRecord : Type 0 where
  pub levelno : ℕ
  pub call : Option CallId
  pub sip_call_id : Option CallId

-- `logging.DEBUG`
abbrev pub debug : ℕ
debug = 10

-- `_traced`, a set: an entry stands once.
unfoldable pub trace : CallId → List CallId → List CallId
unfolding same_id
trace id traced = if any (same_id id) traced then traced else id ∷ traced

unfoldable pub untrace : CallId → List CallId → List CallId
unfolding same_id
untrace id [] = []
untrace id (x ∷ traced) = if same_id id x then traced else x ∷ untrace id traced

unfoldable pub is_traced : List CallId → Option CallId → Bool
unfolding same_id
is_traced traced none = false
is_traced traced (some value) = any (same_id value) traced

-- `PerCallFilter.filter`
unfoldable pub filter : List CallId → LogRecord → Bool
unfolding is_traced
filter traced r =
    if ltb debug r.levelno then true else is_traced traced r.call || is_traced traced r.sip_call_id
