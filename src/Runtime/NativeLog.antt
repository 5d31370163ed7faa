-- ===== src/Runtime/NativeLog.antt =====
-- `_drain_native_log` and `_emit_native_log` of src/baresip/runtime.py: the lines of the native stack
-- in Python's logging. The records are those that `bp_log_read` gives until it returns false. How
-- bytes are decoded, and for which lines a logging handler raises, are parameters.
pub mod Lines
use baresip_python.Base.{
  ℕ, zero, suc, Bool, true, false, List, [], ◌∷◌, ◌++◌, Text, ◌==◌, if◌then◌else◌,
}

pub record LogRec : Type 0 where
  pub level : ℕ
  pub channel : ℕ
  pub dropped : ℕ
  pub msg : Text

-- A call of a logger: the notice of dropped lines, or a line for `baresip.native.sip` or for
-- `baresip.native` with its level.
pub data Line : Type 0 where
  lines_dropped : ℕ → Line
  native_line : Bool → ℕ → Text → Line

-- BP_LOG_CH_SIP
abbrev pub sip_channel : ℕ
sip_channel = 1

-- `_TO_PYTHON_LEVEL.get(level, logging.INFO)`
unfoldable pub python_level : ℕ → ℕ
python_level level =
    if level == 0
    then 10
    else if level == 1
    then 20
    else if level == 2
    then 30
    else if level == 3
    then 40
    else 20

module _ (decode_text : Text → Text) (raises : Line → Bool) where
  unfoldable pub line_of : LogRec → Line
  unfolding python_level
  line_of rec =
      Line.native_line (rec.channel == sip_channel) (python_level rec.level) (decode_text rec.msg)

  abbrev pub behind_notice : Bool → List Line → List Line
  behind_notice true rest = []
  behind_notice false rest = rest

  -- An exception of a handler ends the delivery of the record, but not the capture.
  unfoldable pub emit_native_log : LogRec → List Line
  unfolding line_of
  emit_native_log rec =
      if rec.dropped == 0
      then line_of rec ∷ []
      else Line.lines_dropped rec.dropped
        ∷ behind_notice (raises (Line.lines_dropped rec.dropped)) (line_of rec ∷ [])

  unfoldable pub drain_native_log : List LogRec → List Line
  unfolding emit_native_log
  drain_native_log [] = []
  drain_native_log (rec ∷ recs) = emit_native_log rec ++ drain_native_log recs
