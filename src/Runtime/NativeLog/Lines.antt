-- ===== src/Runtime/NativeLog/Lines.antt =====
-- What the native log of src/baresip/runtime.py hands over.
use baresip_python.Base.{
  ℕ, ◌+◌, ◌≡◌, refl, sym, ap, subst, Bool, false, List, [], ◌∷◌, ◌++◌, Text, map, ◌==◌, if_true,
  if_false, Bool-cases, inl, inr, arith,
}
use baresip_python.Runtime.NativeLog.{
  LogRec, Line, line_of, behind_notice, emit_native_log, drain_native_log,
}

-- The lines of the stack among the calls of the loggers.
abbrev pub native_lines : List Line → List Line
native_lines [] = []
native_lines (Line.lines_dropped n ∷ lines) = native_lines lines
native_lines (Line.native_line sip level text ∷ lines) =
    Line.native_line sip level text ∷ native_lines lines

abbrev pub told_dropped : List Line → ℕ
told_dropped [] = 0
told_dropped (Line.lines_dropped n ∷ lines) = n + told_dropped lines
told_dropped (Line.native_line sip level text ∷ lines) = told_dropped lines

abbrev pub all_dropped : List LogRec → ℕ
all_dropped [] = 0
all_dropped (rec ∷ recs) = rec.dropped + all_dropped recs

module _ (decode_text : Text → Text) (raises : Line → Bool) where
  abbrev emitted : LogRec → List Line
  unfolding emit_native_log
  emitted = emit_native_log decode_text raises

  emitted-cases :
      (P : List Line → Type 0) (rec : LogRec)
      → ((n : ℕ) → raises (Line.lines_dropped n) ≡ false)
      → (rec.dropped ≡ 0 → P (line_of decode_text raises rec ∷ []))
      → P (Line.lines_dropped rec.dropped ∷ line_of decode_text raises rec ∷ [])
      → P (emitted rec)
  unfolding emit_native_log
  emitted-cases P rec calm clean_case noted = elim (Bool-cases (rec.dropped == 0)) [
    | inl e ↦ subst P (sym (if_true (rec.dropped == 0) _ _ e)) (clean_case (ground arith))
    | inr e ↦ subst P (sym (if_false (rec.dropped == 0) _ _ e)) (
        subst
          (λ (b : Bool). P (
            Line.lines_dropped rec.dropped
            ∷ behind_notice decode_text raises b (line_of decode_text raises rec ∷ [])))
          (sym (calm rec.dropped)) noted)
  ]

  -- Where no handler raises on a notice, each record gives one line, in order, with its logger and
  -- its level, and the notices add up to the number of dropped lines.
  pub drain_native_log-line_of :
      (recs : List LogRec)
      → ((n : ℕ) → raises (Line.lines_dropped n) ≡ false)
      → (native_lines (drain_native_log decode_text raises recs)
          ≡ map (line_of decode_text raises) recs)
        × (told_dropped (drain_native_log decode_text raises recs) ≡ all_dropped recs)
  unfolding drain_native_log line_of
  drain_native_log-line_of [] calm = (refl, refl)
  drain_native_log-line_of (rec ∷ recs) calm =
      let (lines, count) = drain_native_log-line_of recs calm in
      emitted-cases
        (λ (ls : List Line).
          (native_lines (ls ++ drain_native_log decode_text raises recs)
            ≡ map (line_of decode_text raises) (rec ∷ recs))
          × (told_dropped (ls ++ drain_native_log decode_text raises recs)
              ≡ all_dropped (rec ∷ recs)))
        rec calm
        (λ e. (ap (λ (ls : List Line). line_of decode_text raises rec ∷ ls) lines, omega arith))
        (ap (λ (ls : List Line). line_of decode_text raises rec ∷ ls) lines, omega arith)
