-- ===== src/Runtime/Stopping/First.antt =====
-- The attempts of `_send_stop` of src/baresip/runtime.py.
use baresip_python.Base.{
  ℕ, zero, suc, ◌+◌, ◌≤◌, ◌<◌, ◌≡◌, ◌≢◌, subst, ◌∙◌, ap, ◌⊎◌, inl, inr, Bool-cases, true, ◌==◌,
  if_true, if_false, arith,
}
use baresip_python.Runtime.Commands.{eagain}
use baresip_python.Runtime.Stopping.{Stop, stop_retries, stop_verdict, stop_loop, send_stop}

-- The attempt `n` is the first from `start` on whose answer is not EAGAIN.
abbrev pub IsFirst : (ℕ → ℕ) → ℕ → ℕ → Type 0
IsFirst answers start n = (answers n ≢ eagain) × ((j : ℕ) → start ≤ j → j < n → answers j ≡ eagain)

prepend :
    (answers : ℕ → ℕ) (start bound : ℕ)
    → (answers start == eagain) ≡ true
    → ((j : ℕ) → suc start ≤ j → j < bound → answers j ≡ eagain)
    → (j : ℕ) → start ≤ j
    → j < bound
    → answers j ≡ eagain
prepend answers start bound full later j low high = elim (Bool-cases (j == start)) [
  | inl now ↦ subst (λ (i : ℕ). answers i ≡ eagain) {x = start} (ground arith) (ground arith)
  | inr after_start ↦ later j (ground arith) high
]

stop_loop-IsFirst :
    (tries start : ℕ) (answers : ℕ → ℕ)
    → ((n : ℕ) × (n < start + tries)
        × IsFirst answers start n
        × (stop_loop tries start answers ≡ (stop_verdict (answers n), suc n)))
      ⊎ (((j : ℕ) → start ≤ j → j < start + tries → answers j ≡ eagain)
          × (stop_loop tries start answers ≡ (Stop.stayed_full, start + tries)))
unfolding stop_loop
stop_loop-IsFirst zero start answers =
    inr ((λ j low high. absurd (omega arith)), ap (λ (n : ℕ). (Stop.stayed_full, n)) (omega arith))
stop_loop-IsFirst (suc tries) start answers = elim (Bool-cases (answers start == eagain)) [
  | inr other ↦ inl (
    start,
    omega arith,
    ((λ e. ground arith), (λ j low high. absurd (omega arith))),
    if_false (answers start == eagain) _ _ other,
  )
  | inl full ↦ elim (stop_loop-IsFirst tries (suc start) answers) [
    | inl (n, bound, first, e) ↦ inl (
      n,
      omega arith,
      (first.0, prepend answers start n full first.1),
      if_true (answers start == eagain) _ _ full ∙ e,
    )
    | inr (all_full, e) ↦ inr (
      prepend answers start (start + suc tries) full (λ j low high. all_full j low (omega arith)),
      if_true (answers start == eagain) _ _ full
          ∙ e
          ∙ ap (λ (n : ℕ). (Stop.stayed_full, n)) (omega arith),
    )
  ]
]

-- `_send_stop` ends: with the first answer that is not EAGAIN among a hundred, or, when there is
-- none, after a hundred attempts. No attempt is made after the first one that is answered.
pub send_stop-IsFirst :
    (answers : ℕ → ℕ)
    → ((n : ℕ) × (n < stop_retries)
        × IsFirst answers 0 n
        × (send_stop answers ≡ (stop_verdict (answers n), suc n)))
      ⊎ (((j : ℕ) → 0 ≤ j → j < stop_retries → answers j ≡ eagain)
          × (send_stop answers ≡ (Stop.stayed_full, stop_retries)))
unfolding send_stop
send_stop-IsFirst answers = stop_loop-IsFirst stop_retries 0 answers
