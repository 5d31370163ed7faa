-- ===== src/Runtime/Commands/Settling.antt =====
-- Runs of the command half of src/baresip/runtime.py without an end, in which the timers of
-- `wait_for` fire.
use baresip_python.Base.{ℕ, zero, suc, ◌+◌, ◌≤◌, ◌<◌, ◌≡◌, sym, ◌≢◌, arith, subst}
use baresip_python.Runtime.Commands.{Outcome, Runtime, settle, expire}
use baresip_python.Runtime.Commands.Steps.{Step, Reach, here, next}
use baresip_python.Runtime.Commands.Delivery.{Step_counts, Reach-settled}

-- The run from its state `n` on reaches each later one.
later :
    (run : ℕ → Runtime)
    → ((i : ℕ) → Step (run i) (run (suc i)))
    → (n k : ℕ) → Reach (run n) (run (n + k))
later run steps n zero = subst (λ (i : ℕ). Reach (run n) (run i)) (omega arith) here
later run steps n (suc k) =
    subst (λ (i : ℕ). Reach (run n) (run i)) (omega arith)
      (next (later run steps n k) (steps (n + k)))

later_counts :
    (run : ℕ → Runtime)
    → ((i : ℕ) → Step (run i) (run (suc i)))
    → (n k : ℕ) → (run n).next_call ≤ (run (n + k)).next_call
later_counts run steps n zero =
    subst (λ (i : ℕ). (run n).next_call ≤ (run i).next_call) {x = n} (omega arith) (omega arith)
later_counts run steps n (suc k) =
    subst (λ (i : ℕ). (run n).next_call ≤ (run i).next_call) {x = suc (n + k)} (omega arith)
      (omega (arith, later_counts run steps n k, Step_counts (steps (n + k))))

expire_over : (r : Runtime) (call : ℕ) → (expire r call).outcomes call ≢ Outcome.waiting
unfolding expire settle
expire_over r call w = ground arith

-- In a run without an end from any state, a call of `cmd` that has been issued and whose timer
-- fires at some later time ends: there is a time from which on its outcome is never `waiting` and
-- never changes, whatever the stack answers and in whatever order.
pub expire-settles :
    (run : ℕ → Runtime) (c n k : ℕ)
    → ((i : ℕ) → Step (run i) (run (suc i)))
    → c < (run n).next_call
    → run (suc (n + k)) ≡ expire (run (n + k)) c
    → (m : ℕ) × (o : Outcome) × (o ≢ Outcome.waiting) × ((j : ℕ) → (run (m + j)).outcomes c ≡ o)
expire-settles run c n k steps issued fires =
    let over : (run (suc (n + k))).outcomes c ≢ Outcome.waiting =
      subst (λ (r : Runtime). r.outcomes c ≢ Outcome.waiting) (sym fires)
        (expire_over (run (n + k)) c) in
    let known : c < (run (suc (n + k))).next_call =
      omega (arith, later_counts run steps n k, Step_counts (steps (n + k))) in
    (
      suc (n + k),
      (run (suc (n + k))).outcomes c,
      over,
      (λ j. (Reach-settled c (later run steps (suc (n + k)) j) known over).1),
    )
