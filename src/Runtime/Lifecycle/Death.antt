-- ===== src/Runtime/Lifecycle/Death.antt =====
-- The unexpected end of a SIP thread, src/baresip/runtime.py.
use baresip_python.Base.{
  ℕ, ◌≡◌, refl, ◌∙◌, ap, true, false, some, inl, inr, if_true, if_false, Bool-cases,
}
use baresip_python.Errors.{Error}
use baresip_python.Runtime.Lifecycle.{
  Process, start_error, launch, launch_failed, come_up, started, start_undone, start_wedged,
  begin_close, finish_close, close_wedged, loop_fails, loop_stops, loop_dies, is_closing, loop_ends,
  Move, launches, fails_to_launch, fails_to_init, comes_up, starts, undoes, wedges_start,
  begins_close, finishes_close, wedges_close, ends, Lives, at_once, then_moves,
}

Move-poisoned : {p q : Process} → Move p q → p.poisoned ≡ true → q.poisoned ≡ true
unfolding launch launch_failed come_up started start_undone start_wedged begin_close finish_close
    close_wedged loop_fails loop_stops loop_dies loop_ends
Move-poisoned (launches i h) bad = bad
Move-poisoned (fails_to_launch i h) bad = bad
Move-poisoned (fails_to_init i h a) bad = bad
Move-poisoned (comes_up i h k) bad = bad
Move-poisoned (starts i h) bad = bad
Move-poisoned (undoes i h) bad = bad
Move-poisoned (wedges_start i h a) bad = refl
Move-poisoned (begins_close i h r) bad = bad
Move-poisoned (finishes_close i b r a) bad = bad
Move-poisoned (wedges_close i r a) bad = refl
Move-poisoned {p} (ends i a) bad = elim (Bool-cases (is_closing (p.lives i).state)) [
  | inl closing ↦ ap (λ (q : Process). q.poisoned) (if_true _ _ _ closing) ∙ bad
  | inr open_ ↦ ap (λ (q : Process). q.poisoned) (if_false _ _ _ open_)
]

Lives-poisoned : {p q : Process} → Lives p q → p.poisoned ≡ true → q.poisoned ≡ true
Lives-poisoned at_once bad = bad
Lives-poisoned (then_moves h m) bad = Move-poisoned m (Lives-poisoned h bad)

-- When the SIP thread of a runtime that is neither closing nor closed ends, every start of every
-- runtime of the process raises RuntimeDead from then on.
pub start_error_dead :
    (p : Process) {q : Process} (i j : ℕ)
    → is_closing (p.lives i).state ≡ false
    → Lives (loop_ends i p) q
    → start_error q j ≡ some Error.runtime_dead
unfolding start_error loop_ends loop_dies
start_error_dead p {q} i j open_ h =
    let died : (loop_ends i p).poisoned ≡ true =
      ap (λ (r : Process). r.poisoned) (if_false _ _ _ open_) in
    if_true q.poisoned _ _ (Lives-poisoned h died)
