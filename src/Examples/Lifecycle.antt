-- ===== src/Examples/Lifecycle.antt =====
-- A process on concrete inputs.
use baresip_python.Base.{ℕ, ◌≡◌, ◌≢◌, refl, true, none}
use baresip_python.Runtime.Lifecycle.{
  Process, fresh_process, start_error, launch, come_up, launches, comes_up, Lives, at_once,
  then_moves,
}
use baresip_python.Runtime.Lifecycle.Single.{is_alive, Lives-one}

-- The runtime 0 is up.
abbrev one_up : Process
one_up = come_up 0 (launch 0 fresh_process)

one_up-Lives : Lives fresh_process one_up
unfolding start_error launch
one_up-Lives = then_moves (then_moves at_once (launches 0 refl)) (comes_up 0 refl refl)

Lives-one_example :
    (is_alive (one_up.lives 1) ≡ true → ◌≡◌ {A = ℕ} 0 1) × (start_error one_up 1 ≢ none)
unfolding come_up launch
Lives-one_example = Lives-one 0 1 one_up-Lives refl
