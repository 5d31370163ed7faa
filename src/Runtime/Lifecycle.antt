-- ===== src/Runtime/Lifecycle.antt =====
-- The lifecycle half of src/baresip/runtime.py: `start`, `close`, `_re_thread_main` and
-- `_die_on_re_thread` of any number of runtimes of one process, cut where `start` and `close` await.
-- What runs between two awaits is one step, the SIP thread's end is another. Whether the native
-- functions succeed, and whether a thread stops in time, is the choice of a step. All runtimes use
-- one event loop, and a runtime is closed only when its `start` has returned.
pub mod Single
pub mod Death
use baresip_python.Base.{ℕ, ◌≡◌, Bool, true, false, Option, none, some, ◌==◌, if◌then◌else◌}
use baresip_python.Errors.{Error}
use baresip_python.Runtime.Commands.{State}

-- The SIP thread: not started, inside `_re_thread_main`, or behind it.
pub data Thread : Type 0 where
  unborn alive ended : Thread

-- `starting` says that `start` is at its await of the ready signal or behind it, and has not
-- returned; `init_failed`, that `_init_err` is an error.
pub record Life : Type 0 where
  pub state : State
  pub thread : Thread
  pub starting : Bool
  pub init_failed : Bool

-- `active` and `poisoned` are those of the class; the runtimes are numbered.
pub record Process : Type 0 where
  pub active : Option ℕ
  pub poisoned : Bool
  pub lives : ℕ → Life

abbrev pub fresh_life : Life
fresh_life = record {
  state = State.new;
  thread = Thread.unborn;
  starting = false;
  init_failed = false;
}

abbrev pub fresh_process : Process
fresh_process = record { active = none; poisoned = false; lives = λ i. fresh_life }

abbrev pub put : ℕ → Life → (ℕ → Life) → ℕ → Life
put i l lives j = if i == j then l else lives j

-- The guards of `start` under the lock.
unfoldable pub start_error : Process → ℕ → Option Error
start_error p i = if p.poisoned then some Error.runtime_dead else elim p.active [
  | some j ↦ some Error.baresip_error
  | none ↦ elim (p.lives i).state [ State.new ↦ none | _ ↦ some Error.baresip_error ]
]

-- `start` up to its await, with the SIP thread started.
unfoldable pub launch : ℕ → Process → Process
launch i p = record p {
  active = some i;
  lives =
      put i
        (record { state = State.new; thread = Thread.alive; starting = true; init_failed = false })
        p.lives;
}

-- `start` up to an exception in front of the SIP thread's start.
unfoldable pub launch_failed : ℕ → Process → Process
launch_failed i p = record p {
  active = none;
  lives =
      put i
        (record {
          state = State.closed;
          thread = Thread.unborn;
          starting = false;
          init_failed = false;
        })
        p.lives;
}

-- `start` behind the ready signal: the state is set whatever it is, and the commands of `start` are
-- still to come.
unfoldable pub come_up : ℕ → Process → Process
come_up i p = record p { lives = put i (record (p.lives i) { state = State.running }) p.lives }

-- `start` returns.
unfoldable pub started : ℕ → Process → Process
started i p = record p { lives = put i (record (p.lives i) { starting = false }) p.lives }

-- The exception handler of `start`, where the thread stopped.
unfoldable pub start_undone : ℕ → Process → Process
start_undone i p = record p {
  active = none;
  lives =
      put i
        (record {
          state = State.closed;
          thread = Thread.ended;
          starting = false;
          init_failed = false;
        })
        p.lives;
}

-- The exception handler of `start`, where the thread did not stop.
unfoldable pub start_wedged : ℕ → Process → Process
start_wedged i p = record p {
  active = none;
  poisoned = true;
  lives =
      put i
        (record {
          state = State.dead;
          thread = Thread.alive;
          starting = false;
          init_failed = false;
        })
        p.lives;
}

-- `close` up to its first await.
unfoldable pub begin_close : ℕ → Process → Process
begin_close i p = record p { lives = put i (record (p.lives i) { state = State.closing }) p.lives }

-- `close` behind the join of a thread that stopped.
unfoldable pub finish_close : ℕ → Process → Process
finish_close i p = record p {
  active = none;
  lives = put i (record (p.lives i) { state = State.closed }) p.lives;
}

-- `close` behind the join of a thread that did not stop.
unfoldable pub close_wedged : ℕ → Process → Process
close_wedged i p = record p {
  active = none;
  poisoned = true;
  lives = put i (record (p.lives i) { state = State.dead }) p.lives;
}

-- The end of `_re_thread_main` where the stack did not come up.
unfoldable pub loop_fails : ℕ → Process → Process
loop_fails i p = record p {
  lives = put i (record (p.lives i) { thread = Thread.ended; init_failed = true }) p.lives;
}

-- The end of `_re_thread_main` while the runtime is closing or closed, and otherwise, with
-- `_die_on_re_thread`.
unfoldable pub loop_stops : ℕ → Process → Process
loop_stops i p = record p { lives = put i (record (p.lives i) { thread = Thread.ended }) p.lives }

unfoldable pub loop_dies : ℕ → Process → Process
loop_dies i p = record p {
  active = none;
  poisoned = true;
  lives = put i (record (p.lives i) { state = State.dead; thread = Thread.ended }) p.lives;
}

abbrev pub is_closing : State → Bool
is_closing State.closing = true
is_closing State.closed = true
is_closing _ = false

unfoldable pub loop_ends : ℕ → Process → Process
unfolding loop_stops loop_dies
loop_ends i p = if is_closing (p.lives i).state then loop_stops i p else loop_dies i p

-- What one runtime or its SIP thread does.
pub data Move (p : Process) : Process → Type 0 where
  launches : (i : ℕ) → start_error p i ≡ none → Move p (launch i p)
  fails_to_launch : (i : ℕ) → start_error p i ≡ none → Move p (launch_failed i p)
  fails_to_init :
      (i : ℕ)
      → (p.lives i).starting ≡ true
      → (p.lives i).thread ≡ Thread.alive
      → Move p (loop_fails i p)
  comes_up :
      (i : ℕ) → (p.lives i).starting ≡ true → (p.lives i).init_failed ≡ false → Move p (come_up i p)
  starts : (i : ℕ) → (p.lives i).starting ≡ true → Move p (started i p)
  undoes : (i : ℕ) → (p.lives i).starting ≡ true → Move p (start_undone i p)
  wedges_start :
      (i : ℕ)
      → (p.lives i).starting ≡ true
      → (p.lives i).thread ≡ Thread.alive
      → Move p (start_wedged i p)
  begins_close :
      (i : ℕ)
      → (p.lives i).starting ≡ false
      → (p.lives i).state ≡ State.running
      → Move p (begin_close i p)
  finishes_close :
      (i : ℕ)
      → (p.lives i).starting ≡ false
      → (p.lives i).state ≡ State.closing
      → (p.lives i).thread ≡ Thread.ended
      → Move p (finish_close i p)
  wedges_close :
      (i : ℕ)
      → (p.lives i).state ≡ State.closing
      → (p.lives i).thread ≡ Thread.alive
      → Move p (close_wedged i p)
  ends : (i : ℕ) → (p.lives i).thread ≡ Thread.alive → Move p (loop_ends i p)

pub data Lives (p : Process) : Process → Type 0 where
  at_once : Lives p p
  then_moves : {q r : Process} → Lives p q → Move q r → Lives p r
