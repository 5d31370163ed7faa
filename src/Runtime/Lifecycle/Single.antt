-- ===== src/Runtime/Lifecycle/Single.antt =====
-- The SIP threads of one process, src/baresip/runtime.py.
use baresip_python.Base.{
  ℕ, ◌≡◌, refl, sym, ◌∙◌, ap, subst, Bool, true, false, ◌||◌, none, some, ◌⊎◌, inl, inr, ◌==◌,
  if_true, if_false, Bool-cases, Option-cases, ◌≢◌, arith,
}
use baresip_python.Runtime.Commands.{State}
use baresip_python.Runtime.Lifecycle.{
  Thread, Life, Process, fresh_process, put, start_error, launch, launch_failed, come_up, started,
  start_undone, start_wedged, begin_close, finish_close, close_wedged, loop_fails, loop_stops,
  loop_dies, is_closing, loop_ends, Move, launches, fails_to_launch, fails_to_init, comes_up,
  starts, undoes, wedges_start, begins_close, finishes_close, wedges_close, ends, Lives, at_once,
  then_moves,
}

abbrev pub is_up_thread : Thread → Bool
is_up_thread Thread.unborn = false
is_up_thread Thread.alive = true
is_up_thread Thread.ended = false

abbrev pub is_alive : Life → Bool
is_alive l = is_up_thread l.thread

abbrev is_up : State → Bool
is_up State.running = true
is_up State.closing = true
is_up _ = false

abbrev is_busy : Life → Bool
is_busy l = l.starting || is_up l.state

-- The runtime `i` holds the process, or the process takes no other.
abbrev Owns : Process → ℕ → Type 0
Owns p i = (p.active ≡ some i) ⊎ (p.poisoned ≡ true)

record IsSingle (p : Process) : Type 0 where
  alive : (i : ℕ) → is_alive (p.lives i) ≡ true → Owns p i
  busy : (i : ℕ) → is_busy (p.lives i) ≡ true → Owns p i
  one : (i j : ℕ) → is_alive (p.lives i) ≡ true → is_alive (p.lives j) ≡ true → i ≡ j

-- A test of a life that passes behind a write to `i` passed before it, where the write allows.
put-test :
    (test : Life → Bool) (i j : ℕ) (l : Life) (lives : ℕ → Life)
    → (test l ≡ true → test (lives i) ≡ true)
    → test (put i l lives j) ≡ true
    → test (lives j) ≡ true
put-test test i j l lives h e = elim (Bool-cases (i == j)) [
  | inl same ↦
      let here : i ≡ j = ground arith in
      subst (λ k. test (lives k) ≡ true) here
        (h (subst (λ m. test m ≡ true) (if_true (i == j) l (lives j) same) e))
  | inr other ↦ subst (λ m. test m ≡ true) (if_false (i == j) l (lives j) other) e
]

put-other :
    (test : Life → Bool) (i j : ℕ) (l : Life) (lives : ℕ → Life)
    → test l ≡ false
    → test (put i l lives j) ≡ true
    → ((i == j) ≡ false) × (test (lives j) ≡ true)
put-other test i j l lives fails e = elim (Bool-cases (i == j)) [
  | inl same ↦
      let yes : test l ≡ true = subst (λ m. test m ≡ true) (if_true (i == j) l (lives j) same) e in
      absurd (ground arith)
  | inr other ↦ (other, subst (λ m. test m ≡ true) (if_false (i == j) l (lives j) other) e)
]

Owns-both : (p : Process) (i j : ℕ) → Owns p i → Owns p j → (i == j) ≡ false → p.poisoned ≡ true
Owns-both p i j (inr bad) own other = bad
Owns-both p i j (inl a) (inr bad) other = bad
Owns-both p i j (inl a) (inl b) other =
    let same : some i ≡ some j = sym a ∙ b in absurd (ground arith)

module _ (p : Process) (i : ℕ) (l : Life) (s : IsSingle p) where
  put-one :
      (is_alive l ≡ true → is_alive (p.lives i) ≡ true)
      → (j k : ℕ) → is_alive (put i l p.lives j) ≡ true
      → is_alive (put i l p.lives k) ≡ true
      → j ≡ k
  put-one a j k h e =
      s.one j k (put-test is_alive i j l p.lives a h) (put-test is_alive i k l p.lives a e)

  -- A write that neither revives a thread nor makes a runtime busy.
  quiet-IsSingle :
      (is_alive l ≡ true → is_alive (p.lives i) ≡ true)
      → (is_busy l ≡ true → is_busy (p.lives i) ≡ true)
      → IsSingle (record p { lives = put i l p.lives })
  quiet-IsSingle a b = record {
    alive = λ j h. s.alive j (put-test is_alive i j l p.lives a h);
    busy = λ j h. s.busy j (put-test is_busy i j l p.lives b h);
    one = put-one a;
  }

  poison-IsSingle :
      (is_alive l ≡ true → is_alive (p.lives i) ≡ true)
      → IsSingle (record p { active = none; poisoned = true; lives = put i l p.lives })
  poison-IsSingle a = record { alive = λ j h. inr refl; busy = λ j h. inr refl; one = put-one a }

  -- The holder lets go of the process.
  clear-IsSingle :
      is_busy (p.lives i) ≡ true
      → is_alive l ≡ false
      → is_busy l ≡ false
      → IsSingle (record p { active = none; lives = put i l p.lives })
  clear-IsSingle held dead idle = record {
    alive = λ j h.
        let (other, was) = put-other is_alive i j l p.lives dead h in
        inr (Owns-both p i j (s.busy i held) (s.alive j was) other);
    busy = λ j h.
        let (other, was) = put-other is_busy i j l p.lives idle h in
        inr (Owns-both p i j (s.busy i held) (s.busy j was) other);
    one = put-one (λ h. absurd (ground arith));
  }

start_error-free :
    (p : Process) (i : ℕ) → start_error p i ≡ none → (p.poisoned ≡ false) × (p.active ≡ none)
unfolding start_error
start_error-free p i h = elim (Bool-cases p.poisoned) [
  | inl bad ↦ absurd (ground arith)
  | inr fine ↦ elim (Option-cases p.active) [
    | inl free ↦ (fine, free)
    | inr (j, held) ↦ absurd (ground arith)
  ]
]

free-Owns : (p : Process) (i j : ℕ) → start_error p i ≡ none → Owns p j → ⊥
free-Owns p i j h own =
    let (fine, free) = start_error-free p i h in
    elim own [ inl held ↦ ground arith | inr bad ↦ ground arith ]

-- Only the runtime `i` may be alive or busy once it was let in.
let_in :
    (p : Process) (i : ℕ) (l : Life) (test : Life → Bool)
    → start_error p i ≡ none
    → ((j : ℕ) → test (p.lives j) ≡ true → Owns p j)
    → (j : ℕ) → test (put i l p.lives j) ≡ true
    → i ≡ j
let_in p i l test h owns j e = elim (Bool-cases (i == j)) [
  | inl same ↦ ground arith
  | inr other ↦ absurd (
      free-Owns p i j h
        (owns j (subst (λ m. test m ≡ true) (if_false (i == j) l (p.lives j) other) e)))
]

launch-IsSingle :
    (p : Process) (i : ℕ) → start_error p i ≡ none → IsSingle p → IsSingle (launch i p)
unfolding launch
launch-IsSingle p i h s = record {
  alive = λ j e. inl (ap some (let_in p i _ is_alive h s.alive j e));
  busy = λ j e. inl (ap some (let_in p i _ is_busy h s.busy j e));
  one = λ j k e d. sym (let_in p i _ is_alive h s.alive j e) ∙ let_in p i _ is_alive h s.alive k d;
}

launch_failed-IsSingle :
    (p : Process) (i : ℕ) → start_error p i ≡ none → IsSingle p → IsSingle (launch_failed i p)
unfolding launch_failed
launch_failed-IsSingle p i h s = record {
  alive = λ j e.
      let (other, was) = put-other is_alive i j _ p.lives refl e in
      absurd (free-Owns p i j h (s.alive j was));
  busy = λ j e.
      let (other, was) = put-other is_busy i j _ p.lives refl e in
      absurd (free-Owns p i j h (s.busy j was));
  one = put-one p i _ s (λ e. absurd (ground arith));
}

starting-busy : (l : Life) → l.starting ≡ true → is_busy l ≡ true
starting-busy l h = ground arith

or_true : (b : Bool) → (b || true) ≡ true
or_true true = refl
or_true false = refl

or_false : (b : Bool) → b ≡ false → (b || false) ≡ false
or_false true h = h
or_false false h = refl

state-busy : (l : Life) (st : State) → l.state ≡ st → is_up st ≡ true → is_busy l ≡ true
state-busy l st h up =
    ap (λ x. l.starting || is_up x) h ∙ ap (λ u. l.starting || u) up ∙ or_true l.starting

loop_ends-IsSingle : (p : Process) (i : ℕ) → IsSingle p → IsSingle (loop_ends i p)
unfolding loop_ends loop_stops loop_dies
loop_ends-IsSingle p i s = elim (Bool-cases (is_closing (p.lives i).state)) [
  | inl closing ↦
      subst IsSingle (sym (if_true _ _ _ closing))
        (quiet-IsSingle p i _ s (λ e. absurd (ground arith)) (λ e. e))
  | inr open_ ↦
      subst IsSingle (sym (if_false _ _ _ open_))
        (poison-IsSingle p i _ s (λ e. absurd (ground arith)))
]

Move-IsSingle : {p q : Process} → Move p q → IsSingle p → IsSingle q
unfolding come_up started start_undone start_wedged begin_close finish_close close_wedged loop_fails
Move-IsSingle {p} (launches i h) s = launch-IsSingle p i h s
Move-IsSingle {p} (fails_to_launch i h) s = launch_failed-IsSingle p i h s
Move-IsSingle {p} (fails_to_init i h a) s =
    quiet-IsSingle p i _ s (λ e. absurd (ground arith)) (λ e. e)
Move-IsSingle {p} (comes_up i h ok_) s =
    quiet-IsSingle p i _ s (λ e. e) (λ e. starting-busy (p.lives i) h)
Move-IsSingle {p} (starts i h) s =
    quiet-IsSingle p i _ s (λ e. e) (λ e. starting-busy (p.lives i) h)
Move-IsSingle {p} (undoes i h) s = clear-IsSingle p i _ s (starting-busy (p.lives i) h) refl refl
Move-IsSingle {p} (wedges_start i h a) s = poison-IsSingle p i _ s (λ e. ap is_up_thread a)
Move-IsSingle {p} (begins_close i h r) s =
    quiet-IsSingle p i _ s (λ e. e) (λ e. state-busy (p.lives i) State.running r refl)
Move-IsSingle {p} (finishes_close i b r a) s =
    clear-IsSingle p i _ s (state-busy (p.lives i) State.closing r refl) (ap is_up_thread a)
      (or_false _ b)
Move-IsSingle {p} (wedges_close i r a) s = poison-IsSingle p i _ s (λ e. e)
Move-IsSingle {p} (ends i a) s = loop_ends-IsSingle p i s

fresh-IsSingle : IsSingle fresh_process
fresh-IsSingle = record {
  alive = λ i h. absurd (ground arith);
  busy = λ i h. absurd (ground arith);
  one = λ i j h e. absurd (ground arith);
}

Lives-IsSingle : {q : Process} → Lives fresh_process q → IsSingle q
Lives-IsSingle at_once = fresh-IsSingle
Lives-IsSingle (then_moves h m) = Move-IsSingle m (Lives-IsSingle h)

-- However the starts, the closes and the deaths of the runtimes of a process follow each other, as
-- long as a runtime is closed only when its start has returned: no two SIP threads are up at the
-- same time, and while one is up no runtime is let in.
pub Lives-one :
    {q : Process} (i j : ℕ)
    → Lives fresh_process q
    → is_alive (q.lives i) ≡ true
    → (is_alive (q.lives j) ≡ true → i ≡ j) × (start_error q j ≢ none)
Lives-one {q} i j h up =
    let s = Lives-IsSingle h in (λ e. s.one i j up e, λ free. free-Owns q j i free (s.alive i up))
