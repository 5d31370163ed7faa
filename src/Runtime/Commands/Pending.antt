-- ===== src/Runtime/Commands/Pending.antt =====
-- Lemmas on the table `_pending` and on the outcomes of the calls, src/baresip/runtime.py.
use baresip_python.Base.{
  ℕ, ◌≤◌, ◌<◌, ◌≡◌, refl, ◌∙◌, ◌≢◌, true, false, none, some, List, [], ◌∷◌, ◌++◌, inl, inr, ◌==◌,
  contains, contains-append, IsDistinct, All, arith, Bool-cases,
}
use baresip_python.Errors.{Error}
use baresip_python.Runtime.Sequence.{seq_mod}
use baresip_python.Runtime.Commands.{Outcome, keys, find, remove, settle, fail_calls}

abbrev pub calls : List (ℕ × ℕ) → List ℕ
calls [] = []
calls ((k, c) ∷ rest) = c ∷ calls rest

abbrev pub InRange : ℕ → Type 0
InRange k = (1 ≤ k) × (k < seq_mod)

pub keys-append : (p : List (ℕ × ℕ)) (k c : ℕ) → keys (p ++ (k, c) ∷ []) ≡ keys p ++ k ∷ []
keys-append [] k c = refl
keys-append ((j, d) ∷ p) k c = rw (keys-append p k c)

pub calls-append : (p : List (ℕ × ℕ)) (k c : ℕ) → calls (p ++ (k, c) ∷ []) ≡ calls p ++ c ∷ []
calls-append [] k c = refl
calls-append ((j, d) ∷ p) k c = rw (calls-append p k c)

pub append-IsDistinct :
    (xs : List ℕ) (x : ℕ) → IsDistinct xs → contains x xs ≡ false → IsDistinct (xs ++ x ∷ [])
append-IsDistinct [] x d h = (refl, tt)
append-IsDistinct (y ∷ xs) x d h =
    (ground (arith, contains-append y xs (x ∷ [])), append-IsDistinct xs x d.1 (ground arith))

pub keys-remove :
    (seq k : ℕ) (p : List (ℕ × ℕ))
    → contains k (keys p) ≡ false
    → contains k (keys (remove seq p)) ≡ false
unfolding remove
keys-remove seq k [] h = refl
keys-remove seq k ((j, d) ∷ p) h = ground (arith, keys-remove seq k p)

pub remove-IsDistinct :
    (seq : ℕ) (p : List (ℕ × ℕ)) → IsDistinct (keys p) → IsDistinct (keys (remove seq p))
unfolding remove
remove-IsDistinct seq [] d = tt
remove-IsDistinct seq ((j, c) ∷ p) d = elim (Bool-cases (j == seq)) [
  | inl hit ↦ rw hit d.1
  | inr miss ↦ rw miss (keys-remove seq j p d.0, remove-IsDistinct seq p d.1)
]

pub remove-InRange :
    (seq : ℕ) (p : List (ℕ × ℕ)) → All InRange (keys p) → All InRange (keys (remove seq p))
unfolding remove
remove-InRange seq [] a = tt
remove-InRange seq ((j, c) ∷ p) a = elim (Bool-cases (j == seq)) [
  | inl hit ↦ rw hit a.1
  | inr miss ↦ rw miss (a.0, remove-InRange seq p a.1)
]

-- Only the call that `find` names may lose its registration.
pub calls-remove :
    (seq c d : ℕ) (p : List (ℕ × ℕ))
    → find seq p ≡ some d
    → c ≢ d
    → contains c (calls p) ≡ true
    → contains c (calls (remove seq p)) ≡ true
unfolding find remove
calls-remove seq c d [] e ne h = cc
calls-remove seq c d ((j, x) ∷ p) e ne h = ground (arith, calls-remove seq c d p)

pub remove_missing : (seq : ℕ) (p : List (ℕ × ℕ)) → find seq p ≡ none → remove seq p ≡ p
unfolding find remove
remove_missing seq [] e = refl
remove_missing seq ((j, x) ∷ p) e = ground (arith, remove_missing seq p)

pub settle-waiting :
    (call c : ℕ) (value : Outcome) (outcomes : ℕ → Outcome)
    → value ≢ Outcome.waiting
    → settle call value outcomes c ≡ Outcome.waiting
    → (call ≢ c) × (outcomes c ≡ Outcome.waiting)
unfolding settle
settle-waiting call c value outcomes ne h = ground arith

pub settle-done :
    (call c : ℕ) (value : Outcome) (outcomes : ℕ → Outcome)
    → outcomes c ≢ Outcome.waiting
    → settle call value outcomes c ≡ outcomes c
unfolding settle
settle-done call c value outcomes ne = ground arith

pub fail_calls-done :
    (p : List (ℕ × ℕ)) (e : Error) (outcomes : ℕ → Outcome) (c : ℕ)
    → outcomes c ≢ Outcome.waiting
    → fail_calls p e outcomes c ≡ outcomes c
fail_calls-done [] e outcomes c ne = refl
fail_calls-done ((k, d) ∷ p) e outcomes c ne =
    let same = settle-done d c (Outcome.raised e) outcomes ne in
    fail_calls-done p e (settle d (Outcome.raised e) outcomes) c (rw same ne) ∙ same

pub fail_calls-unregistered :
    (p : List (ℕ × ℕ)) (e : Error) (outcomes : ℕ → Outcome) (c : ℕ)
    → fail_calls p e outcomes c ≡ Outcome.waiting
    → (outcomes c ≡ Outcome.waiting) × (contains c (calls p) ≡ false)
fail_calls-unregistered [] e outcomes c w = (w, refl)
fail_calls-unregistered ((k, d) ∷ p) e outcomes c w =
    let later = fail_calls-unregistered p e (settle d (Outcome.raised e) outcomes) c w in
    let left = settle-waiting d c (Outcome.raised e) outcomes (λ x. cc) later.0 in
    (left.1, ground arith)

-- A call that waits after the failure waited before, and was not registered.
pub fail_calls-waiting :
    (p : List (ℕ × ℕ)) (e : Error) (outcomes : ℕ → Outcome) (c : ℕ)
    → fail_calls p e outcomes c ≡ Outcome.waiting
    → (outcomes c ≡ Outcome.waiting → contains c (calls p) ≡ true)
    → ⊥
fail_calls-waiting p e outcomes c w known =
    let before = fail_calls-unregistered p e outcomes c w in cc (known before.0, before.1)
