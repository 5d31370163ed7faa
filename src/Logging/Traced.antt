-- ===== src/Logging/Traced.antt =====
-- Histories of `trace` and `untrace` of src/baresip/logging_utils.py, and what then passes.
use baresip_python.Base.{
  ◌≡◌, refl, sym, ◌∙◌, ap, Bool, true, false, ◌||◌, Option, none, some, List, [], ◌∷◌, Text,
  text_eq, eq_of_text_eq, text_eq_refl, if◌then◌else◌, any, ltb, arith, Bool-cases, inl, inr,
  ==_refl,
}
use baresip_python.Logging.{
  CallId, handle, text, same_id, LogRecord, debug, trace, untrace, is_traced, filter,
}

pub data Change : Type 0 where
  traces untraces : CallId → Change

-- The set after a history, whose last change stands first.
unfoldable pub traced_by : List Change → List CallId
unfolding trace untrace
traced_by [] = []
traced_by (Change.traces id ∷ history) = trace id (traced_by history)
traced_by (Change.untraces id ∷ history) = untrace id (traced_by history)

-- The last change that names the call decides.
abbrev pub last_is_trace : List Change → CallId → Bool
unfolding same_id
last_is_trace [] id = false
last_is_trace (Change.traces x ∷ history) id =
    let rest = last_is_trace history id in if same_id id x then true else rest
last_is_trace (Change.untraces x ∷ history) id =
    let rest = last_is_trace history id in if same_id id x then false else rest

abbrev pub of_history : List Change → Option CallId → Bool
of_history history none = false
of_history history (some id) = last_is_trace history id

same_id-eq : (a b : CallId) → same_id a b ≡ true → a ≡ b
unfolding same_id
same_id-eq (handle m) (handle n) h = ap handle (ground arith)
same_id-eq (text s) (text t) h = ap text (eq_of_text_eq s t h)
same_id-eq (handle m) (text t) h = absurd (ground arith)
same_id-eq (text s) (handle n) h = absurd (ground arith)

same_id_refl : (a : CallId) → same_id a a ≡ true
unfolding same_id
same_id_refl (handle n) = ==_refl n
same_id_refl (text s) = text_eq_refl s

text_eq_sym : (s t : Text) → text_eq s t ≡ text_eq t s
unfolding text_eq
text_eq_sym [] [] = refl
text_eq_sym [] (y ∷ t) = refl
text_eq_sym (x ∷ s) [] = refl
text_eq_sym (x ∷ s) (y ∷ t) = ground (arith, text_eq_sym s t)

same_id_sym : (a b : CallId) → same_id a b ≡ same_id b a
unfolding same_id
same_id_sym (handle m) (handle n) = ground arith
same_id_sym (handle m) (text t) = refl
same_id_sym (text s) (handle n) = refl
same_id_sym (text s) (text t) = text_eq_sym s t

-- Equal names are found in the same sets.
any-same :
    (a b : CallId) (xs : List CallId) → same_id a b ≡ true → any (same_id a) xs ≡ any (same_id b) xs
any-same a b xs h = ap (λ (x : CallId). any (same_id x) xs) (same_id-eq a b h)

IsOnce : List CallId → Type 0
IsOnce [] = Unit
IsOnce (x ∷ xs) = (any (same_id x) xs ≡ false) × IsOnce xs

any-trace :
    (id x : CallId) (xs : List CallId)
    → any (same_id id) (trace x xs) ≡ (if same_id id x then true else any (same_id id) xs)
unfolding trace
any-trace id x xs = elim (Bool-cases (any (same_id x) xs)) [
  | inr new ↦ rw new (or_if (same_id id x) (any (same_id id) xs))
  | inl known ↦ rw known (elim (Bool-cases (same_id id x)) [
    | inl same ↦ rw same (any-same id x xs same ∙ known)
    | inr other ↦ rw other refl
  ])
]
  where
    or_if : (a b : Bool) → (a || b) ≡ (if a then true else b)
    or_if true b = refl
    or_if false b = refl

any-untrace_other :
    (id x : CallId) (xs : List CallId)
    → same_id id x ≡ false
    → any (same_id id) (untrace x xs) ≡ any (same_id id) xs
unfolding untrace
any-untrace_other id x [] h = refl
any-untrace_other id x (y ∷ xs) h = elim (Bool-cases (same_id x y)) [
  | inr miss ↦ rw miss (ap (λ (b : Bool). same_id id y || b) (any-untrace_other id x xs h))
  | inl hit ↦ rw hit (
      sym (
        ap (λ (b : Bool). b || any (same_id id) xs)
          (ap (λ (z : CallId). same_id id z) (sym (same_id-eq x y hit)) ∙ h)))
]

any-untrace_same :
    (x : CallId) (xs : List CallId) → IsOnce xs → any (same_id x) (untrace x xs) ≡ false
unfolding untrace IsOnce
any-untrace_same x [] once = refl
any-untrace_same x (y ∷ xs) once = elim (Bool-cases (same_id x y)) [
  | inl hit ↦ rw hit (any-same x y xs hit ∙ once.0)
  | inr miss ↦ rw (miss, miss) (any-untrace_same x xs once.1)
]

any-untrace :
    (id x : CallId) (xs : List CallId)
    → IsOnce xs
    → any (same_id id) (untrace x xs) ≡ (if same_id id x then false else any (same_id id) xs)
any-untrace id x xs once = elim (Bool-cases (same_id id x)) [
  | inl same ↦ rw same (any-same id x (untrace x xs) same ∙ any-untrace_same x xs once)
  | inr other ↦ rw other (any-untrace_other id x xs other)
]

untrace-absent :
    (id x : CallId) (xs : List CallId)
    → any (same_id id) xs ≡ false
    → any (same_id id) (untrace x xs) ≡ false
unfolding untrace
untrace-absent id x [] h = refl
untrace-absent id x (y ∷ xs) h = elim (Bool-cases (same_id x y)) [
  | inl hit ↦ rw hit (ground arith)
  | inr miss ↦ rw miss (ground (arith, untrace-absent id x xs))
]

untrace-IsOnce : (x : CallId) (xs : List CallId) → IsOnce xs → IsOnce (untrace x xs)
unfolding untrace IsOnce
untrace-IsOnce x [] once = tt
untrace-IsOnce x (y ∷ xs) once = elim (Bool-cases (same_id x y)) [
  | inl hit ↦ rw hit once.1
  | inr miss ↦ rw miss (untrace-absent y x xs once.0, untrace-IsOnce x xs once.1)
]

trace-IsOnce : (x : CallId) (xs : List CallId) → IsOnce xs → IsOnce (trace x xs)
unfolding trace IsOnce
trace-IsOnce x xs once = elim (Bool-cases (any (same_id x) xs)) [
  | inl known ↦ rw known once
  | inr new ↦ rw new (new, once)
]

traced_by-IsOnce : (history : List Change) → IsOnce (traced_by history)
unfolding traced_by IsOnce
traced_by-IsOnce [] = tt
traced_by-IsOnce (Change.traces x ∷ history) =
    trace-IsOnce x (traced_by history) (traced_by-IsOnce history)
traced_by-IsOnce (Change.untraces x ∷ history) =
    untrace-IsOnce x (traced_by history) (traced_by-IsOnce history)

any-traced_by :
    (history : List Change) (id : CallId)
    → any (same_id id) (traced_by history) ≡ last_is_trace history id
unfolding traced_by
any-traced_by [] id = refl
any-traced_by (Change.traces x ∷ history) id =
    any-trace id x (traced_by history)
    ∙ ap (λ (b : Bool). if same_id id x then true else b) (any-traced_by history id)
any-traced_by (Change.untraces x ∷ history) id =
    any-untrace id x (traced_by history) (traced_by-IsOnce history)
    ∙ ap (λ (b : Bool). if same_id id x then false else b) (any-traced_by history id)

is_traced-of_history :
    (history : List Change) (id : Option CallId)
    → is_traced (traced_by history) id ≡ of_history history id
unfolding is_traced
is_traced-of_history history none = refl
is_traced-of_history history (some id) = any-traced_by history id

-- After any calls of `trace` and `untrace`, a record passes exactly if it is above DEBUG or the last
-- call that names its `call` or its `sip_call_id` was a `trace`.
pub filter-traced_by :
    (history : List Change) (r : LogRecord)
    → filter (traced_by history) r
      ≡ (ltb debug r.levelno || (of_history history r.call || of_history history r.sip_call_id))
unfolding filter
filter-traced_by history r =
    rw (is_traced-of_history history r.call, is_traced-of_history history r.sip_call_id)
      (or_if (ltb debug r.levelno) _)
  where
    or_if : (a b : Bool) → (if a then true else b) ≡ (a || b)
    or_if true b = refl
    or_if false b = refl
