-- ===== src/Errors/Status.antt =====
-- Status lines taken apart, src/baresip/errors.py.
use baresip_python.Base.{
  ℕ, zero, suc, ◌+◌, ◌/◌, ◌%◌, ◌≤◌, ◌<◌, ◌≡◌, refl, sym, ◌∙◌, ap, Bool, true, false, not, ◌&&◌,
  none, some, [], ◌∷◌, ◌++◌, Text, before, after, is_digit, int_of, length, length-append, all,
  ◌==◌, if◌then◌else◌, if_true, if_false, decimal, digits, decimal-all, int_of-decimal, arith,
  text_eq, eq_of_text_eq, Bool-cases, inl, inr, codes,
}
use baresip_python.Errors.{
  Error, ok, err, passes_isdigit, split_status, transfer_success, of_status, with_status,
  from_close_reason,
}

abbrev unspaced : ℕ → Bool
unspaced c = not (c == b' ')

before-append : (s t : Text) → all unspaced s ≡ true → before b' ' (s ++ b' ' ∷ t) ≡ s
unfolding before
before-append [] t h = refl
before-append (c ∷ s) t h = ground (arith, before-append s t)

after-append : (s t : Text) → all unspaced s ≡ true → after b' ' (s ++ b' ' ∷ t) ≡ t
unfolding after
after-append [] t h = refl
after-append (c ∷ s) t h = ground (arith, after-append s t)

length-digits_one : (f n : ℕ) → n < 10 → length (digits (suc f) n) ≡ 1
unfolding digits
length-digits_one f n h = ground arith

length-digits_more :
    (f n : ℕ) → 10 ≤ n → length (digits (suc f) n) ≡ suc (length (digits f (n / 10)))
unfolding digits
length-digits_more f n h = ground (arith, length-append (digits f (n / 10)) ((b'0' + n % 10) ∷ []))

length-decimal_three : (n : ℕ) → 100 ≤ n → n < 1000 → length (decimal n) ≡ 3
unfolding decimal
length-decimal_three (suc (suc (suc n))) low high =
    let m = suc (suc (suc n)) in
    length-digits_more m m (omega arith)
    ∙ ap suc (
        length-digits_more (suc (suc n)) (m / 10) (omega arith)
        ∙ ap suc (length-digits_one (suc n) (m / 10 / 10) (omega arith)))
length-decimal_three zero low high = absurd (omega arith)
length-decimal_three (suc zero) low high = absurd (omega arith)
length-decimal_three (suc (suc zero)) low high = absurd (omega arith)

unspaced-decimal : (n : ℕ) → all unspaced (decimal n) ≡ true
unspaced-decimal = decimal-all unspaced (λ d h. ground arith)

is_digit-decimal : (n : ℕ) → all is_digit (decimal n) ≡ true
unfolding is_digit
is_digit-decimal = decimal-all is_digit (λ d h. ground arith)

split_status-decimal :
    (status : ℕ) (reason : Text)
    → 100 ≤ status
    → status < 1000
    → split_status (decimal status ++ b' ' ∷ reason) ≡ ok (some status, reason)
unfolding split_status
split_status-decimal status reason low high =
    let text = decimal status ++ b' ' ∷ reason in
    let head = before-append (decimal status) reason (unspaced-decimal status) in
    let tail = after-append (decimal status) reason (unspaced-decimal status) in
    let size = length-decimal_three status low high in
    let digits_only = is_digit-decimal status in
    let test : ((length (decimal status) == 3) && all is_digit (decimal status)) ≡ true =
      ground arith in
    ap
      (λ (h : Text).
        if (length h == 3) && all is_digit h
        then ok (some (int_of h 0), after b' ' text)
        else if (length h == 3) && all passes_isdigit h
        then err Error.value_error
        else ok (none, text))
      head
    ∙ if_true _ _ _ test
    ∙ ap (λ (n : ℕ). ok (some n, after b' ' text)) (int_of-decimal status)
    ∙ ap (λ (t : Text). ok (some status, t)) tail

not_transferred :
    (status : ℕ) (reason : Text)
    → 100 ≤ status
    → status < 1000
    → text_eq (decimal status ++ b' ' ∷ reason) transfer_success ≡ false
unfolding before
not_transferred status reason low high =
    elim (Bool-cases (text_eq (decimal status ++ b' ' ∷ reason) transfer_success)) [
      | inr other ↦ other
      | inl same ↦
          let called : decimal status ≡ codes "Call" =
            sym (before-append (decimal status) reason (unspaced-decimal status))
            ∙ ap (before b' ') (eq_of_text_eq _ _ same) in
          let four = ap length called in
          let three = length-decimal_three status low high in absurd (ground arith)
    ]

-- A call that the far end ended with a status line, a status of three digits and a reason, fails
-- with both of them: as CallBusy for 486, as CallDeclined for 603 and as CallFailed otherwise.
pub from_close_reason-decimal :
    (status : ℕ) (reason : Text)
    → 100 ≤ status
    → status < 1000
    → from_close_reason (decimal status ++ b' ' ∷ reason)
      ≡ ok (
          if status == 486
          then Error.call_busy (some status) reason
          else if status == 603
          then Error.call_declined (some status) reason
          else Error.call_failed (some status) reason)
unfolding from_close_reason of_status
from_close_reason-decimal status reason low high =
    if_false _ _ _ (not_transferred status reason low high)
    ∙ ap (with_status of_status) (split_status-decimal status reason low high)
