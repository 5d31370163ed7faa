-- ===== src/UserAgent/Dial/Dialing.antt =====
-- What `dial` sends and what it refuses.
use baresip_python.Base.{
  line_feeds, line_feeds-append, line_feeds-decimal, ℕ, ◌≡◌, refl, sym, ap, true, false, Option,
  none, some, List, [], ◌∷◌, ◌++◌, ◌⊎◌, inl, inr, Text, ◌==◌, any, contains, length, arith,
  Bool-cases, Option-cases, if_true, if_false, subst, decimal,
}
use baresip_python.Errors.{Error, Result, ok, err}
use baresip_python.Call.Transfer.{has_any}
use baresip_python.UserAgent.Dial.{
  VideoOffer, video_number, line_breaks, bad_uri, bad_name, bad_header, finish_dial, dial_with,
  dial,
}
use baresip_python.Wire.{Command, arguments, ua_connect, spaced, header_lines}
use baresip_python.World.{World, command, deliver, allocate}

-- A text that holds none of some characters, line feed among them.
has_any-plain :
    (deny s : Text) → contains 10 deny ≡ true → has_any deny s ≡ false → line_feeds s ≡ 0
has_any-plain deny [] h e = refl
has_any-plain deny (c ∷ s) h e = elim (Bool-cases (c == 10)) [
  | inr other ↦ ground (arith, has_any-plain deny s h)
  | inl feed ↦ let same : c ≡ 10 = ground arith in absurd (clash same)
]
  where
    clash : c ≡ 10 → ⊥
    clash same = let held : contains c deny ≡ true = rw same h in ground arith

line_feeds-uri : (uri : Text) → bad_uri uri ≡ false → line_feeds uri ≡ 0
unfolding bad_uri
line_feeds-uri [] h = refl
line_feeds-uri (c ∷ s) h = has_any-plain line_breaks (c ∷ s) refl h

line_feeds-name : (name : Text) → bad_name name ≡ false → line_feeds name ≡ 0
unfolding bad_name
line_feeds-name [] h = refl
line_feeds-name (c ∷ s) h = has_any-plain (13 ∷ 10 ∷ b':' ∷ b' ' ∷ []) (c ∷ s) refl h

line_feeds-headers :
    (headers : List (Text × Text))
    → any bad_header headers ≡ false
    → line_feeds (header_lines headers) ≡ length headers
unfolding bad_header
line_feeds-headers [] h = refl
line_feeds-headers ((name, value) ∷ rest) h = ground (
  arith,
  line_feeds-append name (b':' ∷ b' ' ∷ (value ++ header_lines rest)),
  line_feeds-append value (header_lines rest),
  line_feeds-name name,
  has_any-plain line_breaks value refl,
  line_feeds-headers rest,
)

abbrev Sends : List (Text × Text) → World → Result ℕ × World → Type 0
Sends headers w x =
    (x.1 ≡ w)
    ⊎ ((c : Command) × (x.1.sent ≡ w.sent ++ c ∷ []) × (line_feeds (arguments c) ≡ length headers))

line_feeds-connect :
    (ua n : ℕ) (uri : Text) (headers : List (Text × Text))
    → bad_uri uri ≡ false
    → any bad_header headers ≡ false
    → line_feeds (arguments (ua_connect ua n uri headers)) ≡ length headers
unfolding arguments
line_feeds-connect ua n uri headers fine good =
    let h1 = line_feeds-append (decimal ua) (b' ' ∷ spaced n (uri ++ header_lines headers)) in
    let h2 = line_feeds-append (decimal n) (b' ' ∷ (uri ++ header_lines headers)) in
    let h3 = line_feeds-append uri (header_lines headers) in
    let h4 = line_feeds-uri uri fine in
    let h5 = line_feeds-headers headers good in
    let h6 = line_feeds-decimal ua in let h7 = line_feeds-decimal n in ground arith

finish_dial-sent :
    (ua : ℕ) (uri : Text) (r : Result (Option ℕ)) (w : World)
    → (finish_dial ua uri r w).1.sent ≡ w.sent
unfolding finish_dial allocate
finish_dial-sent ua uri (err e) w = refl
finish_dial-sent ua uri (ok none) w = refl
finish_dial-sent ua uri (ok (some h)) w = refl

dial_with-Sends :
    (ua : ℕ) (uri : Text) (headers : List (Text × Text)) (n : Option ℕ) (w : World)
    → bad_uri uri ≡ false
    → Sends headers w (dial_with ua uri headers n w)
unfolding dial_with command deliver
dial_with-Sends ua uri headers none w fine = inl refl
dial_with-Sends ua uri headers (some n) w fine = elim (Bool-cases w.draining) [
  | inl draining ↦ inl (ap (λ (x : Result ℕ × World). x.1) (if_true w.draining _ _ draining))
  | inr open_ ↦
      subst (Sends headers w) (sym (if_false w.draining _ _ open_))
        (elim (Bool-cases (any bad_header headers)) [
          | inl bad ↦
              inl (ap (λ (x : Result ℕ × World). x.1) (if_true (any bad_header headers) _ _ bad))
          | inr good ↦ subst (Sends headers w) (sym (if_false (any bad_header headers) _ _ good)) (
              inr (
                ua_connect ua n uri headers,
                finish_dial-sent ua uri _ (command (ua_connect ua n uri headers) w),
                line_feeds-connect ua n uri headers fine good,
              ))
        ])
]

-- What `dial` sends is nothing, or one command whose argument has one line for the URI and one for
-- each header: no URI, name or value can add a header line of its own.
pub dial-sent :
    (ua : ℕ) (uri : Text) (headers : List (Text × Text)) (video : VideoOffer) (w : World)
    → ((dial ua uri headers video w).1 ≡ w)
      ⊎ ((c : Command) × ((dial ua uri headers video w).1.sent ≡ w.sent ++ c ∷ [])
          × (line_feeds (arguments c) ≡ length headers))
unfolding dial
dial-sent ua uri headers video w = elim (Bool-cases (bad_uri uri)) [
  | inl bad ↦ inl (ap (λ (x : Result ℕ × World). x.1) (if_true (bad_uri uri) _ _ bad))
  | inr fine ↦
      subst (Sends headers w) (sym (if_false (bad_uri uri) _ _ fine))
        (dial_with-Sends ua uri headers _ w fine)
]

-- While the runtime drains, no dial goes out: the world is as it was, and the error is ValueError
-- or DrainingError.
pub dial-draining :
    (ua : ℕ) (uri : Text) (headers : List (Text × Text)) (video : VideoOffer) (w : World)
    → w.draining ≡ true
    → ((dial ua uri headers video w) ≡ (err Error.value_error, w))
      ⊎ ((dial ua uri headers video w) ≡ (err Error.draining_error, w))
unfolding dial dial_with
dial-draining ua uri headers video w draining = elim (Bool-cases (bad_uri uri)) [
  | inl bad ↦ inl (rw (bad, dial))
  | inr fine ↦ elim (Option-cases (video_number video)) [
    | inl unknown ↦ inl (rw (fine, dial, unknown, dial_with))
    | inr (n, known) ↦ inr (ground arith)
  ]
]
