-- ===== src/Account/Secret.antt =====
-- The password in the line that an account is rendered to, src/baresip/config.py.
use baresip_python.Base.{
  ℕ, ◌≡◌, ◌≢◌, refl, sym, ◌∙◌, ap, subst, Bool, true, false, not, ◌||◌, List, [], ◌∷◌, ◌++◌, all,
  contains, Text, codes, before, after, ◌==◌, if◌then◌else◌, arith, Bool-cases, append-nil, inl,
  inr, and_true,
}
use baresip_python.Account.{
  Account, is_rejected, reject_chars, is_fine, is_fine_if_given, is_one_of, transports, is_natural,
  user_deny, domain_deny, password_deny, registrar_deny, is_valid, join, auth_pass_param, params_of,
  aor,
}
use baresip_python.Account.Line.{not-true, accepted, accepted_fine, chosen}

-- The quotation mark.
abbrev pub quote : ℕ
quote = 34

abbrev unquoted : ℕ → Bool
unquoted c = not (c == quote)

or_false_both : (a b c : Bool) → (a || (b || c)) ≡ false → c ≡ false
or_false_both true b c h = absurd (ground arith)
or_false_both false true c h = absurd (ground arith)
or_false_both false false c h = h

after-append : (s t : Text) → all unquoted s ≡ true → after quote (s ++ t) ≡ after quote t
unfolding after
after-append [] t h = refl
after-append (c ∷ s) t h = ground (arith, after-append s t)

before-append : (s t : Text) → all unquoted s ≡ true → before quote ((s ++ quote ∷ []) ++ t) ≡ s
unfolding before
before-append [] t h = refl
before-append (c ∷ s) t h =
    let (here, rest) = and_true (unquoted c) (all unquoted s) h in
    ap (λ (b : Bool). if b then [] else c ∷ before quote ((s ++ quote ∷ []) ++ t)) (not-true _ here)
    ∙ ap (λ r. c ∷ r) (before-append s t rest)

-- The first piece of a joined text.
join-head : (sep : ℕ) (x : Text) (rest : List Text) → (t : Text) × (join sep (x ∷ rest) ≡ x ++ t)
unfolding join
join-head sep x [] = ([], sym (append-nil x))
join-head sep x (y ∷ rest) = (_, refl)

HoldsPass : List Text → Text → Type 0
HoldsPass params p =
    (t : Text) × (join b';' params ≡ (codes "auth_pass=" ++ quote ∷ (p ++ quote ∷ [])) ++ t)

pass-head : (p : Text) (rest : List Text) → p ≢ [] → HoldsPass (auth_pass_param p ++ rest) p
unfolding HoldsPass
pass-head [] rest has = absurd (has refl)
pass-head (c ∷ s) rest has = join-head b';' _ rest

params-password : (a : Account) → a.password ≢ [] → HoldsPass (params_of a) a.password
unfolding params_of
params-password a has = pass-head a.password _ has

unquoted_char :
    (deny : Text) (sp : Bool)
    → contains quote deny ≡ true
    → (c : ℕ) → is_rejected deny sp c ≡ false
    → unquoted c ≡ true
unfolding is_rejected
unquoted_char deny sp h c e = elim (Bool-cases (c == quote)) [
  | inr other ↦ ap not other
  | inl mark ↦
      let same : c ≡ quote = ground arith in
      absurd (clash (subst (λ x. contains x deny ≡ true) (sym same) h) (or_false_both _ _ _ e))
]
  where
    clash : contains c deny ≡ true → contains c deny ≡ false → ⊥
    clash a b = ground arith

unquoted_fine :
    (deny value : Text)
    → contains quote deny ≡ true
    → is_fine deny false value ≡ true
    → all unquoted value ≡ true
unquoted_fine deny value h = accepted_fine unquoted deny false (unquoted_char deny false h) value

-- A valid account that has a password: in its line, what stands between the first two quotation
-- marks is the password.
pub aor-password :
    (a : Account)
    → is_valid a ≡ true
    → a.password ≢ []
    → before quote (after quote (aor a)) ≡ a.password
unfolding aor is_valid after HoldsPass
aor-password a h has =
    let (user, h1) = and_true (is_fine user_deny false a.user) _ h in
    let (domain, h2) = and_true (is_fine domain_deny false a.domain) _ h1 in
    let (password, h3) = and_true (not (reject_chars password_deny true a.password)) _ h2 in
    let (registrar, h4) = and_true (is_fine_if_given registrar_deny a.registrar) _ h3 in
    let (interval, h5) = and_true (is_natural a.reg_interval) _ h4 in
    let (transport, h6) = and_true (is_one_of transports a.transport) _ h5 in
    let (t, pass) = params-password a has in
    ap (before quote) (
      after-append a.user _ (unquoted_fine user_deny a.user refl user)
      ∙ after-append a.domain _ (unquoted_fine domain_deny a.domain refl domain)
      ∙ after-append a.transport _ (chosen unquoted transports a.transport refl transport)
      ∙ ap (λ j. after quote (b'>' ∷ b';' ∷ j)) pass)
    ∙ before-append a.password t (
        accepted unquoted password_deny true (unquoted_char password_deny true refl) a.password
          (not-true _ password))
