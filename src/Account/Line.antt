-- ===== src/Account/Line.antt =====
-- The line that an account is rendered to, src/baresip/config.py, and its characters.
use baresip_python.Base.{
  ℕ, suc, ◌≡◌, refl, sym, ◌∙◌, subst, Bool, true, false, not, ◌&&◌, ◌||◌, Option, none, some, List,
  [], ◌∷◌, ◌++◌, inl, inr, all, all-append, Text, codes, text_eq, eq_of_text_eq, starts_with, ◌==◌,
  ltb, if_true, if_false, decimal-all, arith, Bool-cases, and_true,
}
use baresip_python.Events.{ℤ, pos, negsuc}
use baresip_python.Account.{
  Account, is_rejected, reject_chars, is_empty, is_fine, is_fine_if_given, is_one_of, transports,
  dtmf_modes, is_natural, user_deny, domain_deny, password_deny, registrar_deny, codec_deny,
  auth_user_deny, is_valid, integer, join, auth_pass_param, auth_user_param, codecs_param,
  outbound_uri, outbound_param, params_of, aor,
}

-- Neither a control character nor DEL.
abbrev pub is_printable : ℕ → Bool
is_printable c = not (ltb c 32 || c == 127)

pub true_and : (a b : Bool) → a ≡ true → b ≡ true → (a && b) ≡ true
true_and true b h k = k
true_and false b h k = h

pub not-true : (a : Bool) → not a ≡ true → a ≡ false
not-true true h = absurd (ground arith)
not-true false h = refl

or_true_right : (a b : Bool) → a ≡ false → (a || b) ≡ true → b ≡ true
or_true_right true b h e = absurd (ground arith)
or_true_right false b h e = e

all_both {ℓ} :
    {A : Type ℓ} (p : A → Bool) (s t : List A)
    → all p s ≡ true
    → all p t ≡ true
    → all p (s ++ t) ≡ true
all_both p s t h k = all-append p s t ∙ true_and (all p s) (all p t) h k

-- A value that `_reject_chars` lets pass consists of characters that pass the test `p`.
pub accepted :
    (p : ℕ → Bool) (deny : Text) (allow_space : Bool)
    → ((c : ℕ) → is_rejected deny allow_space c ≡ false → p c ≡ true)
    → (value : Text) → reject_chars deny allow_space value ≡ false
    → all p value ≡ true
unfolding reject_chars
accepted p deny sp h [] e = refl
accepted p deny sp h (c ∷ s) e = ground (arith, h c, accepted p deny sp h s)

pub accepted_fine :
    (p : ℕ → Bool) (deny : Text) (allow_space : Bool)
    → ((c : ℕ) → is_rejected deny allow_space c ≡ false → p c ≡ true)
    → (value : Text) → is_fine deny allow_space value ≡ true
    → all p value ≡ true
unfolding is_fine
accepted_fine p deny sp h value e =
    accepted p deny sp h value (not-true _ ((and_true (not (is_empty value)) _ e).1))

printable :
    (deny : Text) (sp : Bool) (c : ℕ) → is_rejected deny sp c ≡ false → is_printable c ≡ true
unfolding is_rejected
printable deny true c h = ground arith
printable deny false c h = ground arith

pub chosen :
    (p : ℕ → Bool) (options : List Text) (value : Text)
    → all (all p) options ≡ true
    → is_one_of options value ≡ true
    → all p value ≡ true
chosen p [] value h e = absurd (ground arith)
chosen p (x ∷ options) value h e = elim (Bool-cases (text_eq value x)) [
  | inl same ↦ rw (eq_of_text_eq value x same) ((and_true (all p x) _ h).0)
  | inr other ↦
      chosen p options value ((and_true (all p x) _ h).1)
        (or_true_right (text_eq value x) _ other e)
]

all-join :
    (p : ℕ → Bool) (sep : ℕ) (xs : List Text)
    → p sep ≡ true
    → all (all p) xs ≡ true
    → all p (join sep xs) ≡ true
unfolding join
all-join p sep [] h e = refl
all-join p sep (x ∷ []) h e = (and_true (all p x) true e).0
all-join p sep (x ∷ (y ∷ rest)) h e =
    all_both p x (sep ∷ join sep (y ∷ rest)) ((and_true (all p x) _ e).0)
      (true_and (p sep) _ h (all-join p sep (y ∷ rest) h ((and_true (all p x) _ e).1)))

all_each :
    (p q : Text → Bool)
    → ((s : Text) → p s ≡ true → q s ≡ true)
    → (xs : List Text) → all p xs ≡ true
    → all q xs ≡ true
all_each p q h [] e = refl
all_each p q h (x ∷ xs) e = ground (arith, h x, all_each p q h xs)

printable_fine :
    (deny : Text) (sp : Bool) (value : Text)
    → is_fine deny sp value ≡ true
    → all is_printable value ≡ true
printable_fine deny sp = accepted_fine is_printable deny sp (printable deny sp)

printable_chosen :
    (options : List Text) (value : Text)
    → all (all is_printable) options ≡ true
    → is_one_of options value ≡ true
    → all is_printable value ≡ true
printable_chosen = chosen is_printable

printable_integer : (n : ℤ) → all is_printable (integer n) ≡ true
printable_integer (pos n) = decimal-all is_printable (λ d h. ground arith) n
printable_integer (negsuc n) = decimal-all is_printable (λ d h. ground arith) (suc n)

-- What is left of a validation: each field's characters are printable.
record IsPrintable (a : Account) : Type 0 where
  in_user : all is_printable a.user ≡ true
  in_domain : all is_printable a.domain ≡ true
  in_password : all is_printable a.password ≡ true
  in_registrar : is_fine_if_given registrar_deny a.registrar ≡ true
  in_transport : all is_printable a.transport ≡ true
  in_codecs : all (all is_printable) a.audio_codecs ≡ true
  in_dtmf : all is_printable a.dtmf_mode ≡ true
  in_auth_user : is_fine_if_given auth_user_deny a.auth_user ≡ true
  in_extra : all (all is_printable) a.extra_params ≡ true

valid-IsPrintable : (a : Account) → is_valid a ≡ true → IsPrintable a
unfolding is_valid
valid-IsPrintable a h =
    let (user, h1) = and_true (is_fine user_deny false a.user) _ h in
    let (domain, h2) = and_true (is_fine domain_deny false a.domain) _ h1 in
    let (password, h3) = and_true (not (reject_chars password_deny true a.password)) _ h2 in
    let (registrar, h4) = and_true (is_fine_if_given registrar_deny a.registrar) _ h3 in
    let (interval, h5) = and_true (is_natural a.reg_interval) _ h4 in
    let (transport, h6) = and_true (is_one_of transports a.transport) _ h5 in
    let (codecs, h7) = and_true (all (is_fine codec_deny false) a.audio_codecs) _ h6 in
    let (dtmf, h8) = and_true (is_one_of dtmf_modes a.dtmf_mode) _ h7 in
    let (auth_user, extra) = and_true (is_fine_if_given auth_user_deny a.auth_user) _ h8 in
    record {
      in_user = printable_fine user_deny false a.user user;
      in_domain = printable_fine domain_deny false a.domain domain;
      in_password =
          accepted is_printable password_deny true (printable password_deny true) a.password
            (not-true _ password);
      in_registrar = registrar;
      in_transport = printable_chosen transports a.transport refl transport;
      in_codecs =
          all_each (is_fine codec_deny false) (all is_printable) (printable_fine codec_deny false)
            a.audio_codecs codecs;
      in_dtmf = printable_chosen dtmf_modes a.dtmf_mode refl dtmf;
      in_auth_user = auth_user;
      in_extra =
          all_each (is_fine [] true) (all is_printable) (printable_fine [] true) a.extra_params
            extra;
    }

printable_pass :
    (s : Text) → all is_printable s ≡ true → all (all is_printable) (auth_pass_param s) ≡ true
printable_pass [] h = refl
printable_pass (c ∷ s) h =
    true_and (all is_printable (c ∷ (s ++ 34 ∷ []))) true
      (all_both is_printable (c ∷ s) (34 ∷ []) h refl) refl

printable_auth_user :
    (name : Option Text)
    → is_fine_if_given auth_user_deny name ≡ true
    → all (all is_printable) (auth_user_param name) ≡ true
printable_auth_user none h = refl
printable_auth_user (some s) h =
    true_and (all is_printable s) true (printable_fine auth_user_deny false s h) refl

printable_codecs :
    (xs : List Text)
    → all (all is_printable) xs ≡ true
    → all (all is_printable) (codecs_param xs) ≡ true
unfolding codecs_param
printable_codecs [] h = refl
printable_codecs (x ∷ xs) h =
    true_and (all is_printable (join b',' (x ∷ xs))) true
      (all-join is_printable b',' (x ∷ xs) refl h) refl

printable_uri : (s : Text) → all is_printable s ≡ true → all is_printable (outbound_uri s) ≡ true
printable_uri s h =
    elim (Bool-cases (starts_with s (codes "sip:") || starts_with s (codes "sips:"))) [
      | inl given ↦ subst (λ t. all is_printable t ≡ true) (sym (if_true _ _ _ given)) h
      | inr bare ↦ subst (λ t. all is_printable t ≡ true) (sym (if_false _ _ _ bare)) h
    ]

printable_outbound :
    (r : Option Text)
    → is_fine_if_given registrar_deny r ≡ true
    → all (all is_printable) (outbound_param r) ≡ true
printable_outbound none h = refl
printable_outbound (some s) h =
    true_and (all is_printable (outbound_uri s ++ 34 ∷ [])) true
      (all_both is_printable (outbound_uri s) (34 ∷ [])
        (printable_uri s (printable_fine registrar_deny false s h)) refl)
      refl

printable_params : (a : Account) → IsPrintable a → all (all is_printable) (params_of a) ≡ true
unfolding params_of
printable_params a f =
    all_both (all is_printable) (auth_pass_param a.password) _
      (printable_pass a.password f.in_password)
      (all_both (all is_printable) (auth_user_param a.auth_user) _
        (printable_auth_user a.auth_user f.in_auth_user)
        (true_and (all is_printable (integer a.reg_interval)) _ (printable_integer a.reg_interval) (
          all_both (all is_printable) (codecs_param a.audio_codecs) _
            (printable_codecs a.audio_codecs f.in_codecs)
            (true_and (all is_printable a.dtmf_mode) _ f.in_dtmf (
              all_both (all is_printable) (outbound_param a.registrar) a.extra_params
                (printable_outbound a.registrar f.in_registrar) f.in_extra)))))

-- The line of a valid account holds no control character, so it is one line.
pub aor-is_printable : (a : Account) → is_valid a ≡ true → all is_printable (aor a) ≡ true
unfolding aor
aor-is_printable a h =
    let f = valid-IsPrintable a h in
    all_both is_printable a.user _ f.in_user (
      all_both is_printable a.domain _ f.in_domain (
        all_both is_printable a.transport _ f.in_transport
          (all-join is_printable b';' (params_of a) refl (printable_params a f))))
