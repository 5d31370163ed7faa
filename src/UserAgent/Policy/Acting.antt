-- ===== src/UserAgent/Policy/Acting.antt =====
-- What the transfer policy of a user agent sends, src/baresip/ua.py.
use baresip_python.Base.{
  ℕ, ◌≡◌, refl, sym, ◌∙◌, ap, subst, Bool, true, false, not, ◌&&◌, ◌||◌, Option, none, some, List,
  [], ◌∷◌, ◌++◌, append-nil, ◌⊎◌, inl, inr, Text, truthy, or_empty, text_eq, eq_of_text_eq, ◌==◌,
  if◌then◌else◌, if_true, if_false, arith, Bool-cases, and_true, or_false_left, or_false_right,
}
use baresip_python.Errors.{Result, ok, err}
use baresip_python.Events.{StackEvent}
use baresip_python.Events.Numbering.{Event}
use baresip_python.Call.Refer.{parse_refer_to, invite, raw-parse_refer_to}
use baresip_python.Wire.{Command, call_transfer_accept, call_transfer_reject}
use baresip_python.World.{World, command, deliver, allocate}
use baresip_python.UserAgent.{UserAgent, TransferPolicy, Identity, made, new_agent, is_manual}
use baresip_python.UserAgent.Policy.{
  Told, is_reject, is_transfer, finish_policy, refuse_transfer, execute_request,
  apply_transfer_policy, hear_policy,
}

-- A request of the peer of one of this agent's calls for a transfer.
pub IsRequest : UserAgent → StackEvent → Type 0
IsRequest a e = (e.event ≡ Event.call_transfer) × (e.ua ≡ a.handle)

-- What an agent may send where it hears an event: nothing, where the policy is manual or the event
-- is not a transfer request to this agent; and where it is one, a refusal, where the policy is not
-- manual, or the request itself, where the policy is auto and the request is an INVITE's.
pub Allowed : UserAgent → TransferPolicy → StackEvent → List Command → Type 0
Allowed a policy e cs =
    ((cs ≡ []) × ((not (is_manual policy) && (is_transfer e.event && e.ua == a.handle)) ≡ false))
    ⊎ (IsRequest a e
        × ((status : ℕ) × (cs ≡ call_transfer_reject e.call status ∷ []))
        × (is_manual policy ≡ false))
    ⊎ (IsRequest a e
        × (policy ≡ TransferPolicy.auto)
        × (text : Text) × (e.text ≡ some text)
        × (cs ≡ call_transfer_accept e.call text ∷ [])
        × ((parse_refer_to text).method ≡ invite))

-- `Allowed` of what a method added to the commands sent.
Adds : UserAgent → StackEvent → World → Result (List Told) × World → Type 0
Adds a e w x = (cs : List Command) × (x.1.sent ≡ w.sent ++ cs) × Allowed a a.transfer_policy e cs

made-installed :
    (identity : Identity) (policy : TransferPolicy) (r : Result (Option ℕ)) (a : UserAgent)
    → made identity policy r ≡ ok a
    → a.policy_installed ≡ not (is_manual a.transfer_policy)
unfolding made new_agent
made-installed identity policy (err x) a h = absurd (ground arith)
made-installed identity policy (ok none) a h = absurd (ground arith)
made-installed identity policy (ok (some handle)) a h = subst Holds h refl
  where
    Holds : Result UserAgent → Type 0
    Holds (err x) = ℕ
    Holds (ok b) = b.policy_installed ≡ not (is_manual b.transfer_policy)

not_manual : (p : TransferPolicy) → is_reject p ≡ true → is_manual p ≡ false
not_manual TransferPolicy.manual h = absurd (ground arith)
not_manual TransferPolicy.auto h = refl
not_manual TransferPolicy.reject h = refl

is_auto : (p : TransferPolicy) → is_manual p ≡ false → is_reject p ≡ false → p ≡ TransferPolicy.auto
is_auto TransferPolicy.manual h k = absurd (ground arith)
is_auto TransferPolicy.auto h k = refl
is_auto TransferPolicy.reject h k = absurd (ground arith)

finish_policy-sent :
    (a : UserAgent) (e : StackEvent) (target : Text) (r : Result (Option (Option ℕ))) (w : World)
    → (finish_policy a e target r w).1.sent ≡ w.sent
unfolding finish_policy allocate
finish_policy-sent a e target (err x) w = refl
finish_policy-sent a e target (ok none) w = refl
finish_policy-sent a e target (ok (some none)) w = refl
finish_policy-sent a e target (ok (some (some h))) w = refl

refuse_transfer-Adds :
    (a : UserAgent) (e : StackEvent) (status : ℕ) (w : World)
    → IsRequest a e
    → is_manual a.transfer_policy ≡ false
    → Adds a e w (refuse_transfer e status w)
unfolding refuse_transfer command deliver Adds Allowed
refuse_transfer-Adds a e status w own h = (_, refl, inr (inl (own, (status, refl), h)))

known_text : (t : Option Text) → truthy t ≡ true → t ≡ some (or_empty t)
known_text none h = absurd (ground arith)
known_text (some s) h = refl

execute_request-Adds :
    (a : UserAgent) (e : StackEvent) (w : World)
    → IsRequest a e
    → a.transfer_policy ≡ TransferPolicy.auto
    → truthy e.text ≡ true
    → text_eq (parse_refer_to (or_empty e.text)).method invite ≡ true
    → Adds a e w (execute_request a e (parse_refer_to (or_empty e.text)) w)
unfolding execute_request command deliver Adds Allowed
execute_request-Adds a e w own auto text method = (
  _,
  finish_policy-sent a e _ _ _,
  inr (
      inr (
        own,
        auto,
        or_empty e.text,
        known_text e.text text,
        ap (λ raw. call_transfer_accept e.call raw ∷ []) (raw-parse_refer_to (or_empty e.text)),
        eq_of_text_eq _ _ method,
      )),
)

apply_transfer_policy-Adds :
    (a : UserAgent) (e : StackEvent) (w : World)
    → IsRequest a e
    → is_manual a.transfer_policy ≡ false
    → Adds a e w (apply_transfer_policy a e w)
unfolding apply_transfer_policy
apply_transfer_policy-Adds a e w own active =
    elim (Bool-cases (is_reject a.transfer_policy || not (truthy e.text))) [
      | inl refuses ↦
          subst (Adds a e w) (sym (if_true _ _ _ refuses))
            (refuse_transfer-Adds a e 603 w own active)
      | inr acts ↦
          subst (Adds a e w) (sym (if_false _ _ _ acts))
            (elim (Bool-cases (text_eq (parse_refer_to (or_empty e.text)).method invite)) [
              | inl dials ↦ subst (Adds a e w) (sym (if_false _ _ _ (ap not dials))) (
                  execute_request-Adds a e w own
                    (is_auto a.transfer_policy active (or_false_left _ _ acts))
                    (or_false_right _ _ acts) dials)
              | inr exotic ↦
                  subst (Adds a e w) (sym (if_true _ _ _ (ap not exotic)))
                    (refuse_transfer-Adds a e 501 w own active)
            ])
    ]

transfer_of : (x : Event) → is_transfer x ≡ true → x ≡ Event.call_transfer
transfer_of Event.call_transfer h = refl
transfer_of _ h = absurd (ground arith)

hear_policy-IsRequest :
    (a : UserAgent) (e : StackEvent) (b : Bool)
    → (b && (is_transfer e.event && e.ua == a.handle)) ≡ true
    → IsRequest a e
unfolding IsRequest
hear_policy-IsRequest a e b h =
    let own = (and_true b _ h).1 in
    let (transfer, here) = and_true (is_transfer e.event) (e.ua == a.handle) own in
    (transfer_of e.event transfer, ground arith)

Adds-if :
    (a : UserAgent) (e : StackEvent) (w : World) (installed : Bool)
    → installed ≡ not (is_manual a.transfer_policy)
    → Adds a e w (
        if installed && (is_transfer e.event && e.ua == a.handle)
        then apply_transfer_policy a e w
        else (ok [], w))
unfolding Adds Allowed
Adds-if a e w installed h =
    elim (Bool-cases (installed && (is_transfer e.event && e.ua == a.handle))) [
      | inl hears ↦ subst (Adds a e w) (sym (if_true _ _ _ hears)) (
          apply_transfer_policy-Adds a e w (hear_policy-IsRequest a e installed hears)
            (ground arith))
      | inr deaf ↦ subst (Adds a e w) (sym (if_false _ _ _ deaf)) (
        [],
        sym (append-nil w.sent),
        inl (refl, ap (λ b. b && (is_transfer e.event && e.ua == a.handle)) (sym h) ∙ deaf),
      )
    ]

-- An agent that was created with a transfer policy sends only what the policy allows when it hears
-- an event: nothing under "manual" or for anything but a transfer request to this agent, and a
-- transfer is executed only under "auto", for an INVITE and with the Refer-To value that came with
-- the event.
pub hear_policy-Allowed :
    (identity : Identity) (policy : TransferPolicy) (r : Result (Option ℕ)) (a : UserAgent)
    (e : StackEvent) (w : World)
    → made identity policy r ≡ ok a
    → (cs : List Command) × ((hear_policy a e w).1.sent ≡ w.sent ++ cs)
      × Allowed a a.transfer_policy e cs
unfolding hear_policy Adds
hear_policy-Allowed identity policy r a e w h =
    Adds-if a e w a.policy_installed (made-installed identity policy r a h)
