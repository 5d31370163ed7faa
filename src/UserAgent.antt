-- ===== src/UserAgent.antt =====
-- src/baresip/ua.py: a user agent, its creation and its registration.
pub mod Registering
pub mod Dial
pub mod Policy
use baresip_python.Base.{
  ℕ, zero, suc, Bool, true, false, not, ◌&&◌, ◌||◌, Option, none, some, List, [], ◌∷◌, ◌++◌, Text,
  codes, text_eq, starts_with, ◌==◌, if◌then◌else◌, any, contains, without, or_empty,
}
use baresip_python.Errors.{Error, Result, ok, err, split_status, with_status, is_baresip_error}
use baresip_python.Events.{Payload, ℤ, pos, negsuc, StackEvent}
use baresip_python.Events.Numbering.{Event}
use baresip_python.Runtime.Commands.{ReplyData}
use baresip_python.Call.{Call, CallState, Arrival, birth, from_incoming}
use baresip_python.Call.Refer.{TransferRequest, parse_refer_to, invite}
use baresip_python.Call.Session.{Method}
use baresip_python.Call.Transfer.{or_later, raised_verdict, has_any, new_handle}
use baresip_python.Wire.{
  Command, Reply, stale_handle, ua_alloc, ua_register, ua_unregister, ua_connect,
  call_transfer_accept, call_transfer_reject,
}
use baresip_python.World.{World, Turn, head_turn, head_wait, command, pause, allocate}

pub data TransferPolicy : Type 0 where
  manual auto reject : TransferPolicy

-- `on` and `off` of an agent keep a dictionary of listeners, by their order of insertion.
-- `incoming_listener` says that `on_incoming` has subscribed its listener, and `policy_installed`
-- that `create` has subscribed that of the transfer policy.
pub record UserAgent : Type 0 where
  pub handle : ℕ
  pub registered : Bool
  pub registration_disabled : Bool
  pub transfer_policy : TransferPolicy
  pub policy_installed : Bool
  pub transfer_call_callbacks : List ℕ
  pub listeners : List ℕ
  pub incoming_callbacks : List ℕ
  pub incoming_listener : Bool

-- `UserAgent.__init__`
unfoldable pub new_agent : ℕ → UserAgent
new_agent handle = record {
  handle = handle;
  registered = false;
  registration_disabled = false;
  transfer_policy = TransferPolicy.manual;
  policy_installed = false;
  transfer_call_callbacks = [];
  listeners = [];
  incoming_callbacks = [];
  incoming_listener = false;
}

-- An account as its address-of-record line and its interval, or a raw line.
pub data Identity : Type 0 where
  account : Text → ℤ → Identity
  raw : Text → Identity

abbrev pub aor_of : Identity → Text
aor_of (account aor interval) = aor
aor_of (raw aor) = aor

abbrev pub regint_zero : Text
regint_zero = codes ";regint=0"

abbrev ends_here : Text → Bool
ends_here [] = true
ends_here (c ∷ s) = (c == b';') || ((c == 10) && text_eq s [])

abbrev past : Text → Text → Text
past [] s = s
past (p ∷ ps) [] = []
past (p ∷ ps) (c ∷ s) = past ps s

-- `re.search(r";regint=0(?:;|$)", aor)`; `$` also holds before a newline at the end.
unfoldable pub has_regint_zero : Text → Bool
has_regint_zero [] = false
has_regint_zero (c ∷ s) =
    (starts_with (c ∷ s) regint_zero && ends_here (past regint_zero (c ∷ s))) || has_regint_zero s

unfoldable pub is_disabled : Identity → Bool
is_disabled (account aor (pos zero)) = true
is_disabled (account aor (pos (suc n))) = false
is_disabled (account aor (negsuc n)) = false
is_disabled (raw aor) = has_regint_zero aor

unfoldable pub policy_of : Text → Option TransferPolicy
policy_of p =
    if text_eq p (codes "manual")
    then some TransferPolicy.manual
    else if text_eq p (codes "auto")
    then some TransferPolicy.auto
    else if text_eq p (codes "reject")
    then some TransferPolicy.reject
    else none

abbrev pub is_manual : TransferPolicy → Bool
is_manual TransferPolicy.manual = true
is_manual TransferPolicy.auto = false
is_manual TransferPolicy.reject = false

-- `create` behind its command: an allocation that failed carries an "error" key.
unfoldable pub made : Identity → TransferPolicy → Result (Option ℕ) → Result UserAgent
unfolding new_agent is_disabled
made identity policy (err e) = err e
made identity policy (ok none) = err Error.key_error
made identity policy (ok (some handle)) = ok (record (new_agent handle) {
  registration_disabled = is_disabled identity;
  transfer_policy = policy;
  policy_installed = not (is_manual policy);
})

abbrev pub reply_handle : Result Reply → Result (Option ℕ)
reply_handle (err e) = err e
reply_handle (ok r) = new_handle r.payload

unfoldable pub create_with : Identity → Option TransferPolicy → Method UserAgent
unfolding made
create_with identity none w = (err Error.value_error, w)
create_with identity (some policy) w = (
  made identity policy (reply_handle (head_turn w.turns).reply),
  command (ua_alloc (aor_of identity)) w,
)

-- `create`
unfoldable pub create : Identity → Text → Method UserAgent
unfolding create_with policy_of
create identity policy w = create_with identity (policy_of policy) w

-- The listener of `_registration_outcome`.
unfoldable pub registration_verdict : Event → Option Text → Option (Result (Unit {0}))
registration_verdict Event.register_ok text = some (ok tt)
registration_verdict Event.register_fail text = raised_verdict (
    with_status (λ status reason. Error.registration_error status reason)
      (split_status (or_empty text)))
registration_verdict _ text = none

unfoldable pub first_registration : ℕ → List Arrival → Option (Result (Unit {0}))
unfolding registration_verdict
first_registration handle [] = none
first_registration handle (a ∷ rest) =
    or_later
      (if a.event.ua == handle then registration_verdict a.event.event a.event.text else none)
      (first_registration handle rest)

-- A method of an agent also leaves the agent.
abbrev pub AgentMethod : Type 0 → Type 0
AgentMethod A = UserAgent → World → Result A × UserAgent × World

-- What `register` makes of its command's reply; the words for an error number are the system's.
unfoldable pub register_error : (ℕ → Text) → Result Reply → Option Error
register_error strerror (err e) = some e
register_error strerror (ok r) =
    if r.ev == stale_handle then some Error.stale_handle_error else elim r.payload [
      | Payload.absent ↦ none
      | Payload.empty ↦ some Error.value_error
      | Payload.unparseable ↦ some Error.value_error
      | Payload.parsed d ↦
          some (Error.registration_error none (strerror (elim d.errno [ some n ↦ n | none ↦ 0 ])))
    ]

unfoldable pub unregister_error : Result Reply → Option Error
unregister_error (err e) = some e
unregister_error (ok r) = if r.ev == stale_handle then some Error.stale_handle_error else none

-- The flag is written only behind a success.
abbrev pub note : Bool → Result (Unit {0}) → UserAgent → UserAgent
note registered (ok u) a = record a { registered = registered }
note registered (err e) a = a

abbrev pub or_unconfirmed : Option (Result (Unit {0})) → Result (Unit {0})
or_unconfirmed none = err (Error.registration_error none [])
or_unconfirmed (some r) = r

-- The rest of the wait, if the events of the command's await did not settle the outcome.
unfoldable pub await_registration : Bool → Option (Result (Unit {0})) → AgentMethod (Unit {0})
await_registration goal (some r) a w = (r, note goal r a, w)
await_registration goal none a w =
    let r = or_unconfirmed (first_registration a.handle (head_wait w.waits)) in
    (r, note goal r a, pause w)

unfoldable pub confirm : Bool → Option Error → List Arrival → AgentMethod (Unit {0})
unfolding await_registration
confirm goal (some e) arrivals a w = (err e, a, w)
confirm goal none arrivals a w = await_registration goal (first_registration a.handle arrivals) a w

-- `register`
unfoldable pub register : (ℕ → Text) → AgentMethod (Unit {0})
unfolding confirm register_error
register strerror a w =
    if a.registration_disabled
    then (err (Error.registration_error none []), a, w)
    else confirm true (register_error strerror (head_turn w.turns).reply)
        (head_turn w.turns).arrivals a (command (ua_register a.handle) w)

-- `unregister`
unfoldable pub unregister : AgentMethod (Unit {0})
unfolding confirm unregister_error
unregister a w =
    if a.registration_disabled
    then (err (Error.registration_error none []), a, w)
    else if not a.registered
    then (ok tt, a, w)
    else confirm false (unregister_error (head_turn w.turns).reply) (head_turn w.turns).arrivals a
        (command (ua_unregister a.handle) w)
