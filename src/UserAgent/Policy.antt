-- ===== src/UserAgent/Policy.antt =====
-- The transfer policy and the listeners of a user agent, `_apply_transfer_policy` and the methods
-- around it in src/baresip/ua.py.
pub mod Acting
use baresip_python.Base.{
  ℕ, Bool, true, false, not, ◌&&◌, ◌||◌, Option, none, some, List, [], ◌∷◌, ◌++◌, map, Text, truthy,
  or_empty, text_eq, ◌==◌, if◌then◌else◌, contains, without,
}
use baresip_python.Errors.{Error, Result, ok, err, is_baresip_error}
use baresip_python.Events.{Payload, StackEvent}
use baresip_python.Events.Numbering.{Event}
use baresip_python.Runtime.Commands.{ReplyData}
use baresip_python.Call.{Call, CallState, birth, from_incoming}
use baresip_python.Call.Refer.{TransferRequest, parse_refer_to, invite}
use baresip_python.Call.Session.{Method}
use baresip_python.Wire.{Command, Reply, stale_handle, call_transfer_accept, call_transfer_reject}
use baresip_python.World.{World, Turn, head_turn, command, allocate}
use baresip_python.UserAgent.{UserAgent, TransferPolicy}

-- A callback and the place of the object that it is given.
abbrev pub Told : Type 0
Told = ℕ × ℕ

-- `json.loads(payload) if payload else {}`, then the checks for a stale handle and for an error;
-- none is the early return.
unfoldable pub policy_data : ℕ → Payload ReplyData → Result (Option (Option ℕ))
policy_data ev Payload.absent = ok (if ev == stale_handle then none else some none)
policy_data ev Payload.empty = ok (if ev == stale_handle then none else some none)
policy_data ev Payload.unparseable = err Error.value_error
policy_data ev (Payload.parsed d) =
    ok (if ev == stale_handle then none else elim d.error [ some e ↦ none | none ↦ some d.handle ])

unfoldable pub policy_reply : Result Reply → Result (Option (Option ℕ))
unfolding policy_data
policy_reply (err e) = err e
policy_reply (ok r) = policy_data r.ev r.payload

-- A BaresipError is logged; any other exception ends the task.
abbrev pub swallow : Error → Result (List Told)
swallow e = if is_baresip_error e then ok [] else err e

unfoldable pub finish_policy :
    UserAgent → StackEvent → Text → Result (Option (Option ℕ)) → Method (List Told)
unfolding birth
finish_policy a e target (err x) w = (swallow x, w)
finish_policy a e target (ok none) w = (ok [], w)
finish_policy a e target (ok (some none)) w = (err Error.key_error, w)
finish_policy a e target (ok (some (some handle))) w = (
  ok (map (λ callback. (callback, w.next_object)) a.transfer_call_callbacks),
  allocate (birth handle a.handle CallState.outgoing (some target) none []) w,
)

abbrev pub refusal : Result Reply → Result (List Told)
refusal (err x) = swallow x
refusal (ok r) = ok []

unfoldable pub refuse_transfer : StackEvent → ℕ → Method (List Told)
refuse_transfer e status w =
    (refusal (head_turn w.turns).reply, command (call_transfer_reject e.call status) w)

unfoldable pub execute_request : UserAgent → StackEvent → TransferRequest → Method (List Told)
unfolding finish_policy policy_reply
execute_request a e request w =
    finish_policy a e request.target (policy_reply (head_turn w.turns).reply)
      (command (call_transfer_accept e.call request.raw) w)

abbrev pub is_reject : TransferPolicy → Bool
is_reject TransferPolicy.reject = true
is_reject TransferPolicy.manual = false
is_reject TransferPolicy.auto = false

-- `_apply_transfer_policy`: what each callback of `on_transfer_call` is given.
unfoldable pub apply_transfer_policy : UserAgent → StackEvent → Method (List Told)
unfolding refuse_transfer execute_request parse_refer_to
apply_transfer_policy a e w =
    if is_reject a.transfer_policy || not (truthy e.text)
    then refuse_transfer e 603 w
    else if not (text_eq (parse_refer_to (or_empty e.text)).method invite)
    then refuse_transfer e 501 w
    else execute_request a e (parse_refer_to (or_empty e.text)) w

abbrev pub is_transfer : Event → Bool
is_transfer Event.call_transfer = true
is_transfer _ = false

-- The listener of `_install_transfer_policy`, with the task that it creates.
unfoldable pub hear_policy : UserAgent → StackEvent → Method (List Told)
unfolding apply_transfer_policy
hear_policy a e w =
    if a.policy_installed && (is_transfer e.event && e.ua == a.handle)
    then apply_transfer_policy a e w
    else (ok [], w)

-- `on_transfer_call`
unfoldable pub on_transfer_call : ℕ → UserAgent → UserAgent
on_transfer_call f a = record a {
  transfer_call_callbacks =
      if contains f a.transfer_call_callbacks
      then a.transfer_call_callbacks
      else a.transfer_call_callbacks ++ f ∷ [];
}

-- `off_transfer_call`
unfoldable pub off_transfer_call : ℕ → UserAgent → UserAgent
off_transfer_call f a = record a { transfer_call_callbacks = without f a.transfer_call_callbacks }

-- `on_incoming`
unfoldable pub on_incoming : ℕ → UserAgent → UserAgent
on_incoming f a =
    if contains f a.incoming_callbacks
    then a
    else record a { incoming_callbacks = a.incoming_callbacks ++ f ∷ []; incoming_listener = true }

abbrev pub is_incoming : Event → Bool
is_incoming Event.call_incoming = true
is_incoming _ = false

-- The listener that `on_incoming` subscribes: one new object, which every callback is given.
unfoldable pub hear_incoming : UserAgent → StackEvent → World → List Told × World
unfolding from_incoming
hear_incoming a e w =
    if a.incoming_listener && (is_incoming e.event && e.ua == a.handle)
    then (
      map (λ callback. (callback, w.next_object)) a.incoming_callbacks,
      allocate (from_incoming e) w,
    )
    else ([], w)

-- `on`
unfoldable pub on : ℕ → UserAgent → UserAgent
on f a = record a {
  listeners = if contains f a.listeners then a.listeners else a.listeners ++ f ∷ [];
}

-- `off`
unfoldable pub off : ℕ → UserAgent → UserAgent
off f a = record a { listeners = without f a.listeners }

-- The listeners that the wrappers of `on` pass an event on to.
unfoldable pub heard : UserAgent → StackEvent → List ℕ
heard a e = if e.ua == a.handle then a.listeners else []
