-- ===== src/Examples/Agents.antt =====
-- User agents, accounts and draining on concrete inputs.
use baresip_python.Base.{
  line_feeds, ℕ, ◌≡◌, refl, ◌⊎◌, Bool, true, false, none, some, List, [], ◌∷◌, Text, arith, codes,
  all, before, after, text_eq,
}
use baresip_python.Errors.{Error, ok, err}
use baresip_python.Events.{Payload, pos}
use baresip_python.Events.Numbering.{Event}
use baresip_python.Account.{Account, is_valid, aor, is_fine, reject_chars, is_rejected}
use baresip_python.Account.Line.{is_printable, aor-is_printable}
use baresip_python.Account.Secret.{quote, aor-password}
use baresip_python.Call.{CallState}
use baresip_python.UserAgent.{UserAgent, TransferPolicy, Identity, made, new_agent, is_disabled}
use baresip_python.UserAgent.Dial.{VideoOffer, dial}
use baresip_python.UserAgent.Dial.Dialing.{dial-sent}
use baresip_python.UserAgent.Policy.{hear_policy}
use baresip_python.UserAgent.Policy.Acting.{Allowed, hear_policy-Allowed}
use baresip_python.Runtime.Drain.{drain}
use baresip_python.Runtime.Drain.Quiet.{dial-drain}
use baresip_python.Wire.{Command, arguments}
use baresip_python.World.{World, Turn}
use baresip_python.Examples.Data.{heard_at, turn, world, no_reply}

abbrev alice : Account
alice = record {
  user = codes "alice";
  domain = codes "example.com";
  password = codes "a;b c";
  registrar = none;
  reg_interval = pos 600;
  transport = codes "udp";
  audio_codecs = codes "pcmu" ∷ [];
  dtmf_mode = codes "rtpevent";
  auth_user = none;
  extra_params = [];
}

aor-is_printable_example : all is_printable (aor alice) ≡ true
unfolding is_valid is_fine reject_chars is_rejected text_eq
aor-is_printable_example = aor-is_printable alice refl

aor-password_example : before quote (after quote (aor alice)) ≡ codes "a;b c"
unfolding is_valid is_fine reject_chars is_rejected text_eq
aor-password_example = aor-password alice refl (λ e. ground arith)

-- An agent under each policy, as `create` makes it.
abbrev agent : TransferPolicy → Bool → UserAgent
agent policy installed = record {
  handle = 1;
  registered = false;
  registration_disabled = false;
  transfer_policy = policy;
  policy_installed = installed;
  transfer_call_callbacks = 5 ∷ [];
  listeners = [];
  incoming_callbacks = [];
  incoming_listener = false;
}

abbrev bare_agent : UserAgent
bare_agent = record (agent TransferPolicy.auto true) { transfer_call_callbacks = [] }

abbrev accepting : World
accepting = world CallState.established (turn [] ∷ []) []

hear_policy-Allowed_example :
    (cs : List Command) × ((hear_policy bare_agent
        (heard_at 3 Event.call_transfer (some (codes "<sip:c@d>"))).event
        accepting).1.sent
      ≡ cs)
    × Allowed bare_agent TransferPolicy.auto
        (heard_at 3 Event.call_transfer (some (codes "<sip:c@d>"))).event
        cs
unfolding made new_agent is_disabled
hear_policy-Allowed_example =
    hear_policy-Allowed (Identity.account [] (pos 600)) TransferPolicy.auto (ok (some 1)) bare_agent
      (heard_at 3 Event.call_transfer (some (codes "<sip:c@d>"))).event accepting refl

-- The registrar answers while `register` waits.
abbrev registering : World
registering =
    world CallState.established (turn [] ∷ [])
      ((heard_at 1 Event.register_ok (some (codes "200 OK")) ∷ []) ∷ [])

abbrev words : ℕ → Text
words n = codes "error"

abbrev one_header : List (Text × Text)
one_header = (codes "X-Id", codes "42") ∷ []

dial-sent_example :
    ((dial 1 (codes "sip:c@d") one_header (VideoOffer.plain false) accepting).1 ≡ accepting)
    ⊎ ((c : Command) × ((dial 1
            (codes "sip:c@d")
            one_header
            (VideoOffer.plain false)
            accepting).1.sent
          ≡ c ∷ [])
        × (line_feeds (arguments c) ≡ 1))
dial-sent_example = dial-sent 1 (codes "sip:c@d") one_header (VideoOffer.plain false) accepting

abbrev counting : ℕ → Turn
counting n = record {
  arrivals = [];
  reply = ok (record { ev = 0; payload = Payload.parsed (record no_reply { calls = some n }) });
}

dial-drain_example :
    let w = world CallState.established (turn [] ∷ counting 1 ∷ counting 0 ∷ []) [] in
    (dial 1 (codes "sip:c@d") [] (VideoOffer.plain false) (drain w).1
      ≡ (err Error.value_error, (drain w).1))
    ⊎ (dial 1 (codes "sip:c@d") [] (VideoOffer.plain false) (drain w).1
        ≡ (err Error.draining_error, (drain w).1))
dial-drain_example =
    dial-drain 1 (codes "sip:c@d") [] (VideoOffer.plain false)
      (world CallState.established (turn [] ∷ counting 1 ∷ counting 0 ∷ []) []) refl
