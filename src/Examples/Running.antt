-- ===== src/Examples/Running.antt =====
-- Programs of the repository on concrete inputs.
use baresip_python.Base.{ℕ, ◌≡◌, refl, none, some, [], ◌∷◌, Text, codes, text_eq}
use baresip_python.Errors.{ok}
use baresip_python.Events.{Payload, pos}
use baresip_python.Events.Numbering.{Event}
use baresip_python.Call.{CallState}
use baresip_python.UserAgent.{
  Identity, create, create_with, policy_of, made, new_agent, is_disabled, register, unregister,
  register_error, unregister_error, confirm, await_registration, first_registration,
  registration_verdict,
}
use baresip_python.Call.Transfer.{new_handle}
use baresip_python.Programs.Bridge.{Bridge, pump}
use baresip_python.Programs.Bridge.Unbroken.{pump-ok}
use baresip_python.Programs.Agent.{run_agent, run_as, serve_as, leave, park}
use baresip_python.Programs.Agent.Unregisters.{Frames, run_agent-Frames}
use baresip_python.World.{World, Turn, command, pause, deliver}
use baresip_python.Examples.Data.{world, turn, heard_at, no_reply}
use baresip_python.Examples.Media.{epoch_only}

abbrev two_streams : Bridge ℕ
two_streams = record {
  source = record { handle = 1; bound_epoch = none };
  target = record { handle = 2; bound_epoch = some 7 };
  side = 3;
}

pump-ok_example : (pump epoch_only 5 (λ s. s) two_streams).0 ≡ ok tt
pump-ok_example = pump-ok epoch_only 5 (λ s. s) two_streams

abbrev allocated : Turn
allocated = record {
  arrivals = [];
  reply = ok (record { ev = 0; payload = Payload.parsed (record no_reply { handle = some 1 }) });
}

-- The agent is allocated, and the registrar answers both requests.
abbrev answered : World
answered =
    world CallState.established
      (allocated
        ∷ turn (heard_at 1 Event.register_ok none ∷ [])
        ∷ turn (heard_at 2 Event.register_ok none ∷ [])
        ∷ [])
      []

abbrev no_words : ℕ → Text
no_words n = []

run_agent-Frames_example :
    Frames
      (Identity.account (codes "<sip:a@b>") (pos 600))
      park
      answered
      (run_agent no_words (Identity.account (codes "<sip:a@b>") (pos 600)) park answered).1
unfolding run_agent create create_with policy_of text_eq command deliver made new_agent is_disabled
    register unregister register_error unregister_error confirm await_registration
    first_registration registration_verdict new_handle park pause run_as serve_as leave
run_agent-Frames_example =
    run_agent-Frames no_words (Identity.account (codes "<sip:a@b>") (pos 600)) park answered refl

-- A caller who hangs up.
abbrev called : World
called =
    world CallState.incoming (turn (heard_at 1 Event.call_established none ∷ []) ∷ turn [] ∷ [])
      ((heard_at 5 Event.call_closed none ∷ []) ∷ [])
