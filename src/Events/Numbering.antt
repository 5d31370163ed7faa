-- ===== src/Events/Numbering.antt =====
-- The enumeration `Event` of src/baresip/events.py. A lookup by value, `Event(n)`, is a search
-- among the members.
use mathlib.Core.Option.{some-injective}
use baresip_python.Base.{
  ℕ, ◌≡◌, refl, Option, none, some, List, [], ◌∷◌, ◌==◌, if◌then◌else◌, Bool-cases, inl, inr,
  ==_iff, ap, sym, ◌∙◌,
}

pub data Event : Type 0 where
  registering register_ok register_fail unregistering fallback_ok fallback_fail : Event
  mwi_notify create shutdown exit call_incoming call_outgoing call_ringing : Event
  call_progress call_answered call_established call_closed call_transfer call_redirect : Event
  call_transfer_failed call_dtmf_start call_dtmf_end call_rtpestab call_rtcp call_menc : Event
  vu_tx vu_rx audio_error call_local_sdp call_remote_sdp call_hold call_resume refer : Event
  module_event end_of_file custom sipsess_conn sipsess_failed audio_warning : Event

unfoldable pub number : Event → ℕ
number Event.registering = 0
number Event.register_ok = 1
number Event.register_fail = 2
number Event.unregistering = 3
number Event.fallback_ok = 4
number Event.fallback_fail = 5
number Event.mwi_notify = 6
number Event.create = 7
number Event.shutdown = 8
number Event.exit = 9
number Event.call_incoming = 10
number Event.call_outgoing = 11
number Event.call_ringing = 12
number Event.call_progress = 13
number Event.call_answered = 14
number Event.call_established = 15
number Event.call_closed = 16
number Event.call_transfer = 17
number Event.call_redirect = 18
number Event.call_transfer_failed = 19
number Event.call_dtmf_start = 20
number Event.call_dtmf_end = 21
number Event.call_rtpestab = 22
number Event.call_rtcp = 23
number Event.call_menc = 24
number Event.vu_tx = 25
number Event.vu_rx = 26
number Event.audio_error = 27
number Event.call_local_sdp = 28
number Event.call_remote_sdp = 29
number Event.call_hold = 30
number Event.call_resume = 31
number Event.refer = 32
number Event.module_event = 33
number Event.end_of_file = 34
number Event.custom = 35
number Event.sipsess_conn = 36
number Event.sipsess_failed = 37
number Event.audio_warning = 900

abbrev pub shim_event_base : ℕ
shim_event_base = 900

abbrev pub members : List Event
members =
    Event.registering ∷ Event.register_ok ∷ Event.register_fail ∷ Event.unregistering
    ∷ Event.fallback_ok ∷ Event.fallback_fail ∷ Event.mwi_notify ∷ Event.create ∷ Event.shutdown
    ∷ Event.exit ∷ Event.call_incoming ∷ Event.call_outgoing ∷ Event.call_ringing
    ∷ Event.call_progress ∷ Event.call_answered ∷ Event.call_established ∷ Event.call_closed
    ∷ Event.call_transfer ∷ Event.call_redirect ∷ Event.call_transfer_failed ∷ Event.call_dtmf_start
    ∷ Event.call_dtmf_end ∷ Event.call_rtpestab ∷ Event.call_rtcp ∷ Event.call_menc ∷ Event.vu_tx
    ∷ Event.vu_rx ∷ Event.audio_error ∷ Event.call_local_sdp ∷ Event.call_remote_sdp
    ∷ Event.call_hold ∷ Event.call_resume ∷ Event.refer ∷ Event.module_event ∷ Event.end_of_file
    ∷ Event.custom ∷ Event.sipsess_conn ∷ Event.sipsess_failed ∷ Event.audio_warning ∷ []

unfoldable pub search_number : ℕ → List Event → Option Event
search_number n [] = none
search_number n (e ∷ es) = if number e == n then some e else search_number n es

-- `Event(n)`; `none` is its ValueError.
unfoldable pub of_number : ℕ → Option Event
unfolding search_number number
of_number n = search_number n members

-- Looking a member's number up gives the member back.
pub of_number-number : (e : Event) → of_number (number e) ≡ some e
unfolding of_number number
of_number-number Event.registering = refl
of_number-number _ = refl

search_number_sound :
    (n : ℕ) (es : List Event) (e : Event) → search_number n es ≡ some e → number e ≡ n
unfolding search_number
search_number_sound n [] e h = cc
search_number_sound n (x ∷ es) e h = elim (Bool-cases (number x == n)) [
  | inl hit ↦
      ap number (sym (some-injective x e (rw (hit, search_number) at h))) ∙ (==_iff _ _).0 hit
  | inr miss ↦ search_number_sound n es e (rw (miss, search_number) at h)
]

-- A member that a lookup gives has that number.
pub number-of_number : (n : ℕ) (e : Event) → of_number n ≡ some e → number e ≡ n
unfolding of_number
number-of_number n e h = search_number_sound n members e h
