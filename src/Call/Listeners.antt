-- ===== src/Call/Listeners.antt =====
-- src/baresip/call.py: the application's callbacks of a call, `on` and `off` and their kin.
pub mod Registration
use baresip_python.Base.{
  ℕ, suc, ◌+◌, Bool, true, false, not, ◌&&◌, ◌||◌, Option, none, some, List, [], ◌∷◌, ◌++◌, ◌==◌,
  if◌then◌else◌, contains, without,
}
use baresip_python.Call.{Call, Listener}

-- Equality of what the list of listeners holds.
unfoldable pub same_listener : Listener → Listener → Bool
same_listener (Listener.callback a) (Listener.callback b) = a == b
same_listener (Listener.warning_adapter a m) (Listener.warning_adapter b n) = (a == b) && (m == n)
same_listener (Listener.rtcp_adapter a m) (Listener.rtcp_adapter b n) = (a == b) && (m == n)
same_listener Listener.waiter Listener.waiter = true
same_listener _ _ = false

unfoldable pub has_listener : Listener → List Listener → Bool
unfolding same_listener
has_listener l [] = false
has_listener l (x ∷ xs) = same_listener l x || has_listener l xs

unfoldable pub drop_listener : Listener → List Listener → List Listener
unfolding same_listener
drop_listener l [] = []
drop_listener l (x ∷ xs) = if same_listener l x then xs else x ∷ drop_listener l xs

-- `on`
unfoldable pub on : Listener → Call → Call
unfolding has_listener
on l c = if has_listener l c.listeners then c else record c { listeners = c.listeners ++ l ∷ [] }

-- `off`: a listener that is not there is ignored.
unfoldable pub off : Listener → Call → Call
unfolding drop_listener
off l c = record c { listeners = drop_listener l c.listeners }

unfoldable pub on_transfer_request : ℕ → Call → Call
on_transfer_request l c =
    if contains l c.transfer_req_listeners
    then c
    else record c { transfer_req_listeners = c.transfer_req_listeners ++ l ∷ [] }

unfoldable pub off_transfer_request : ℕ → Call → Call
off_transfer_request l c = record c { transfer_req_listeners = without l c.transfer_req_listeners }

unfoldable pub on_dtmf : ℕ → Call → Call
on_dtmf l c =
    if contains l c.dtmf_listeners
    then c
    else record c { dtmf_listeners = c.dtmf_listeners ++ l ∷ [] }

unfoldable pub off_dtmf : ℕ → Call → Call
off_dtmf l c = record c { dtmf_listeners = without l c.dtmf_listeners }

-- The dictionaries from a callback to its adapter: `d[callback] = adapter`, `d.pop(callback, None)`.
unfoldable pub adapter_of : ℕ → List (ℕ × Listener) → Option Listener
adapter_of l [] = none
adapter_of l ((k, a) ∷ rest) = if k == l then some a else adapter_of l rest

unfoldable pub drop_adapter : ℕ → List (ℕ × Listener) → List (ℕ × Listener)
drop_adapter l [] = []
drop_adapter l ((k, a) ∷ rest) = if k == l then rest else (k, a) ∷ drop_adapter l rest

abbrev pub off_found : Option Listener → Call → Call
off_found none c = c
off_found (some a) c = off a c

-- `on_audio_warning`: each registration makes an adapter of its own.
unfoldable pub on_audio_warning : ℕ → Call → Call
unfolding on drop_adapter
on_audio_warning l c =
    let adapter = Listener.warning_adapter l c.next_adapter in
    on adapter (record c {
      warning_adapters = (l, adapter) ∷ drop_adapter l c.warning_adapters;
      next_adapter = c.next_adapter + 1;
    })

unfoldable pub off_audio_warning : ℕ → Call → Call
unfolding off adapter_of drop_adapter
off_audio_warning l c =
    off_found (adapter_of l c.warning_adapters)
      (record c { warning_adapters = drop_adapter l c.warning_adapters })

unfoldable pub on_rtcp : ℕ → Call → Call
unfolding on drop_adapter
on_rtcp l c =
    let adapter = Listener.rtcp_adapter l c.next_adapter in
    on adapter (record c {
      rtcp_adapters = (l, adapter) ∷ drop_adapter l c.rtcp_adapters;
      next_adapter = c.next_adapter + 1;
    })

unfoldable pub off_rtcp : ℕ → Call → Call
unfolding off adapter_of drop_adapter
off_rtcp l c =
    off_found (adapter_of l c.rtcp_adapters)
      (record c { rtcp_adapters = drop_adapter l c.rtcp_adapters })
