-- ===== src/Call/Listeners/Registration.antt =====
-- Registering and withdrawing a callback of a call.
use baresip_python.Base.{
  ℕ, ◌+◌, ◌<◌, ◌≡◌, refl, ap, ◌∙◌, true, false, List, [], ◌∷◌, ◌++◌, arith, Bool-cases, inl, inr,
  All, All-append, ==_refl,
}
use baresip_python.Call.{Call, Listener}
use baresip_python.Call.Listeners.{
  same_listener, has_listener, drop_listener, on, off, adapter_of, drop_adapter, on_audio_warning,
  off_audio_warning,
}

same_listener_refl : (l : Listener) → same_listener l l ≡ true
unfolding same_listener
same_listener_refl (Listener.callback a) = ground arith
same_listener_refl (Listener.warning_adapter a m) = ground arith
same_listener_refl (Listener.rtcp_adapter a m) = ground arith
same_listener_refl Listener.waiter = refl

drop_listener-append :
    (l : Listener) (xs : List Listener)
    → has_listener l xs ≡ false
    → drop_listener l (xs ++ l ∷ []) ≡ xs
unfolding has_listener drop_listener
drop_listener-append l [] h = rw (same_listener_refl l)
drop_listener-append l (x ∷ xs) h = ground (arith, drop_listener-append l xs)

has_listener-append : (l : Listener) (xs : List Listener) → has_listener l (xs ++ l ∷ []) ≡ true
unfolding has_listener
has_listener-append l [] = rw (same_listener_refl l)
has_listener-append l (x ∷ xs) = ground (arith, has_listener-append l xs)

-- Registering twice is registering once, and withdrawing a listener that was not there before its
-- registration gives the call back as it was.
pub off-on :
    (l : Listener) (c : Call)
    → (on l (on l c) ≡ on l c) × (has_listener l c.listeners ≡ false → off l (on l c) ≡ c)
unfolding on off
off-on l c = elim (Bool-cases (has_listener l c.listeners)) [
  | inl old ↦ (rw (old, on) (rw (old, on)), λ h. absurd (ground arith))
  | inr new ↦ (
    rw (new, on) (rw (has_listener-append l c.listeners, on)),
    λ h.
        rw (new, on)
          (ap (λ ls. record c { listeners = ls }) (drop_listener-append l c.listeners new)),
  )
]

-- The adapters of a call have numbers below the next one.
abbrev pub IsOlder : ℕ → Listener → Type 0
IsOlder n (Listener.callback a) = Unit {0}
IsOlder n (Listener.warning_adapter a m) = m < n
IsOlder n (Listener.rtcp_adapter a m) = m < n
IsOlder n Listener.waiter = Unit {0}

has_older :
    (l n : ℕ) (xs : List Listener)
    → All (IsOlder n) xs
    → has_listener (Listener.warning_adapter l n) xs ≡ false
unfolding has_listener
has_older l n [] a = refl
has_older l n (Listener.callback x ∷ xs) a = has_older l n xs a.1
has_older l n (Listener.warning_adapter x m ∷ xs) a = ground (arith, has_older l n xs a.1)
has_older l n (Listener.rtcp_adapter x m ∷ xs) a = has_older l n xs a.1
has_older l n (Listener.waiter ∷ xs) a = has_older l n xs a.1

-- On a call whose adapters have numbers below the next one, a callback for audio warnings that is
-- registered once and withdrawn leaves the listeners as they were.
pub off_audio_warning-on :
    (l : ℕ) (c : Call)
    → All (IsOlder c.next_adapter) c.listeners
    → (off_audio_warning l (on_audio_warning l c)).listeners ≡ c.listeners
unfolding on_audio_warning off_audio_warning on off adapter_of drop_adapter
off_audio_warning-on l c older =
    let fresh = has_older l c.next_adapter c.listeners older in
    rw (fresh, on_audio_warning, ==_refl l, adapter_of)
      (drop_listener-append (Listener.warning_adapter l c.next_adapter) c.listeners fresh)

All-IsOlder : (n : ℕ) (xs : List Listener) → All (IsOlder n) xs → All (IsOlder (n + 1)) xs
All-IsOlder n [] a = tt
All-IsOlder n (Listener.callback x ∷ xs) a = (tt, All-IsOlder n xs a.1)
All-IsOlder n (Listener.warning_adapter x m ∷ xs) a = (omega arith, All-IsOlder n xs a.1)
All-IsOlder n (Listener.rtcp_adapter x m ∷ xs) a = (omega arith, All-IsOlder n xs a.1)
All-IsOlder n (Listener.waiter ∷ xs) a = (tt, All-IsOlder n xs a.1)

on_audio_warning_lem :
    (l : ℕ) (c : Call)
    → All (IsOlder c.next_adapter) c.listeners
    → ((on_audio_warning l c).listeners
        ≡ c.listeners ++ Listener.warning_adapter l c.next_adapter ∷ [])
      × ((on_audio_warning l c).next_adapter ≡ c.next_adapter + 1)
unfolding on_audio_warning on
on_audio_warning_lem l c older =
    rw (has_older l c.next_adapter c.listeners older, on_audio_warning) (refl, refl)

-- On a call whose adapters have numbers below the next one, a callback for audio warnings that is
-- registered twice and then withdrawn is still registered: the adapter of the first registration
-- stays among the listeners.
pub off_audio_warning-on_twice :
    (l : ℕ) (c : Call)
    → All (IsOlder c.next_adapter) c.listeners
    → (off_audio_warning l (on_audio_warning l (on_audio_warning l c))).listeners
      ≡ c.listeners ++ Listener.warning_adapter l c.next_adapter ∷ []
off_audio_warning-on_twice l c older =
    let (ls, n) = on_audio_warning_lem l c older in
    let both : All (IsOlder (on_audio_warning l c).next_adapter) (on_audio_warning l c).listeners =
      rw (ls, n)
        (All-append (IsOlder (c.next_adapter + 1)) c.listeners
          (Listener.warning_adapter l c.next_adapter ∷ [])
          (All-IsOlder c.next_adapter c.listeners older) (omega arith, tt)) in
    off_audio_warning-on l (on_audio_warning l c) both ∙ ls
