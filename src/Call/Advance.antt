-- ===== src/Call/Advance.antt =====
-- Worlds that differ by events only: what the calls' states, subscriptions and handles go through.
use baresip_python.Base.{
  ℕ, ◌≤◌, ◌<◌, ◌≡◌, refl, sym, ◌∙◌, Bool, true, false, List, [], ◌∷◌, ◌++◌, ◌==◌, if◌then◌else◌,
  arith, Bool-cases, inl, inr, all, all-append, and_true,
}
use baresip_python.Call.{Call, Arrival, receive, receive_all}
use baresip_python.Call.Life.{receive_unsubscribed, receive_own, receive_other}
use baresip_python.Wire.{Command}
use baresip_python.World.{
  World, Turn, head_turn, head_wait, rest_turns, rest_waits, command, pause, update, allocate,
  deliver,
}

pub record SameLife (c d : Call) : Type 0 where
  pub state : c.state ≡ d.state
  pub subscribed : c.subscribed ≡ d.subscribed
  pub handle : c.handle ≡ d.handle

receive-SameLife : (a : Arrival) (c d : Call) → SameLife c d → SameLife (receive a c) (receive a d)
receive-SameLife a c d h = elim (Bool-cases d.subscribed) [
  | inr off ↦ rw (receive_unsubscribed a c (h.subscribed ∙ off), receive_unsubscribed a d off) h
  | inl sub ↦ elim (Bool-cases (a.event.call == d.handle)) [
    | inr other ↦ rw (receive_other a c (rw h.handle other), receive_other a d other) h
    | inl own ↦
        let (st, su, hd, oh) = receive_own a c (h.subscribed ∙ sub) (rw h.handle own) in
        let (st', su', hd', oh') = receive_own a d sub own in
        record {
          state = rw (st, st', h.state);
          subscribed = rw (su, su', h.subscribed);
          handle = hd ∙ h.handle ∙ sym hd';
        }
  ]
]

pub receive_all-SameLife :
    (later : List Arrival) (c d : Call)
    → SameLife c d
    → SameLife (receive_all later c) (receive_all later d)
unfolding receive_all
receive_all-SameLife [] c d h = h
receive_all-SameLife (a ∷ later) c d h =
    receive_all-SameLife later (receive a c) (receive a d) (receive-SameLife a c d h)

pub receive_all-append :
    (early later : List Arrival) (c : Call)
    → receive_all (early ++ later) c ≡ receive_all later (receive_all early c)
unfolding receive_all
receive_all-append [] later c = refl
receive_all-append (a ∷ early) later c = receive_all-append early later (receive a c)

-- Every event that the environment has yet to deliver passes the test.
abbrev pub Offers : (Arrival → Bool) → World → Type 0
Offers p w = (all (λ (t : Turn). all p t.arrivals) w.turns ≡ true) × (all (all p) w.waits ≡ true)

turn_offers :
    (p : Arrival → Bool) (ts : List Turn)
    → all (λ (t : Turn). all p t.arrivals) ts ≡ true
    → (all p (head_turn ts).arrivals ≡ true)
      × (all (λ (t : Turn). all p t.arrivals) (rest_turns ts) ≡ true)
turn_offers p [] h = (refl, refl)
turn_offers p (t ∷ ts) h = and_true (all p t.arrivals) _ h

wait_offers :
    (p : Arrival → Bool) (ws : List (List Arrival))
    → all (all p) ws ≡ true
    → (all p (head_wait ws) ≡ true) × (all (all p) (rest_waits ws) ≡ true)
wait_offers p [] h = (refl, refl)
wait_offers p (w ∷ ws) h = and_true (all p w) _ h

-- Some events take every call of the first world to where it stands in the second.
pub record Advances (w v : World) : Type 0 where
  pub arrivals : List Arrival
  pub same : (i : ℕ) → i < w.next_object → SameLife (v.calls i) (receive_all arrivals (w.calls i))
  pub grows : w.next_object ≤ v.next_object
  pub heard : (p : Arrival → Bool) → Offers p w → (all p arrivals ≡ true) × Offers p v

pub Advances-refl : (w : World) → Advances w w
unfolding receive_all
Advances-refl w = record {
  arrivals = [];
  same = λ i h. record { state = refl; subscribed = refl; handle = refl };
  grows = omega arith;
  heard = λ p o. (refl, o);
}

pub Advances-trans : (u v w : World) → Advances u v → Advances v w → Advances u w
Advances-trans u v w p q = record {
  arrivals = p.arrivals ++ q.arrivals;
  same = λ i h.
      let first =
        receive_all-SameLife q.arrivals (v.calls i) (receive_all p.arrivals (u.calls i))
          (p.same i h) in
      let second = q.same i (omega (arith, p.grows)) in
      rw (receive_all-append p.arrivals q.arrivals (u.calls i)) (record {
        state = second.state ∙ first.state;
        subscribed = second.subscribed ∙ first.subscribed;
        handle = second.handle ∙ first.handle;
      });
  grows = omega (arith, p.grows, q.grows);
  heard = λ t o.
      let (early, o') = p.heard t o in
      let (late, o'') = q.heard t o' in (ground (arith, all-append t p.arrivals q.arrivals), o'');
}

pub Advances-command : (c : Command) (w : World) → Advances w (command c w)
unfolding command deliver
Advances-command c w = record {
  arrivals = (head_turn w.turns).arrivals;
  same = λ i h. record { state = refl; subscribed = refl; handle = refl };
  grows = omega arith;
  heard = λ p o. let (a, rest) = turn_offers p w.turns o.0 in (a, (rest, o.1));
}

pub Advances-pause : (w : World) → Advances w (pause w)
unfolding pause deliver
Advances-pause w = record {
  arrivals = head_wait w.waits;
  same = λ i h. record { state = refl; subscribed = refl; handle = refl };
  grows = omega arith;
  heard = λ p o. let (a, rest) = wait_offers p w.waits o.1 in (a, (o.0, rest));
}

pub Advances-update :
    (i : ℕ) (f : Call → Call) (w : World)
    → ((c : Call) → SameLife (f c) c)
    → Advances w (update i f w)
unfolding update receive_all
Advances-update i f w h = record {
  arrivals = [];
  same = λ j lt. elim (Bool-cases (i == j)) [
    | inl hit ↦ rw hit (h (w.calls j))
    | inr miss ↦ rw miss (record { state = refl; subscribed = refl; handle = refl })
  ];
  grows = omega arith;
  heard = λ p o. (refl, o);
}

pub Advances-allocate : (c : Call) (w : World) → Advances w (allocate c w)
unfolding allocate receive_all
Advances-allocate c w = record {
  arrivals = [];
  same = λ j lt.
      let miss : (w.next_object == j) ≡ false = ground arith in
      rw miss (record { state = refl; subscribed = refl; handle = refl });
  grows = omega arith;
  heard = λ p o. (refl, o);
}

pub Advances-if :
    {A : Type 0} (w : World) (b : Bool) (x y : A × World)
    → Advances w x.1
    → Advances w y.1
    → Advances w (if b then x else y).1
Advances-if w true x y p q = p
Advances-if w false x y p q = q
