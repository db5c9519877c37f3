-- ===== src/Reconnection/Health.antt =====
-- The hook of a service's health fires on transitions, and on nothing else.
use jota_gateway.Prelude.{ℕ, ◌≡◌, ◌≢◌, ◌∙◌, refl, Bool, true, false, List, [], ◌∷◌, arith, Text}
use jota_gateway.Reconnection.{
  ConnectionState, connected, ServiceHealth, set_state, mark_connected, mark_attempt_failed,
  same_state,
}

-- What the wrappers of a service do to its health.
pub data Change : Type 0 where
  sets : ConnectionState → Change
  connects : ℕ → Change
  fails : Text → Change

pub change : Change → ServiceHealth → ServiceHealth
change (sets s) h = set_state s h
change (connects now) h = mark_connected now h
change (fails error) h = mark_attempt_failed error h

pub change_all : List Change → ServiceHealth → ServiceHealth
change_all [] h = h
change_all (c ∷ cs) h = change_all cs (change c h)

-- The state that a history of notifications ends in, and that each differs from the one before.
abbrev pub newest : ConnectionState → List ConnectionState → ConnectionState
newest start [] = start
newest start (s ∷ rest) = s

abbrev pub Alternates : ConnectionState → List ConnectionState → Type 0
Alternates start [] = Unit {0}
Alternates start (s ∷ rest) = (s ≢ newest start rest) × Alternates start rest

record Told (start : ConnectionState) (h : ServiceHealth) : Type 0 where
  hooked : h.hooked ≡ true
  current : newest start h.notified ≡ h.state
  alternates : Alternates start h.notified

same_state-eq : (s t : ConnectionState) → same_state s t ≡ true → s ≡ t
same_state-eq s t h = ground arith

differ : (s t : ConnectionState) → same_state s t ≡ false → s ≢ t
differ s t h = ground arith

set_state-Told :
    (start s : ConnectionState) (h : ServiceHealth) → Told start h → Told start (set_state s h)
unfolding set_state
set_state-Told start s h v = go (same_state s h.state) refl
  where
    go : (b : Bool) → same_state s h.state ≡ b → Told start (set_state s h)
    go true e = rw (e, set_state) v
    go false e =
        rw (e, set_state, v.hooked)
          record {
            hooked = refl;
            current = refl;
            alternates = (λ p. differ s h.state e (p ∙ v.current), v.alternates);
          }

change-Told :
    (start : ConnectionState) (c : Change) (h : ServiceHealth)
    → Told start h
    → Told start (change c h)
unfolding change mark_connected mark_attempt_failed
change-Told start (sets s) h v = set_state-Told start s h v
change-Told start (connects now) h v =
    set_state-Told start connected _
      record { hooked = v.hooked; current = v.current; alternates = v.alternates }
change-Told start (fails error) h v = record {
  hooked = v.hooked;
  current = v.current;
  alternates = v.alternates;
}

change_all-Told :
    (start : ConnectionState) (cs : List Change) (h : ServiceHealth)
    → Told start h
    → Told start (change_all cs h)
unfolding change_all
change_all-Told start [] h v = v
change_all-Told start (c ∷ cs) h v = change_all-Told start cs (change c h) (change-Told start c h v)

-- Whatever a service goes through after its hook was installed, each call of the hook tells a state
-- that differs from the one told before (or from the state at installation), and the last state
-- told is the state that the service is in.
pub change_all-notified :
    (cs : List Change) (h : ServiceHealth)
    → h.hooked ≡ true
    → h.notified ≡ []
    → Alternates h.state (change_all cs h).notified
      × (newest h.state (change_all cs h).notified ≡ (change_all cs h).state)
change_all-notified cs h e f =
    let t =
      change_all-Told h.state cs h
        record { hooked = e; current = rw f refl; alternates = rw f tt } in
    (t.alternates, t.current)
