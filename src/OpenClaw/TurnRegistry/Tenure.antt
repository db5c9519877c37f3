-- ===== src/OpenClaw/TurnRegistry/Tenure.antt =====
-- How long a turn keeps its session.
use jota_gateway.Prelude.{
  ℕ, ◌≡◌, refl, Bool, true, false, not, ◌&&◌, some, List, [], ◌∷◌, arith, Option-cases, Text,
  Text_eq, lookup, lookup-insert, lookup-delete, has_key-lookup, inl, inr, ◌==◌, eq_iff, All,
}
use jota_gateway.OpenClaw.Queue.{Item, get_nowait}
use jota_gateway.OpenClaw.TurnRegistry.{
  TurnRegistry, register, enrol, release, unregister, deliver, deliver_by_session, deliver_by_req,
  is_aborted, pop_peak,
}
use jota_gateway.OpenClaw.TurnRegistry.Histories.{
  Call, registers, unregisters, delivers, delivers_req, checks_aborted, pops_peak, fails_all, reads,
  read, step, run,
}

-- The turn `req` owns the session, and its queue is `ref`.
pub record Holds (sk req : Text) (ref : ℕ) (r : TurnRegistry) : Type 0 where
  pub owner : lookup sk r.session_owner ≡ some req
  pub queue : lookup sk r.sessions ≡ some ref

-- Neither the turn's own `unregister` nor the loss of the connection.
unfoldable pub spares : (sk req : Text) → Call → Bool
spares sk req (unregisters sk' req') = not (sk' == sk && req' == req)
spares sk req (fails_all message) = false
spares sk req _ = true

deliver_by_session-Holds :
    (sk req : Text) (ref now : ℕ) (other : Text) (i : Item) (r : TurnRegistry)
    → Holds sk req ref r
    → Holds sk req ref (deliver_by_session now other i r).1
unfolding deliver_by_session deliver
deliver_by_session-Holds sk req ref now other i r h = record {
  owner = ground (arith, h.owner);
  queue = ground (arith, h.queue);
}

read-Holds :
    (sk req : Text) (ref k : ℕ) (r : TurnRegistry)
    → Holds sk req ref r
    → Holds sk req ref (read k r)
unfolding read get_nowait
read-Holds sk req ref k r h = go (r.store k).items refl
  where
    go : (l : List Item) → (r.store k).items ≡ l → Holds sk req ref (read k r)
    go [] e = rw (e, read) h
    go (i ∷ l) e = rw (e, read) record { owner = h.owner; queue = h.queue }

step-Holds :
    (sk req : Text) (ref size now : ℕ) (c : Call) (r : TurnRegistry)
    → spares sk req c ≡ true
    → Holds sk req ref r
    → Holds sk req ref (step size now c r)
unfolding step spares read register enrol unregister release deliver_by_req is_aborted pop_peak
step-Holds sk req ref size now (registers req' sk') r e h = record {
  owner = ground (
    arith,
    h.owner,
    h.queue,
    has_key-lookup sk' r.sessions,
    eq_iff sk' sk,
    lookup-insert sk' sk req' r.session_owner,
  );
  queue = ground (
    arith,
    h.queue,
    has_key-lookup sk' r.sessions,
    eq_iff sk' sk,
    lookup-insert sk' sk r.next_ref r.sessions,
  );
}
step-Holds sk req ref size now (unregisters sk' req') r e h = record {
  owner = ground (
    arith,
    h.owner,
    e,
    eq_iff sk' sk,
    eq_iff req req',
    eq_iff req' req,
    lookup-delete sk' sk r.session_owner,
  );
  queue = ground (
    arith,
    h.owner,
    h.queue,
    e,
    eq_iff sk' sk,
    eq_iff req req',
    eq_iff req' req,
    lookup-delete sk' sk r.sessions,
  );
}
step-Holds sk req ref size now (delivers other i) r e h =
    deliver_by_session-Holds sk req ref now other i r h
step-Holds sk req ref size now (delivers_req other i) r e h =
    elim (Option-cases (lookup other r.req_to_session)) [
      | inl missing ↦ rw (missing, step) h
      | inr (k, there) ↦ rw (there, step) (deliver_by_session-Holds sk req ref now k i r h)
    ]
step-Holds sk req ref size now (checks_aborted other) r e h = record {
  owner = h.owner;
  queue = h.queue;
}
step-Holds sk req ref size now (pops_peak other) r e h = record { owner = h.owner; queue = h.queue }
step-Holds sk req ref size now (fails_all message) r e h = cc
step-Holds sk req ref size now (reads k) r e h = read-Holds sk req ref k r h

-- A turn keeps its session and its queue through every history of calls (registrations, belated
-- unregistrations of other turns, deliveries with overflow, readers, tombstones), until its own
-- `unregister` or the loss of the connection; and a frame of the session still finds its turn then.
pub run-Holds :
    (sk req : Text) (ref size : ℕ) (cs : List (ℕ × Call)) (r : TurnRegistry)
    → All (λ (c : ℕ × Call). spares sk req c.1 ≡ true) cs
    → Holds sk req ref r
    → Holds sk req ref (run size cs r)
      × ((now : ℕ) (i : Item) → (deliver_by_session now sk i (run size cs r)).0 ≡ true)
unfolding run deliver_by_session
run-Holds sk req ref size [] r s h = (h, λ now i. ground (arith, h.queue))
run-Holds sk req ref size ((now, c) ∷ cs) r (e, s) h =
    run-Holds sk req ref size cs (step size now c r) s (step-Holds sk req ref size now c r e h)
