-- ===== src/OpenClaw/TurnRegistry/Histories.antt =====
-- Every history of calls of the turn registry, those of the readers of its queues included.
use jota_gateway.Prelude.{
  ℕ, ◌≡◌, refl, Option, none, some, List, [], ◌∷◌, arith, Bool-cases, Option-cases, Text, Text_eq,
  lookup, has_key, inl, inr,
}
use jota_gateway.OpenClaw.Queue.{Item, get_nowait}
use jota_gateway.OpenClaw.TurnRegistry.{
  TurnRegistry, new, register, unregister, deliver_by_session, deliver_by_req, is_aborted, pop_peak,
  error_all, write,
}
use jota_gateway.OpenClaw.TurnRegistry.Ownership.{
  IsValid, new-IsValid, enrol-IsValid, release-IsValid, deliver-IsValid, error_all-IsValid,
  write-IsBounded,
}

pub data Call : Type 0 where
  registers : Text → Text → Call
  unregisters : Text → Text → Call
  delivers : Text → Item → Call
  delivers_req : Text → Item → Call
  checks_aborted : Text → Call
  pops_peak : Text → Call
  fails_all : Text → Call
  -- A reader takes the next item of the queue that it holds.
  reads : ℕ → Call

unfoldable pub read : ℕ → TurnRegistry → TurnRegistry
read ref r = elim (get_nowait (r.store ref)) [
  | none ↦ r
  | some (i, q) ↦ record r { store = write ref q r.store }
]

-- A call that raises leaves the registry as it was. The first argument is `TURN_QUEUE_MAX`, the
-- second the time of the call.
unfoldable pub step : ℕ → ℕ → Call → TurnRegistry → TurnRegistry
unfolding read
step size now (registers req sk) r = elim (register size req sk r) [ none ↦ r | some (ref, s) ↦ s ]
step size now (unregisters sk req) r = unregister sk req r
step size now (delivers sk item) r = (deliver_by_session now sk item r).1
step size now (delivers_req req item) r = (deliver_by_req now req item r).1
step size now (checks_aborted sk) r = (is_aborted now sk r).1
step size now (pops_peak sk) r = (pop_peak sk r).1
step size now (fails_all message) r = error_all message r
step size now (reads ref) r = read ref r

unfoldable pub run : ℕ → List (ℕ × Call) → TurnRegistry → TurnRegistry
run size [] r = r
run size ((now, c) ∷ cs) r = run size cs (step size now c r)

pub deliver_by_session-IsValid :
    (now : ℕ) (sk : Text) (item : Item) (r : TurnRegistry)
    → IsValid r
    → IsValid (deliver_by_session now sk item r).1
unfolding deliver_by_session
deliver_by_session-IsValid now sk item r v = elim (Option-cases (lookup sk r.sessions)) [
  | inl none_there ↦ rw (none_there, deliver_by_session) v
  | inr (ref, there) ↦ rw (there, deliver_by_session) (deliver-IsValid now ref sk item r there v)
]

pub deliver_by_req-IsValid :
    (now : ℕ) (req : Text) (item : Item) (r : TurnRegistry)
    → IsValid r
    → IsValid (deliver_by_req now req item r).1
unfolding deliver_by_req
deliver_by_req-IsValid now req item r v = elim (Option-cases (lookup req r.req_to_session)) [
  | inl none_there ↦ rw (none_there, deliver_by_req) v
  | inr (sk, there) ↦ rw (there, deliver_by_req) (deliver_by_session-IsValid now sk item r v)
]

pub is_aborted-IsValid :
    (now : ℕ) (sk : Text) (r : TurnRegistry) → IsValid r → IsValid (is_aborted now sk r).1
unfolding is_aborted
is_aborted-IsValid now sk r v = record {
  owned = v.owned;
  fresh = v.fresh;
  apart = v.apart;
  bounded = v.bounded;
  flagged = v.flagged;
}

read-IsValid : (ref : ℕ) (r : TurnRegistry) → IsValid r → IsValid (read ref r)
unfolding read get_nowait
read-IsValid ref r v = go (r.store ref).items refl
  where
    go : (l : List Item) → (r.store ref).items ≡ l → IsValid (read ref r)
    go [] e = rw (e, read) v
    go (i ∷ l) e =
        rw (e, read)
          record {
            owned = v.owned;
            fresh = v.fresh;
            apart = v.apart;
            bounded = write-IsBounded ref _ r.store (ground (arith, v.bounded ref)) v.bounded;
            flagged = v.flagged;
          }

pub step-IsValid :
    (size now : ℕ) (c : Call) (r : TurnRegistry) → IsValid r → IsValid (step size now c r)
unfolding step register unregister is_aborted pop_peak deliver_by_req
step-IsValid size now (registers req sk) r v = elim (Bool-cases (has_key sk r.sessions)) [
  | inl busy ↦ rw (busy, step) v
  | inr idle ↦ rw (idle, step) (enrol-IsValid _ req sk r idle v)
]
step-IsValid size now (unregisters sk req) r v =
    let s = release-IsValid sk req r v in
    record {
      owned = s.owned;
      fresh = s.fresh;
      apart = s.apart;
      bounded = s.bounded;
      flagged = s.flagged;
    }
step-IsValid size now (delivers sk item) r v = deliver_by_session-IsValid now sk item r v
step-IsValid size now (delivers_req req item) r v = deliver_by_req-IsValid now req item r v
step-IsValid size now (checks_aborted sk) r v = is_aborted-IsValid now sk r v
step-IsValid size now (pops_peak sk) r v = record {
  owned = v.owned;
  fresh = v.fresh;
  apart = v.apart;
  bounded = v.bounded;
  flagged = v.flagged;
}
step-IsValid size now (fails_all message) r v = error_all-IsValid message r v
step-IsValid size now (reads ref) r v = read-IsValid ref r v

run_from-IsValid :
    (size : ℕ) (cs : List (ℕ × Call)) (r : TurnRegistry) → IsValid r → IsValid (run size cs r)
unfolding run
run_from-IsValid size [] r v = v
run_from-IsValid size ((now, c) ∷ cs) r v =
    run_from-IsValid size cs (step size now c r) (step-IsValid size now c r v)

-- After any history of calls from an empty registry, each session key has exactly one owner and a
-- queue of its own, no queue has passed its bound, and no flag of a past turn is left over for
-- the session's next turn.
pub run-IsValid :
    (size : ℕ) (bound : Option ℕ) (cs : List (ℕ × Call)) → IsValid (run size cs (new bound))
run-IsValid size bound cs = run_from-IsValid size cs (new bound) (new-IsValid bound)
