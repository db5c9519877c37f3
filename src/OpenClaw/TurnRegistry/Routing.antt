-- ===== src/OpenClaw/TurnRegistry/Routing.antt =====
-- Which turn a frame reaches: by its session key, and by the id of its request.
use jota_gateway.Prelude.{
  ℕ, ◌≡◌, false, none, some, [], ◌∷◌, ◌++◌, arith, ℕ_eq, eq_refl, Text, Text_eq, codes, lookup,
  lookup-insert, lookup-delete, has_key, has_key-insert, member, member-set_discard, has_code,
  last_segment-append,
}
use jota_gateway.OpenClaw.Queue.{Item, put_nowait}
use jota_gateway.OpenClaw.TurnRegistry.{
  TurnRegistry, client_id_from_session_key, make_session_key, enrol, register, release, unregister,
  deliver, deliver_by_session, deliver_by_req, get_or,
}
use jota_gateway.OpenClaw.TurnRegistry.Ownership.{IsValid}

-- The client id comes back out of the session key that the gateway makes of it, whatever the name
-- of the agent, if the client id has no colon.
pub client_id_from_session_key-make_session_key :
    (agent client_id : Text)
    → has_code b':' client_id ≡ false
    → client_id_from_session_key (make_session_key agent client_id) ≡ client_id
unfolding client_id_from_session_key make_session_key
client_id_from_session_key-make_session_key agent client_id h =
    last_segment-append b':' (codes "agent:" ++ agent) client_id h

-- `register` refuses a session that has a turn, and otherwise gives it a fresh, empty queue, which
-- no other session has and which a frame reaches by the session key and by the request id alike.
pub register-deliver_by_req :
    (size now : ℕ) (req sk : Text) (item : Item) (r : TurnRegistry)
    → IsValid r
    → has_key sk r.sessions ≡ false
    → (s : TurnRegistry) × (register size req sk r ≡ some (r.next_ref, s))
      × ((s.store r.next_ref).items ≡ [])
      × (deliver_by_req now req item s ≡ deliver_by_session now sk item s)
      × (((deliver_by_session now sk item s).1.store r.next_ref).items ≡ item ∷ [])
      × (register size req sk s ≡ none)
unfolding register enrol deliver_by_req deliver_by_session deliver put_nowait
register-deliver_by_req size now req sk item r v idle = (
  enrol (get_or size r.max_queue_size) req sk r,
  ground (arith, idle),
  ground (arith, eq_refl r.next_ref),
  ground (arith, lookup-insert req req sk r.req_to_session, eq_refl req),
  ground (
    arith,
    idle,
    v.flagged sk,
    eq_refl r.next_ref,
    eq_refl sk,
    lookup-insert sk sk r.next_ref r.sessions,
  ),
  ground (arith, has_key-insert sk sk r.next_ref r.sessions, eq_refl sk),
)

-- After the turn's own `unregister` the session is free again: no turn, no owner, no flag.
pub unregister_own :
    (sk req : Text) (r : TurnRegistry)
    → lookup sk r.session_owner ≡ some req
    → let s = unregister sk req r in
      (lookup sk s.sessions ≡ none)
      × (lookup sk s.session_owner ≡ none)
      × (member sk s.overflowed ≡ false)
      × (lookup req s.req_to_session ≡ none)
unfolding unregister release
unregister_own sk req r h = ground (
  arith,
  h,
  eq_refl req,
  eq_refl sk,
  lookup-delete sk sk r.sessions,
  lookup-delete sk sk r.session_owner,
  member-set_discard sk sk r.overflowed,
  lookup-delete req req r.req_to_session,
)
