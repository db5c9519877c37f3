-- ===== src/OpenClaw/Connection/Handshake.antt =====
-- What a connection to the orchestrator leaves behind, whatever the server does.
use jota_gateway.Prelude.{
  ◌≤◌, ◌≡◌, refl, sym, ap, Bool, true, false, Option, none, some, List, ◌∷◌, Text, Text_eq, Json,
  array, nil, get, get_default, is_text, Fields, codes, arith, if_both,
}
use jota_gateway.OpenClaw.Frames.{connect_backend, agents_list, sessions_subscribe}
use jota_gateway.OpenClaw.Connection.{
  GatewayInfo, Client, Ids, Script, frame_limit, min_frame_limit, max_frame_limit, and_then, fail,
  subscribe, with_roster, update_agents_from_list, roster_of, greeted, challenged, do_connect,
  recv_matching, take_roster, previous_agents, known_payload, is_truthy,
}

-- G-05: the limit of a frame is never below 1 MiB nor above 64 MiB, whatever was announced.
pub frame_limit-bounds :
    (announced : Json)
    → (min_frame_limit ≤ frame_limit announced) × (frame_limit announced ≤ max_frame_limit)
unfolding frame_limit
frame_limit-bounds announced = (omega arith, omega arith)

-- After a connection that failed there is no socket and no listener; after one that succeeded there are
-- both, with the limit that the server has announced, and the requests were sent in order.
pub Left : Ids → (before : List Fields) → (succeeded : Bool) → Client → Type 0
Left ids before false c = (c.has_socket ≡ false) × (c.listening ≡ false)
Left ids before true c =
    (c.has_socket ≡ true)
    × (c.listening ≡ true)
    × (c.max_size ≡ frame_limit (known_payload c.gateway_info))
    × (c.sent
        ≡ sessions_subscribe ids.subscribe_id
          ∷ agents_list ids.agents_id
          ∷ connect_backend ids.connect_id ids.token
          ∷ before)

-- What a chain that gives a result has come through.
pub and_then-some :
    {A B : Type 0} (o : Option A) (f : A → Option B) (b : B)
    → and_then o f ≡ some b
    → (a : A) × ((o ≡ some a) × (f a ≡ some b))
and_then-some none f b e = ground (arith, e)
and_then-some (some a) f b e = (a, (refl, e))

update_agents_from_list-max_payload :
    (payload : Fields) (g h : GatewayInfo)
    → update_agents_from_list payload g ≡ some h
    → h.max_payload ≡ g.max_payload
unfolding update_agents_from_list
update_agents_from_list-max_payload payload g h e =
    let (ids, (found, made)) =
      and_then-some (roster_of (get_default (codes "agents") (array nil) payload)) _ h e in
    sym (ap known_payload made)

module _ (loads : Text → Option Json) where
  take_roster-max_payload :
      (previous : List Json) (res : Fields) (g h : GatewayInfo)
      → take_roster loads previous res g ≡ some h
      → h.max_payload ≡ g.max_payload
  unfolding take_roster
  take_roster-max_payload previous res g h =
      if_both (λ (o : Option GatewayInfo). o ≡ some h → h.max_payload ≡ g.max_payload)
        (is_truthy (get (codes "ok") res))
        (λ _ e.
          let (payload, (found, made)) = and_then-some _ (λ p. update_agents_from_list p g) h e in
          update_agents_from_list-max_payload payload g h made)
        (λ _ e. sym (ap known_payload e))

  with_roster-Left :
      (ids : Ids) (ack : Option Text) (before : List Fields) (o : Option GatewayInfo) (c : Client)
      → c.has_socket ≡ true
      → c.listening ≡ false
      → ((g : GatewayInfo) → o ≡ some g → c.max_size ≡ frame_limit g.max_payload)
      → c.sent ≡ agents_list ids.agents_id ∷ connect_backend ids.connect_id ids.token ∷ before
      → Left ids before (with_roster loads ids ack o c).0 (with_roster loads ids ack o c).1
  unfolding with_roster Left fail subscribe
  with_roster-Left ids ack before none c h l m s = (refl, l)
  with_roster-Left ids none before (some g) c h l m s = (refl, l)
  with_roster-Left ids (some ack) before (some g) c h l m s = (h, refl, m g refl, rw s refl)

  greeted-Left :
      (ids : Ids) (s : Script) (before : List Fields) (previous : List Json)
      (o : Option GatewayInfo) (c : Client)
      → c.has_socket ≡ true
      → c.listening ≡ false
      → c.sent ≡ connect_backend ids.connect_id ids.token ∷ before
      → Left ids before (greeted loads ids s previous o c).0 (greeted loads ids s previous o c).1
  unfolding greeted Left fail
  greeted-Left ids s before previous none c h l e = (refl, l)
  greeted-Left ids s before previous (some g) c h l e =
      with_roster-Left ids s.subscribed before _ _ h l
        (λ info made.
          let (res, (found, taken)) =
            and_then-some (recv_matching loads ids.agents_id s.frames) _ info made in
          ap frame_limit (sym (take_roster-max_payload previous res g info taken)))
        (rw e refl)

  challenged-Left :
      (ids : Ids) (s : Script) (before : List Fields) (previous : List Json) (o : Option Fields)
      (c : Client)
      → c.has_socket ≡ true
      → c.listening ≡ false
      → c.sent ≡ before
      → Left ids before
          (challenged loads ids s previous o c).0
          (challenged loads ids s previous o c).1
  unfolding challenged Left fail
  challenged-Left ids s before previous none c h l e = (refl, l)
  challenged-Left ids s before previous (some frame) c h l e =
      if_both (λ (r : Bool × Client). Left ids before r.0 r.1)
        (is_text (codes "connect.challenge") (get (codes "event") frame))
        (λ _. greeted-Left ids s before previous _ _ h l (rw e refl)) (λ _. (refl, l))

  -- However the server answers, a connection that fails leaves no socket and no listener, and one
  -- that succeeds leaves both, with the limit of a frame that the server has announced, after
  -- exactly the requests `connect`, `agents.list` and `sessions.subscribe`, in this order.
  pub do_connect-Left :
      (ids : Ids) (s : Script) (c : Client)
      → Left ids c.sent (do_connect loads ids s c).0 (do_connect loads ids s c).1
  unfolding do_connect Left
  do_connect-Left ids s c =
      if_both (λ (r : Bool × Client). Left ids c.sent r.0 r.1) s.opens
        (λ _. challenged-Left ids s c.sent (previous_agents c.gateway_info) _ _ refl refl refl)
        (λ _. (refl, refl))
