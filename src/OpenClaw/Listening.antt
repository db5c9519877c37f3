-- ===== src/OpenClaw/Listening.antt =====
-- services/openclaw/client.py: `_listen` with `_handle_raw_frame`, the answers to a ping among the frames.
-- `loads` stands for `json.loads`; a frame that makes a handler raise is
-- dropped, with what the handler had done until then. Left out: logging, and an `on_disconnect` that
-- raises, which is logged only.
use jota_gateway.Prelude.{
  ℕ, suc, ◌≡◌, Bool, false, Option, none, some, List, [], ◌∷◌, if◌then◌else◌, if_both, Text,
  Text_eq, codes, contains, Json, null, boolean, number, text, object, array, Fields, get_default,
  lookup, set_discard, member,
}
use jota_gateway.OpenClaw.TurnRegistry.{error_all}
use jota_gateway.OpenClaw.TurnRegistry.Ownership.{IsValid}
use jota_gateway.OpenClaw.TurnRegistry.Overflow.{EndsWith, error_all-EndsWith}
use jota_gateway.OpenClaw.Queue.{IsBounded}
use jota_gateway.OpenClaw.Dispatcher.{Dispatcher, dispatch}
use jota_gateway.OpenClaw.Dispatcher.Safety.{dispatch-IsValid}

pub record Listener : Type 0 where
  pub dispatcher : Dispatcher
  -- The requests of `_health_futures` that wait for an answer, and the answers.
  pub futures : List Text
  pub answered : List (Text × Fields)
  -- How often `on_disconnect` was called.
  pub disconnects : ℕ

abbrev pub disconnected_error : Text
disconnected_error = codes "orchestrator_disconnected"

module _ (repr : Json → Text) (loads : Text → Option Json) where
  unfoldable pub to_dispatcher : (now : ℕ) → Fields → Listener → Listener
  to_dispatcher now frame l = record l { dispatcher = (dispatch repr now frame l.dispatcher).state }

  -- By the frame's id: a list or an object is no key of a dictionary.
  unfoldable pub by_id : (now : ℕ) → Fields → Json → Listener → Listener
  unfolding to_dispatcher
  by_id now frame (text i) l =
      if contains i l.futures
      then record l { futures = set_discard i l.futures; answered = (i, frame) ∷ l.answered }
      else to_dispatcher now frame l
  by_id now frame (array is) l = l
  by_id now frame (object fs) l = l
  by_id now frame _ l = to_dispatcher now frame l

  unfoldable pub with_frame : (now : ℕ) → Option Json → Listener → Listener
  unfolding by_id
  with_frame now (some (object frame)) l =
      by_id now frame (get_default (codes "id") (text []) frame) l
  with_frame now _ l = l

  unfoldable pub handle_raw_frame : (now : ℕ) → Text → Listener → Listener
  unfolding with_frame
  handle_raw_frame now raw l = with_frame now (loads raw) l

  unfoldable pub handle_all : List (ℕ × Text) → Listener → Listener
  unfolding handle_raw_frame
  handle_all [] l = l
  handle_all ((now, raw) ∷ rest) l = handle_all rest (handle_raw_frame now raw l)

  -- The end of the connection, after its `finally`.
  unfoldable pub end_listen : (cancelled has_hook : Bool) → Listener → Listener
  end_listen cancelled has_hook l =
      let d = l.dispatcher in
      record l {
        dispatcher = record d { turns = error_all disconnected_error d.turns };
        disconnects =
            if cancelled
            then l.disconnects
            else if has_hook
            then suc l.disconnects
            else l.disconnects;
      }

  unfoldable pub listen : List (ℕ × Text) → (cancelled has_hook : Bool) → Listener → Listener
  unfolding handle_all end_listen
  listen frames cancelled has_hook l = end_listen cancelled has_hook (handle_all frames l)

  by_id-IsValid :
      (now : ℕ) (frame : Fields) (i : Json) (l : Listener)
      → IsValid l.dispatcher.turns
      → IsValid (by_id now frame i l).dispatcher.turns
  unfolding by_id to_dispatcher
  by_id-IsValid now frame (text i) l v =
      if_both (λ (m : Listener). IsValid m.dispatcher.turns) (contains i l.futures) (λ _. v)
        (λ _. (dispatch-IsValid repr now frame l.dispatcher v).0)
  by_id-IsValid now frame (array is) l v = v
  by_id-IsValid now frame (object fs) l v = v
  by_id-IsValid now frame null l v = (dispatch-IsValid repr now frame l.dispatcher v).0
  by_id-IsValid now frame (boolean b) l v = (dispatch-IsValid repr now frame l.dispatcher v).0
  by_id-IsValid now frame (number n) l v = (dispatch-IsValid repr now frame l.dispatcher v).0

  with_frame-IsValid :
      (now : ℕ) (o : Option Json) (l : Listener)
      → IsValid l.dispatcher.turns
      → IsValid (with_frame now o l).dispatcher.turns
  unfolding with_frame
  with_frame-IsValid now none l v = v
  with_frame-IsValid now (some (object frame)) l v = by_id-IsValid now frame _ l v
  with_frame-IsValid now (some null) l v = v
  with_frame-IsValid now (some (boolean b)) l v = v
  with_frame-IsValid now (some (number n)) l v = v
  with_frame-IsValid now (some (text t)) l v = v
  with_frame-IsValid now (some (array is)) l v = v

  handle_all-IsValid :
      (frames : List (ℕ × Text)) (l : Listener)
      → IsValid l.dispatcher.turns
      → IsValid (handle_all frames l).dispatcher.turns
  unfolding handle_all handle_raw_frame
  handle_all-IsValid [] l v = v
  handle_all-IsValid ((now, raw) ∷ rest) l v =
      handle_all-IsValid rest (handle_raw_frame now raw l) (with_frame-IsValid now (loads raw) l v)

  -- G-04: whatever text the orchestrator sends, and however the connection ends, every turn in flight then
  -- finds the error `orchestrator_disconnected` as the last item of its queue, which stays within
  -- its bound, and its session is free for a new turn.
  pub listen-EndsWith :
      (frames : List (ℕ × Text)) (cancelled has_hook : Bool) (l : Listener) (sk : Text) (ref : ℕ)
      → IsValid l.dispatcher.turns
      → lookup sk (handle_all frames l).dispatcher.turns.sessions ≡ some ref
      → let s = (listen frames cancelled has_hook l).dispatcher.turns in
        EndsWith disconnected_error (s.store ref)
        × IsBounded (s.store ref)
        × (lookup sk s.sessions ≡ none)
        × (member sk s.overflowed ≡ false)
  unfolding listen end_listen
  listen-EndsWith frames cancelled has_hook l sk ref v e =
      error_all-EndsWith disconnected_error sk ref (handle_all frames l).dispatcher.turns
        (handle_all-IsValid frames l v) e
