-- ===== src/Examples/Replies.antt =====
-- Concrete replies of the orchestrator.
use jota_gateway.Prelude.{
  ◌≡◌, ◌≢◌, some, length, refl, true, false, not, ◌&&◌, none, List, [], ◌∷◌, ◌++◌, Text_eq, codes,
  lookup, member, has_key,
}
use jota_gateway.OpenClaw.TurnRegistry.{new, enrol, error_all}
use jota_gateway.OpenClaw.ChatText.{feed, fresh}
use jota_gateway.OpenClaw.ChatText.Streaming.{
  Growth, by_delta, by_snapshot, stream, whole, final_of, stream-fresh,
}
use jota_gateway.OpenClaw.TurnStream.{turn_loop, stream_response, World, token, error}
use jota_gateway.OpenClaw.Orchestration.{
  call_orchestrator, call_orchestrator_lem, heard, tokens_of, upto_error, first_error,
  counted_unless,
}
use jota_gateway.OpenClaw.TurnStream.Endings.{
  completed, heard_end, stream_response-aborts, reply, tokens_text, turn_loop-reply,
}

abbrev mixed : List Growth
mixed = by_delta (codes "Good ") ∷ by_snapshot (codes "morn") ∷ []

stream-fresh_example :
    (stream [] mixed (codes "ing") fresh ≡ whole [] mixed ++ codes "ing")
    × (feed
          (final_of (whole [] mixed ++ codes "ing"))
          (record { emitted = whole [] mixed; current = whole [] mixed; all_out = whole [] mixed })
        ≡ (codes "ing", fresh))
stream-fresh_example = stream-fresh mixed (codes "ing")

turn_loop-reply_example :
    (tokens_text (turn_loop (reply [] mixed (codes "ing")) fresh).events
      ≡ whole [] mixed ++ codes "ing")
    × ((turn_loop (reply [] mixed (codes "ing")) fresh).finished ≡ true)
turn_loop-reply_example = turn_loop-reply mixed (codes "ing")

-- The consumer closes the stream at the token of the final message; another task forgets all turns before.
abbrev closed_early : World
closed_early = record {
  sends = true;
  received = reply [] [] (codes "Hi");
  meanwhile = error_all (codes "gone");
  closes_at = some 0;
  socket_left = true;
}

stream_response-aborts_example :
    let t = stream_response 8 true closed_early (codes "r1") (codes "a:m:k") (new none) in
    let last = error_all (codes "gone") (enrol 8 (codes "r1") (codes "a:m:k") (new none)) in
    (t.aborts ≡ (true && true && not (heard_end (completed closed_early.received) t.events)))
    × (lookup (codes "a:m:k") t.registry.session_owner ≢ some (codes "r1"))
    × (lookup (codes "a:m:k") last.session_owner ≡ some (codes "r1")
        → (lookup (codes "a:m:k") t.registry.sessions ≡ none)
          × (member (codes "a:m:k") t.registry.overflowed ≡ false))
unfolding has_key new
stream_response-aborts_example =
    stream_response-aborts 8 closed_early (codes "r1") (codes "a:m:k") (new none) refl

call_orchestrator_lem_example :
    let es = token (codes "a") ∷ token (codes "b") ∷ error (codes "turn_timeout") ∷ [] in
    let r = call_orchestrator es in
    (heard r ≡ tokens_of (upto_error es))
    × (r.raised ≡ first_error es)
    × (r.counted ≡ counted_unless (first_error es) (length (tokens_of (upto_error es))))
call_orchestrator_lem_example =
    call_orchestrator_lem
      (token (codes "a") ∷ token (codes "b") ∷ error (codes "turn_timeout") ∷ [])
