-- ===== src/Session/Tracker/Closing.antt =====
-- How a session's tracker ends.
use jota_gateway.Prelude.{
  ℕ, ◌+◌, ◌≡◌, refl, ap, ◌∙◌, Bool, true, false, List, [], ◌∷◌, ◌++◌, Text, codes, text_beq, arith,
  ◌-◌, subst, if_both,
}
use jota_gateway.Session.Tracker.{
  PipelineEvent, PipelineTracker, new_tracker, start_turn, record_event, close_registry, close,
  Call, starts_turn, records, step, run,
}

abbrev one_if : Bool → ℕ
one_if true = 1
one_if false = 0

-- How often `session_end` is among the events, and among what others have recorded.
pub ends : List PipelineEvent → ℕ
ends [] = 0
ends (e ∷ rest) = one_if (text_beq e.stage (codes "session_end")) + ends rest

pub ends_by_others : List Call → ℕ
ends_by_others [] = 0
ends_by_others (records now stage ∷ calls) =
    one_if (text_beq stage (codes "session_end")) + ends_by_others calls
ends_by_others (_ ∷ calls) = ends_by_others calls

ends-append : (a b : List PipelineEvent) → ends (a ++ b) ≡ ends a + ends b
unfolding ends
ends-append [] b = omega arith
ends-append (e ∷ a) b = omega (arith, ends-append a b)

-- The flags count what was done.
record Flagged (others : ℕ) (t : PipelineTracker) : Type 0 where
  end_once : ends t.events ≡ others + one_if t.session_end_recorded
  close_once : t.closes ≡ one_if t.registry_closed
  end_first : t.registry_closed ≡ true → t.session_end_recorded ≡ true

record_event-Flagged :
    (now others : ℕ) (stage : Text) (t : PipelineTracker)
    → Flagged others t
    → Flagged (others + one_if (text_beq stage (codes "session_end"))) (record_event now stage t)
unfolding record_event ends
record_event-Flagged now others stage t v = record {
  end_once = omega (
    arith,
    v.end_once,
    ends-append t.events (
        record {
          stage = stage;
          ts_ms = now - t.started_at;
          elapsed_ms = now - t.last_event_at;
          turn = t.turn;
        }
        ∷ []),
  );
  close_once = v.close_once;
  end_first = v.end_first;
}

close_registry-Flagged :
    (others : ℕ) (t : PipelineTracker)
    → t.session_end_recorded ≡ true
    → Flagged others t
    → Flagged others (close_registry t)
unfolding close_registry
close_registry-Flagged others t e v = ground (arith, e, v)

-- The first `close` records the end under a flag that is set before.
ended-Flagged :
    (now others : ℕ) (t : PipelineTracker)
    → t.session_end_recorded ≡ false
    → Flagged others t
    → Flagged others
        (record_event now (codes "session_end") (record t { session_end_recorded = true }))
unfolding record_event ends text_beq
ended-Flagged now others t e v = record {
  end_once = omega (
    arith,
    v.end_once,
    ap one_if e,
    ends-append t.events (
        record {
          stage = codes "session_end";
          ts_ms = now - t.started_at;
          elapsed_ms = now - t.last_event_at;
          turn = t.turn;
        }
        ∷ []),
  );
  close_once = v.close_once;
  end_first = λ _. refl;
}

close-Flagged :
    (now others : ℕ) (cancelled : Bool) (t : PipelineTracker)
    → Flagged others t
    → Flagged others (close now cancelled t)
unfolding close record_event
close-Flagged now others cancelled t v =
    let ended = record_event now (codes "session_end") (record t { session_end_recorded = true }) in
    if_both (Flagged others) t.session_end_recorded
      (λ again. close_registry-Flagged others t again v)
      (λ first.
        let e = ended-Flagged now others t first v in
        if_both (Flagged others) cancelled (λ _. e)
          (λ _. close_registry-Flagged others ended refl e))

moved : {m n : ℕ} (t : PipelineTracker) → m ≡ n → Flagged m t → Flagged n t
moved t e v = subst (λ (k : ℕ). Flagged k t) e v

start_turn-Flagged :
    (others : ℕ) (t : PipelineTracker) → Flagged others t → Flagged others (start_turn t)
unfolding start_turn
start_turn-Flagged others t v = record {
  end_once = v.end_once;
  close_once = v.close_once;
  end_first = v.end_first;
}

run-Flagged :
    (calls : List Call) (others : ℕ) (t : PipelineTracker)
    → Flagged others t
    → Flagged (others + ends_by_others calls) (run calls t)
unfolding run step ends_by_others
run-Flagged [] others t v = moved t (omega arith) v
run-Flagged (starts_turn ∷ calls) others t v =
    run-Flagged calls others (start_turn t) (start_turn-Flagged others t v)
run-Flagged (records now stage ∷ calls) others t v =
    moved (run calls (record_event now stage t)) (omega arith) (
      run-Flagged calls (others + one_if (text_beq stage (codes "session_end")))
        (record_event now stage t) (record_event-Flagged now others stage t v))
run-Flagged (Call.closes now cancelled ∷ calls) others t v =
    run-Flagged calls others (close now cancelled t) (close-Flagged now others cancelled t v)

close-closes : (now : ℕ) (t : PipelineTracker) → (close now false t).registry_closed ≡ true
unfolding close close_registry record_event
close-closes now t = ground arith

-- Issue #127: however often a session's tracker was closed before, and even if each of those calls
-- was cancelled while it recorded the end, one more `close` that is left to run leaves the registry
-- closed exactly once and exactly one `session_end` recorded by closing.
pub close-once :
    (start now : ℕ) (calls : List Call)
    → let t = close now false (run calls (new_tracker start)) in
      (t.closes ≡ 1) × (ends t.events ≡ ends_by_others calls + 1)
unfolding new_tracker ends
close-once start now calls =
    let t = close now false (run calls (new_tracker start)) in
    let v = close-Flagged now (0 + ends_by_others calls) false (run calls (new_tracker start)) (
      run-Flagged calls 0 (new_tracker start)
        record { end_once = refl; close_once = refl; end_first = λ e. e }) in
    let shut = close-closes now (run calls (new_tracker start)) in
    (v.close_once ∙ ap one_if shut, omega (arith, v.end_once, ap one_if (v.end_first shut)))
