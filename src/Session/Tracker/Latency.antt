-- ===== src/Session/Tracker/Latency.antt =====
-- What the latencies of the turns are measured between.
use jota_gateway.Prelude.{
  ℕ, ◌+◌, ◌≡◌, refl, true, false, ◌&&◌, Option, none, some, List, [], ◌∷◌, ◌++◌, if◌then◌else◌,
  ◌==◌, ℕ_eq, Text, codes, text_beq, Dict, lookup, insert, lookup-insert, arith, eq_iff, reverse,
  text_beq_iff,
}
use jota_gateway.Session.Tracker.{
  PipelineEvent, PipelineTracker, find_first, find_last, finals_dones, turn_e2e_latency, both,
}
use mathlib.Core.List.{reverse-cons}

abbrev or_else : {A : Type 0} → Option A → Option A → Option A
or_else none b = b
or_else (some a) b = some a

abbrev pub time_of : Option PipelineEvent → Option ℕ
time_of none = none
time_of (some e) = some e.ts_ms

abbrev here : Text → ℕ → PipelineEvent → Option PipelineEvent
here stage n e = if text_beq e.stage stage && e.turn == n then some e else none

find_first-append :
    (stage : Text) (n : ℕ) (a b : List PipelineEvent)
    → find_first stage (some n) (a ++ b)
      ≡ or_else (find_first stage (some n) a) (find_first stage (some n) b)
unfolding find_first
find_first-append stage n [] b = refl
find_first-append stage n (e ∷ a) b = ground (arith, find_first-append stage n a b)

find_last-cons :
    (stage : Text) (n : ℕ) (e : PipelineEvent) (rest : List PipelineEvent)
    → find_last stage (some n) (e ∷ rest) ≡ or_else (find_last stage (some n) rest) (here stage n e)
unfolding find_last find_first
find_last-cons stage n e rest =
    rw (reverse-cons e rest) (find_first-append stage n (reverse rest) (e ∷ []))

find_last-nil : (stage : Text) (n : ℕ) → find_last stage (some n) [] ≡ none
unfolding find_last find_first
find_last-nil stage n = refl

abbrev final : Text
final = codes "transcription_final"

abbrev done : Text
done = codes "tts_done"

done_differs : (s : Text) → text_beq s final ≡ true → text_beq s done ≡ false
unfolding text_beq
done_differs s e = rw ((text_beq_iff s final).0 e) refl

lookup-finals :
    (m : ℕ) (es : List PipelineEvent) (finals dones : Dict ℕ ℕ)
    → lookup (m + 1) (finals_dones es finals dones).0
      ≡ or_else (time_of (find_last final (some m) es)) (lookup (m + 1) finals)
unfolding finals_dones
lookup-finals m [] finals dones = rw (find_last-nil final m) refl
lookup-finals m (e ∷ rest) finals dones = ground (
  arith,
  find_last-cons final m e rest,
  eq_iff (e.turn + 1) (m + 1),
  eq_iff e.turn m,
  lookup-insert (e.turn + 1) (m + 1) e.ts_ms finals,
  lookup-finals m rest (insert (e.turn + 1) e.ts_ms finals) dones,
  lookup-finals m rest finals (insert e.turn e.ts_ms dones),
  lookup-finals m rest finals dones,
)

lookup-dones :
    (n : ℕ) (es : List PipelineEvent) (finals dones : Dict ℕ ℕ)
    → lookup n (finals_dones es finals dones).1
      ≡ or_else (time_of (find_last done (some n) es)) (lookup n dones)
unfolding finals_dones
lookup-dones n [] finals dones = rw (find_last-nil done n) refl
lookup-dones n (e ∷ rest) finals dones = ground (
  arith,
  find_last-cons done n e rest,
  done_differs e.stage,
  eq_iff e.turn n,
  lookup-insert e.turn n e.ts_ms dones,
  lookup-dones n rest (insert (e.turn + 1) e.ts_ms finals) dones,
  lookup-dones n rest finals (insert e.turn e.ts_ms dones),
  lookup-dones n rest finals dones,
)

right_none : (a b : Option ℕ) → both (or_else a none) (or_else b none) ≡ both a b
right_none none none = refl
right_none none (some b) = refl
right_none (some a) none = refl
right_none (some a) (some b) = refl

-- Issue #250: the latency of a turn is measured from the last final transcription that was recorded
-- in the turn before to the last end of audio that was recorded in it; it is there if both are.
pub turn_e2e_latency-find_last :
    (m : ℕ) (t : PipelineTracker)
    → turn_e2e_latency (m + 1) t
      ≡ both
          (time_of (find_last final (some m) t.events))
          (time_of (find_last done (some (m + 1)) t.events))
unfolding turn_e2e_latency lookup
turn_e2e_latency-find_last m t =
    rw (lookup-finals m t.events [] [], lookup-dones (m + 1) t.events [] [])
      (right_none (time_of (find_last final (some m) t.events))
        (time_of (find_last done (some (m + 1)) t.events)))
