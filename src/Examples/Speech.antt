-- ===== src/Examples/Speech.antt =====
-- Short pieces of audio, and two sessions that share the permits of a provider.
use jota_gateway.Prelude.{ℕ, ◌+◌, ◌≡◌, refl, Bool, true, false, List, [], ◌∷◌, ◌++◌}
use jota_gateway.Speech.Errors.{other}
use jota_gateway.Speech.Pacing.{AudioPacer, frames}
use jota_gateway.Speech.Pacing.{OnTime, frames-OnTime}
use jota_gateway.Speech.Gate.{Sub, feed_all, new_gate, frames_of, feed_all-Sub}
use jota_gateway.Speech.Stt.{Provider, new_session}
use jota_gateway.Speech.Stt.Sending.{send_buffer}
use jota_gateway.Speech.Stt.Buffer.{Sent, send_buffer-Sent}
use jota_gateway.Speech.Stt.Messages.{Action, audio, ends_life, life_done, fails, run}
use jota_gateway.Speech.Stt.Permits.{all_held, run-held}
use jota_gateway.Speech.Stt.Opening.{permits, leaks}

abbrev pacer : AudioPacer
pacer = record { lead = 4800; enabled = true; play_end = 0 }

frames-OnTime_example : OnTime 4800 0 (frames (λ n. n) (1 ∷ 2 ∷ 3 ∷ []) pacer)
frames-OnTime_example = frames-OnTime (λ n. n) (1 ∷ 2 ∷ 3 ∷ []) pacer refl

-- Silence, a word and silence.
abbrev spoken : List (Bool × List ℕ)
spoken = (false, 0 ∷ 0 ∷ 0 ∷ 0 ∷ []) ∷ (true, 1 ∷ 2 ∷ 3 ∷ 4 ∷ []) ∷ (false, 0 ∷ 0 ∷ 0 ∷ 1 ∷ []) ∷ []

feed_all-Sub_example :
    let r = feed_all spoken (new_gate 1 1) in Sub (r.0 ++ r.1.ring) (frames_of spoken)
feed_all-Sub_example = feed_all-Sub 1 1 spoken

send_buffer-Sent_example : Sent (1 ∷ 2 ∷ []) (send_buffer 2 (1 ∷ 2 ∷ []))
send_buffer-Sent_example = send_buffer-Sent (1 ∷ 2 ∷ [])

abbrev provider : Provider
provider = record {
  free = 1;
  terminal = false;
  initial_backoff = 1000;
  capacity_refusals = 0;
  provider_429 = 0;
  auth_errors = 0;
}

-- The first session takes the only permit, the second is refused, and the first gives it back twice.
abbrev shares : List (ℕ × Action)
shares =
    (0, audio 1 (1 ∷ 2 ∷ []))
    ∷ (1, audio 2 (3 ∷ 4 ∷ []))
    ∷ (0, fails 3 other)
    ∷ (0, ends_life 0)
    ∷ (0, life_done 0)
    ∷ []

run-held_example :
    let ss = new_session provider ∷ new_session provider ∷ [] in
    let w = run shares (provider, ss) in
    (w.0.free + all_held permits w.1 ≡ 1 + all_held permits ss)
    × (all_held leaks ss ≡ 0 → all_held leaks w.1 ≡ 0)
run-held_example = run-held shares (provider, new_session provider ∷ new_session provider ∷ [])
