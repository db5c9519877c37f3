-- ===== src/Speech/Stt/Sending.antt =====
-- services/speech/elevenlabs/stt.py: the buffered audio on its way to the provider, and the two calls of the
-- bridge that send it.
use jota_gateway.Prelude.{
  ℕ, zero, suc, ◌-◌, min, Bool, true, false, not, ◌&&◌, ◌||◌, Option, none, some, List, [], ◌∷◌,
  ◌++◌, if◌then◌else◌, ltb, leb, ◌==◌, ℕ_eq, Text_eq, length, take, drop,
}
use jota_gateway.Speech.Stt.{
  Provider, Session, Upstream, ensure_upstream, find_upstream, max_chunk_bytes, min_chunk_bytes,
  min_commit_gap, set_upstream, trim_buffer,
}

-- `_send_buffer`: the chunks, oldest first, and what is left; the fuel is the number of bytes.
unfoldable pub send_buffer : (fuel : ℕ) → List ℕ → List (List ℕ) × List ℕ
send_buffer zero buf = ([], buf)
send_buffer (suc fuel) buf =
    let n = min (length buf) max_chunk_bytes in
    let (chunks, rest) = send_buffer fuel (drop n buf) in
    if leb min_chunk_bytes (length buf) then (take n buf ∷ chunks, rest) else ([], buf)

abbrev pub log_chunks : List (List ℕ) → List (List ℕ × Bool) → List (List ℕ × Bool)
log_chunks [] log = log
log_chunks (c ∷ cs) log = log_chunks cs ((c, false) ∷ log)

abbrev pub commit_wait : (now : ℕ) → Option ℕ → ℕ
commit_wait now none = 0
commit_wait now (some last) = min_commit_gap - (now - last)

unfoldable pub send_commit : (now : ℕ) → Upstream → Session → Session
unfolding set_upstream
send_commit now u s = record s {
  sent = (s.buf, true) ∷ s.sent;
  buf = [];
  upstreams = set_upstream (record u { final = false; commit_sent = true }) s.upstreams;
  audio_since_commit = false;
  want_commit = false;
  uncommitted = false;
  last_commit_at = some now;
}

unfoldable pub flush_buffer : Session → Session
unfolding send_buffer
flush_buffer s =
    let (chunks, rest) = send_buffer (length s.buf) s.buf in
    record s { buf = rest; sent = log_chunks chunks s.sent }

abbrev pub can_send : Upstream → Bool
can_send u = not u.closing && not u.draining && u.ready

unfoldable pub find_conn : Option ℕ → List Upstream → Option Upstream
unfolding find_upstream
find_conn none us = none
find_conn (some n) us = find_upstream n us

unfoldable pub connected_upstream : Session → Option Upstream
unfolding find_conn
connected_upstream s = find_conn s.conn s.upstreams

unfoldable pub commit_or_wait : (now : ℕ) → Upstream → Session → Session
unfolding send_commit
commit_or_wait now u s =
    if s.want_commit
    then if ltb 0 (commit_wait now s.last_commit_at)
      then record s { commit_scheduled = true }
      else send_commit now u s
    else s

unfoldable pub pump_to : (now : ℕ) → Option Upstream → Session → Session
unfolding flush_buffer commit_or_wait
pump_to now none s = s
pump_to now (some u) s = if can_send u then commit_or_wait now u (flush_buffer s) else s

unfoldable pub pump : (now : ℕ) → Session → Session
unfolding pump_to connected_upstream
pump now s = pump_to now (connected_upstream s) s

abbrev pub is_ready : Option Upstream → Bool
is_ready none = false
is_ready (some u) = u.ready && not u.draining

-- `send_audio` with what the gate forwards, up to the end of a segment.
unfoldable pub send_audio : (now : ℕ) → List ℕ → Provider → Session → Provider × Session
unfolding ensure_upstream pump trim_buffer connected_upstream
send_audio now pcm p s =
    if s.closed || p.terminal || length pcm == 0
    then (p, s)
    else let (q, t) = ensure_upstream now p (record s {
      buf = s.buf ++ pcm;
      uncommitted = true;
      audio_since_commit = true;
      last_fwd = some now;
    }) in
      (
        q,
        if is_ready (connected_upstream t)
            then pump now t
            else record t { buf = trim_buffer t.buf },
      )

unfoldable pub send_end : (now : ℕ) → Provider → Session → Session
unfolding pump
send_end now p s =
    if s.closed || p.terminal || not s.uncommitted
    then s
    else pump now (record s { want_commit = true })
