-- ===== src/Session/Outbound/Counters.antt =====
-- The counters of the queue, which `queue_stats` reports.
use jota_gateway.Prelude.{ℕ, suc, ◌+◌, ◌≤◌, ◌≡◌, refl, subst, some, List, [], ◌∷◌, ◌++◌, arith}
use jota_gateway.Session.Outbound.{
  Failure, Sender, Entry, Message, message, flush, stop, size_of, new_sender, send, start_flush,
  count_in, count_out, discard_entries, discard_pending, take_entry, handle, end_write, fail_write,
  writer_step, waiting, writing, finished, Writer, WriteResult, written, timed_out, broken,
  start_close, end_close, Action, sends, flushes, writes, starts_close, ends_close, step, run,
}

pub msgs : List Entry → ℕ
msgs [] = 0
msgs (message m ∷ rest) = suc (msgs rest)
msgs (_ ∷ rest) = msgs rest

pub volume : List Entry → ℕ
volume [] = 0
volume (message m ∷ rest) = size_of m + volume rest
volume (_ ∷ rest) = volume rest

pub record Counted (s : Sender) : Type 0 where
  pub msgs_exact : s.pending_msgs ≡ msgs s.queue
  pub bytes_exact : s.pending_bytes ≡ volume s.queue
  pub msgs_peak : s.pending_msgs ≤ s.peak_msgs
  pub bytes_peak : s.pending_bytes ≤ s.peak_bytes

msgs-snoc : (q : List Entry) (e : Entry) → msgs (q ++ e ∷ []) ≡ msgs q + msgs (e ∷ [])
unfolding msgs
msgs-snoc [] e = omega arith
msgs-snoc (message m ∷ q) e = omega (arith, msgs-snoc q e)
msgs-snoc (flush f ∷ q) e = msgs-snoc q e
msgs-snoc (stop ∷ q) e = msgs-snoc q e

volume-snoc : (q : List Entry) (e : Entry) → volume (q ++ e ∷ []) ≡ volume q + volume (e ∷ [])
unfolding volume
volume-snoc [] e = omega arith
volume-snoc (message m ∷ q) e = omega (arith, volume-snoc q e)
volume-snoc (flush f ∷ q) e = volume-snoc q e
volume-snoc (stop ∷ q) e = volume-snoc q e

discard_entries-zero :
    (q : List Entry) (s : Sender)
    → s.pending_msgs ≡ msgs q
    → s.pending_bytes ≡ volume q
    → s.queue ≡ []
    → s.pending_msgs ≤ s.peak_msgs
    → s.pending_bytes ≤ s.peak_bytes
    → Counted (discard_entries q s)
unfolding discard_entries count_out msgs volume
discard_entries-zero [] s a b c d e = record {
  msgs_exact = rw c a;
  bytes_exact = rw c b;
  msgs_peak = d;
  bytes_peak = e;
}
discard_entries-zero (message m ∷ q) s a b c d e =
    discard_entries-zero q _ (omega arith) (omega arith) c (omega arith) (omega arith)
discard_entries-zero (flush f ∷ q) s a b c d e = discard_entries-zero q _ a b c d e
discard_entries-zero (stop ∷ q) s a b c d e = discard_entries-zero q _ a b c d e

take_entry-Counted :
    (q : List Entry) (s : Sender) → s.queue ≡ q → Counted s → Counted (take_entry q s)
unfolding take_entry handle count_out msgs volume
take_entry-Counted [] s e v = v
take_entry-Counted (message m ∷ q) s e v =
    let a : s.pending_msgs ≡ suc (msgs q) =
      subst (λ (l : List Entry). s.pending_msgs ≡ msgs l) e v.msgs_exact in
    let b : s.pending_bytes ≡ size_of m + volume q =
      subst (λ (l : List Entry). s.pending_bytes ≡ volume l) e v.bytes_exact in
    record {
      msgs_exact = omega arith;
      bytes_exact = omega arith;
      msgs_peak = omega (arith, v.msgs_peak);
      bytes_peak = omega (arith, v.bytes_peak);
    }
take_entry-Counted (flush f ∷ q) s e v = record {
  msgs_exact = subst (λ (l : List Entry). s.pending_msgs ≡ msgs l) e v.msgs_exact;
  bytes_exact = subst (λ (l : List Entry). s.pending_bytes ≡ volume l) e v.bytes_exact;
  msgs_peak = v.msgs_peak;
  bytes_peak = v.bytes_peak;
}
take_entry-Counted (stop ∷ q) s e v = record {
  msgs_exact = subst (λ (l : List Entry). s.pending_msgs ≡ msgs l) e v.msgs_exact;
  bytes_exact = subst (λ (l : List Entry). s.pending_bytes ≡ volume l) e v.bytes_exact;
  msgs_peak = v.msgs_peak;
  bytes_peak = v.bytes_peak;
}

discard_pending-Counted :
    (s : Sender)
    → s.pending_msgs ≡ msgs s.queue
    → s.pending_bytes ≡ volume s.queue
    → s.pending_msgs ≤ s.peak_msgs
    → s.pending_bytes ≤ s.peak_bytes
    → Counted (discard_pending s)
unfolding discard_pending
discard_pending-Counted s a b c d = discard_entries-zero s.queue _ a b refl c d

end_write-Counted :
    (r : WriteResult) (m : Message) (s : Sender) → Counted s → Counted (end_write r m s)
unfolding end_write fail_write
end_write-Counted written m s v = record {
  msgs_exact = v.msgs_exact;
  bytes_exact = v.bytes_exact;
  msgs_peak = v.msgs_peak;
  bytes_peak = v.bytes_peak;
}
end_write-Counted timed_out m s v =
    let t =
      discard_pending-Counted (record s { failure = some Failure.slow; writer = finished })
        v.msgs_exact v.bytes_exact v.msgs_peak v.bytes_peak in
    record {
      msgs_exact = t.msgs_exact;
      bytes_exact = t.bytes_exact;
      msgs_peak = t.msgs_peak;
      bytes_peak = t.bytes_peak;
    }
end_write-Counted broken m s v =
    discard_pending-Counted _ v.msgs_exact v.bytes_exact v.msgs_peak v.bytes_peak

writer_step-Counted : (r : WriteResult) (s : Sender) → Counted s → Counted (writer_step r s)
unfolding writer_step
writer_step-Counted r s v = go s.writer refl
  where
    go : (w : Writer) → s.writer ≡ w → Counted (writer_step r s)
    go waiting e = rw (e, writer_step) (take_entry-Counted s.queue s refl v)
    go (writing m) e = rw (e, writer_step) (end_write-Counted r m s v)
    go finished e = rw (e, writer_step) v

step-Counted : (a : Action) (s : Sender) → Counted s → Counted (step a s)
unfolding step send start_flush start_close end_close discard_pending count_in msgs volume
step-Counted (sends m) s v =
    ground (arith, msgs-snoc s.queue (message m), volume-snoc s.queue (message m))
step-Counted (flushes f) s v =
    ground (arith, msgs-snoc s.queue (flush f), volume-snoc s.queue (flush f))
step-Counted (writes r) s v = writer_step-Counted r s v
step-Counted starts_close s v = ground (arith, msgs-snoc s.queue stop, volume-snoc s.queue stop)
step-Counted ends_close s v =
    discard_entries-zero s.queue _ v.msgs_exact v.bytes_exact refl v.msgs_peak v.bytes_peak

run_from-Counted : (acts : List Action) (s : Sender) → Counted s → Counted (run acts s)
unfolding run
run_from-Counted [] s v = v
run_from-Counted (a ∷ rest) s v = run_from-Counted rest (step a s) (step-Counted a s v)

-- After any interleaving of sends, flushes, writes and closing, the two counters are exactly the
-- messages and the binary bytes in the queue, and the peaks were never passed.
pub run-Counted : (acts : List Action) → Counted (run acts new_sender)
unfolding new_sender msgs volume
run-Counted acts = run_from-Counted acts new_sender record {
  msgs_exact = refl;
  bytes_exact = refl;
  msgs_peak = omega arith;
  bytes_peak = omega arith;
}
