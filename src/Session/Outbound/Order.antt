-- ===== src/Session/Outbound/Order.antt =====
-- What the client is sent: what was accepted, in order, with no gap.
use jota_gateway.Prelude.{
  ◌≡◌, refl, sym, ap, ◌∙◌, subst, true, false, some, List, [], ◌∷◌, ◌++◌, arith, Bool-cases,
}
use mathlib.Core.Logic.{inl, inr}
use mathlib.Core.List.{append-nil, append_assoc}
use jota_gateway.Session.Outbound.{
  Failure, Sender, Entry, Message, message, flush, stop, new_sender, send, start_flush, count_in,
  count_out, discard_entries, discard_pending, take_entry, handle, end_write, fail_write,
  writer_step, Writer, waiting, writing, finished, WriteResult, written, timed_out, broken,
  start_close, end_close, Action, sends, flushes, writes, starts_close, ends_close, step, run,
  is_open, is_finished,
}

pub messages : List Entry → List Message
messages [] = []
messages (message m ∷ rest) = m ∷ messages rest
messages (_ ∷ rest) = messages rest

messages-snoc :
    (q : List Entry) (e : Entry) → messages (q ++ e ∷ []) ≡ messages q ++ messages (e ∷ [])
unfolding messages
messages-snoc [] e = refl
messages-snoc (message m ∷ q) e = ap (λ l. m ∷ l) (messages-snoc q e)
messages-snoc (flush f ∷ q) e = messages-snoc q e
messages-snoc (stop ∷ q) e = messages-snoc q e

-- What is still to be sent; of a writer that has ended, what was dropped.
abbrev Balance : List Message → List Message → List Entry → Writer → Type 0
Balance accepted sent queue waiting = accepted ≡ sent ++ messages queue
Balance accepted sent queue (writing m) = accepted ≡ sent ++ m ∷ messages queue
Balance accepted sent queue finished = (lost : List Message) × (accepted ≡ sent ++ lost)

abbrev Balanced : Sender → Type 0
Balanced s = Balance s.accepted s.sent s.queue s.writer

grow :
    (a b : List Message) (q : List Entry) (m : Message)
    → a ≡ b ++ messages q
    → a ++ m ∷ [] ≡ b ++ messages (q ++ message m ∷ [])
unfolding messages
grow a b q m e = rw (e, messages-snoc q (message m)) (append_assoc b (messages q) (m ∷ []))

send-Balance :
    (a b : List Message) (q : List Entry) (w : Writer) (m : Message)
    → is_finished w ≡ false
    → Balance a b q w
    → Balance (a ++ m ∷ []) b (q ++ message m ∷ []) w
unfolding messages
send-Balance a b q waiting m h v = grow a b q m v
send-Balance a b q (writing x) m h v =
    rw (v, messages-snoc q (message m)) (append_assoc b (x ∷ messages q) (m ∷ []))
send-Balance a b q finished m h v = cc

other-Balance :
    (a b : List Message) (q : List Entry) (w : Writer) (e : Entry)
    → messages (e ∷ []) ≡ []
    → Balance a b q w
    → Balance a b (q ++ e ∷ []) w
other-Balance a b q waiting e h v = rw (messages-snoc q e, h, append-nil) v
other-Balance a b q (writing x) e h v = rw (messages-snoc q e, h, append-nil) v
other-Balance a b q finished e h v = v

-- However a balance stands, what was sent is where what was accepted begins.
prefix_of :
    (a b : List Message) (q : List Entry) (w : Writer)
    → Balance a b q w
    → (lost : List Message) × (a ≡ b ++ lost)
prefix_of a b q waiting v = (messages q, v)
prefix_of a b q (writing m) v = (m ∷ messages q, v)
prefix_of a b q finished v = v

discard_entries_same :
    (q : List Entry) (s : Sender)
    → ((discard_entries q s).accepted ≡ s.accepted)
      × ((discard_entries q s).sent ≡ s.sent)
      × ((discard_entries q s).writer ≡ s.writer)
unfolding discard_entries count_out
discard_entries_same [] s = (refl, refl, refl)
discard_entries_same (message m ∷ q) s = discard_entries_same q _
discard_entries_same (flush f ∷ q) s = discard_entries_same q _
discard_entries_same (stop ∷ q) s = discard_entries_same q _

-- A writer that ends, for whatever reason, leaves what it has not sent.
ended-Balanced :
    (s t : Sender)
    → t.accepted ≡ s.accepted
    → t.sent ≡ s.sent
    → t.writer ≡ finished
    → Balanced s
    → Balanced t
ended-Balanced s t a b w v =
    rw w (let (lost, e) = prefix_of s.accepted s.sent s.queue s.writer v in (lost, rw (a, b) e))

handle-Balanced :
    (e : Entry) (q : List Entry) (s : Sender)
    → s.queue ≡ e ∷ q
    → s.writer ≡ waiting
    → s.accepted ≡ s.sent ++ messages s.queue
    → Balanced (take_entry (e ∷ q) s)
unfolding take_entry handle count_out messages
handle-Balanced stop q s e w v = (messages s.queue, v)
handle-Balanced (flush f) q s e w v = rw w (rw e at v)
handle-Balanced (message m) q s e w v = rw e at v

fail_write-Balanced : (f : Failure) (s : Sender) → Balanced s → Balanced (fail_write f s)
unfolding fail_write discard_pending
fail_write-Balanced f s v =
    let start : Sender = record s { failure = some f; writer = finished; queue = [] } in
    let (a, b, w) = discard_entries_same s.queue start in
    ended-Balanced s (discard_entries s.queue start) a b w v

fail_write_same :
    (f : Failure) (s : Sender)
    → ((fail_write f s).accepted ≡ s.accepted)
      × ((fail_write f s).sent ≡ s.sent)
      × ((fail_write f s).writer ≡ finished)
unfolding fail_write discard_pending
fail_write_same f s =
    discard_entries_same s.queue (record s { failure = some f; writer = finished; queue = [] })

end_write-Balanced :
    (r : WriteResult) (m : Message) (s : Sender)
    → s.accepted ≡ s.sent ++ m ∷ messages s.queue
    → Balanced s
    → Balanced (end_write r m s)
unfolding end_write
end_write-Balanced written m s e v = e ∙ sym (append_assoc s.sent (m ∷ []) (messages s.queue))
end_write-Balanced timed_out m s e v = fail_write-Balanced Failure.slow s v
end_write-Balanced broken m s e v = fail_write-Balanced Failure.socket s v

end_close-Balanced : (s : Sender) → Balanced s → Balanced (end_close s)
unfolding end_close discard_pending
end_close-Balanced s v =
    let start : Sender = record s { writer = finished; queue = [] } in
    let (a, b, w) = discard_entries_same s.queue start in
    ended-Balanced s (discard_entries s.queue start) a b w v

taken-Balanced :
    (q : List Entry) (s : Sender)
    → s.queue ≡ q
    → s.writer ≡ waiting
    → Balanced s
    → Balanced (take_entry q s)
unfolding take_entry
taken-Balanced [] s e w v = v
taken-Balanced (x ∷ q) s e w v =
    handle-Balanced x q s e w (subst (λ (l : Writer). Balance s.accepted s.sent s.queue l) w v)

writer_step-Balanced : (r : WriteResult) (s : Sender) → Balanced s → Balanced (writer_step r s)
unfolding writer_step take_entry
writer_step-Balanced r s v = go s.writer refl
  where
    go : (w : Writer) → s.writer ≡ w → Balanced (writer_step r s)
    go waiting e = rw (e, writer_step) (taken-Balanced s.queue s refl e v)
    go (writing m) e =
        rw (e, writer_step)
          (end_write-Balanced r m s
            (subst (λ (l : Writer). Balance s.accepted s.sent s.queue l) e v) v)
    go finished e = rw (e, writer_step) v

open_unfinished : (s : Sender) → is_open s ≡ true → is_finished s.writer ≡ false
unfolding is_open
open_unfinished s e = ground arith

step-Balanced : (a : Action) (s : Sender) → Balanced s → Balanced (step a s)
unfolding step send start_flush count_in start_close messages
step-Balanced (sends m) s v = elim (Bool-cases (is_open s)) [
  | inl o ↦ rw o (send-Balance s.accepted s.sent s.queue s.writer m (open_unfinished s o) v)
  | inr c ↦ rw c v
]
step-Balanced (flushes f) s v = elim (Bool-cases (is_open s)) [
  | inl o ↦ rw o (other-Balance s.accepted s.sent s.queue s.writer (flush f) refl v)
  | inr c ↦ rw c v
]
step-Balanced (writes r) s v = writer_step-Balanced r s v
step-Balanced starts_close s v = elim (Bool-cases (is_finished s.writer)) [
  | inl o ↦ rw o v
  | inr c ↦ rw c (other-Balance s.accepted s.sent s.queue s.writer stop refl v)
]
step-Balanced ends_close s v = end_close-Balanced s v

run_from-Balanced : (acts : List Action) (s : Sender) → Balanced s → Balanced (run acts s)
unfolding run
run_from-Balanced [] s v = v
run_from-Balanced (a ∷ rest) s v = run_from-Balanced rest (step a s) (step-Balanced a s v)

-- After any interleaving of sends, flushes, writes and closing, what the client was sent is where
-- the list of the accepted messages begins: nothing is reordered, repeated or left out.
pub run-sent_prefix :
    (acts : List Action)
    → (lost : List Message) × ((run acts new_sender).accepted ≡ (run acts new_sender).sent ++ lost)
unfolding new_sender messages
run-sent_prefix acts =
    prefix_of (run acts new_sender).accepted (run acts new_sender).sent (run acts new_sender).queue
      (run acts new_sender).writer (run_from-Balanced acts new_sender refl)
