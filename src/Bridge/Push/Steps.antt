-- ===== src/Bridge/Push/Steps.antt =====
-- The turns of the agent through every interleaving of its worker, the cuts, the user and the closing.
use jota_gateway.Prelude.{
  ℕ, ◌+◌, ◌≡◌, refl, subst, Bool, true, false, not, ◌&&◌, Option, none, some, List, [], ◌∷◌,
  if◌then◌else◌, ℕ_eq, Text, Text_eq, arith, contains, codes, eq_refl,
}
use jota_gateway.Bridge.Push.{
  Push, Config, Worker, idle, connecting, ending, Cut, no_cut, is_own, same_turn, cutting,
  must_wait, is_idle, dropping, aborting, Event, new_push, is_turn, open_turn, on_push_turn_start,
  tts_connected, close_push_turn, on_push_turn_end, drained, cut_push, tts_dropped, abort_sent,
  enqueue_push, resume, resume_cut, cancel_worker, close_last, handle, task_done, done_if_idle,
  take_event, work, go_on_cut, step, Action, run, start_event, chat_event, tool_event, end_event,
  enqueues, works, cuts, goes_on_cut, user_turn, cancels_worker, closes_last,
}
use jota_gateway.Bridge.Push.Turns.{
  follow, phase, new_push-Followed, Followed, Followed-same, open_turn-Followed,
  close_push_turn-Followed, deliver_push-Followed, deliver_push_tool_call-Followed,
}

-- The number is that of the turn that was opened last.
abbrev pub Tracked : Push → Type 0
Tracked p = (last : ℕ) × Followed p last

quiet :
    {p q : Push}
    → q.log ≡ p.log
    → q.is_open ≡ p.is_open
    → q.push_turn_id ≡ p.push_turn_id
    → q.turn_seq ≡ p.turn_seq
    → Tracked p
    → Tracked q
quiet {p} {q} a b c d (last, v) = (last, Followed-same {p = p} {q = q} a b c d v)

-- The branches of a test and of an option.
tested :
    (b : Bool) {x y : Push}
    → (b ≡ true → Tracked x)
    → (b ≡ false → Tracked y)
    → Tracked (if b then x else y)
tested true f g = f refl
tested false f g = g refl

matched :
    {A : Type 0} (o : Option A) {x : Push} {f : A → Push}
    → Tracked x
    → ((a : A) → o ≡ some a → Tracked (f a))
    → Tracked (elim o [ none ↦ x | some a ↦ f a ])
matched none t f = t
matched (some a) t f = f a refl

closed : (id : ℕ) (p : Push) → Tracked p → Tracked (close_push_turn id p)
closed id p (last, v) = (last, close_push_turn-Followed id p last v)

on_push_turn_start-Tracked :
    (c : Config) (sk : Text) (p : Push) → Tracked p → Tracked (on_push_turn_start c sk p)
unfolding on_push_turn_start
on_push_turn_start-Tracked c sk p (last, v) =
    tested (not c.push_enabled) (λ _. (last, v))
      (λ _.
        tested p.is_open (λ _. (last, v))
          (λ free.
            let opened : Tracked (open_turn sk p) =
              (p.turn_seq + 1, open_turn-Followed sk p last free v) in
            tested (contains (codes "audio") c.output_mode)
              (λ _. quiet {p = open_turn sk p} refl refl refl refl opened) (λ _. opened)))

tts_connected-Tracked :
    (found : Bool) (id : ℕ) (p : Push) → Tracked p → Tracked (tts_connected found id p)
unfolding tts_connected
tts_connected-Tracked found id p t =
    tested (found && is_turn id p) (λ _. quiet {p = p} refl refl refl refl t)
      (λ _. quiet {p = p} refl refl refl refl t)

on_push_turn_end-Tracked : (p : Push) → Tracked p → Tracked (on_push_turn_end p)
unfolding on_push_turn_end
on_push_turn_end-Tracked p t =
    tested p.is_open (λ _. matched p.push_turn_id t (λ id _. quiet {p = p} refl refl refl refl t))
      (λ _. t)

cut_push-Tracked : (expected : Option ℕ) (p : Push) → Tracked p → Tracked (cut_push expected p)
unfolding cut_push
cut_push-Tracked expected p t =
    tested p.is_open
      (λ _. matched p.push_turn_id t (λ id _.
        tested (same_turn expected id) (λ _. quiet {p = p} refl refl refl refl t) (λ _. t)))
      (λ _. t)

tts_dropped-Tracked : (c : Config) (id : ℕ) (p : Push) → Tracked p → Tracked (tts_dropped c id p)
unfolding tts_dropped
tts_dropped-Tracked c id p t =
    tested (is_own c p.push_session_key) (λ _. quiet {p = p} refl refl refl refl t)
      (λ _. closed id _ (quiet {p = p} refl refl refl refl t))

enqueue_push-Tracked : (e : Event) (p : Push) → Tracked p → Tracked (enqueue_push e p)
unfolding enqueue_push
enqueue_push-Tracked e p t = tested p.closing (λ _. t) (λ _. quiet {p = p} refl refl refl refl t)

close_last-Tracked : (p : Push) → Tracked p → Tracked (close_last p)
unfolding close_last
close_last-Tracked p t =
    let q : Tracked (record p { has_tts = false }) = quiet {p = p} refl refl refl refl t in
    matched p.push_turn_id q (λ id _. closed id (record p { has_tts = false }) q)

handle-Tracked :
    (c : Config) (tts_fails : Bool) (e : Event) (p : Push)
    → Tracked p
    → Tracked (handle c tts_fails e p)
unfolding handle
handle-Tracked c tts_fails (start_event sk) p t = on_push_turn_start-Tracked c sk p t
handle-Tracked c tts_fails (chat_event payload) p (last, v) =
    (last, deliver_push-Followed c tts_fails payload p last v)
handle-Tracked c tts_fails (tool_event info) p (last, v) =
    (last, deliver_push_tool_call-Followed c info p last v)
handle-Tracked c tts_fails end_event p t = on_push_turn_end-Tracked p t

task_done-Tracked : (p : Push) → Tracked p → Tracked (task_done p)
unfolding task_done
task_done-Tracked p t = quiet {p = p} refl refl refl refl t

done_if_idle-Tracked : (p : Push) → Tracked p → Tracked (done_if_idle p)
unfolding done_if_idle
done_if_idle-Tracked p t = tested (is_idle p.worker) (λ _. task_done-Tracked p t) (λ _. t)

take_event-Tracked :
    (c : Config) (busy tts_fails : Bool) (q : List Event) (p : Push)
    → Tracked p
    → Tracked (take_event c busy tts_fails q p)
unfolding take_event
take_event-Tracked c busy tts_fails [] p t = t
take_event-Tracked c busy tts_fails (e ∷ rest) p t =
    let start : Push = record p { queue = rest } in
    tested (must_wait busy p.cut e) (λ _. t)
      (λ _.
        done_if_idle-Tracked (handle c tts_fails e start)
          (handle-Tracked c tts_fails e start (quiet {p = p} refl refl refl refl t)))

resumed :
    (c : Config) (busy tts_fails found : Bool) (w : Worker) (p : Push)
    → Tracked p
    → Tracked (resume c busy tts_fails found w p)
unfolding resume drained
resumed c busy tts_fails found idle p t =
    tested p.closing (λ _. t) (λ _. take_event-Tracked c busy tts_fails p.queue p t)
resumed c busy tts_fails found (connecting id) p t =
    task_done-Tracked (tts_connected found id p) (tts_connected-Tracked found id p t)
resumed c busy tts_fails found (ending id) p t =
    let start : Push = record p { worker = idle; has_tts = false } in
    task_done-Tracked (close_push_turn id start)
      (closed id start (quiet {p = p} refl refl refl refl t))

cut_resumed : (c : Config) (w : Cut) (p : Push) → Tracked p → Tracked (resume_cut c w p)
unfolding resume_cut abort_sent
cut_resumed c no_cut p t = t
cut_resumed c (dropping id) p t = tts_dropped-Tracked c id p t
cut_resumed c (aborting id) p t =
    closed id (record p { cut = no_cut }) (quiet {p = p} refl refl refl refl t)

numbered : (p : Push) → Tracked p → Tracked (record p { turn_seq = p.turn_seq + 1 })
numbered p (last, v) =
    (last, record { in_place = v.in_place; old = omega (arith, v.old); known = v.known })

step-Tracked : (c : Config) (a : Action) (p : Push) → Tracked p → Tracked (step c a p)
unfolding step cancel_worker work go_on_cut
step-Tracked c (enqueues e) p t = enqueue_push-Tracked e p t
step-Tracked c (works busy tts_fails found) p t = resumed c busy tts_fails found p.worker p t
step-Tracked c (cuts expected) p t =
    tested (cutting p.cut) (λ _. t) (λ _. cut_push-Tracked expected p t)
step-Tracked c goes_on_cut p t = cut_resumed c p.cut p t
step-Tracked c user_turn p t = numbered p t
step-Tracked c cancels_worker p t = quiet {p = p} refl refl refl refl t
step-Tracked c closes_last p t = close_last-Tracked p t

run_from-Tracked : (c : Config) (acts : List Action) (p : Push) → Tracked p → Tracked (run c acts p)
unfolding run
run_from-Tracked c [] p t = t
run_from-Tracked c (a ∷ rest) p t = run_from-Tracked c rest (step c a p) (step-Tracked c a p t)

-- However the worker, the cuts, the turns of the user and the closing interleave, the frames of the
-- agent's turns are in place: a turn starts only when none is open and with a number that is larger
-- than the last, tokens and tool calls carry the number of the turn that is open, and a turn ends
-- only while it is open, so at most once. After the run, a turn is open for the client exactly if it is for the bridge.
pub run-Tracked : (c : Config) (acts : List Action) → Tracked (run c acts new_push)
run-Tracked c acts = run_from-Tracked c acts new_push (0, new_push-Followed)

ended_lem : (p : Push) → Tracked p → (close_last p).is_open ≡ false
unfolding close_last close_push_turn is_turn
ended_lem p (last, v) = go p.is_open refl
  where
    go : (b : Bool) → p.is_open ≡ b → (close_last p).is_open ≡ false
    go false e = ground (arith, e)
    go true e = rw (close_last, v.known e) (ground (arith, e, eq_refl last))

-- After `close_all`'s last step, whatever came before it, the client is between turns: no turn of the
-- agent that was started is left without its end.
pub run-close_last :
    (c : Config) (acts : List Action)
    → let p = close_last (run c acts new_push) in
      (last : ℕ) × (follow p.log ≡ some (phase false last))
run-close_last c acts =
    let p = run c acts new_push in
    let (last, v) = close_last-Tracked p (run-Tracked c acts) in
    (
      last,
      subst (λ (b : Bool). follow (close_last p).log ≡ some (phase b last))
          (ended_lem p (run-Tracked c acts)) v.in_place,
    )
