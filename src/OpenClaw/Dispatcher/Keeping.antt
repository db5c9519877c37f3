-- ===== src/OpenClaw/Dispatcher/Keeping.antt =====
-- What the helpers of every handler of a frame keep.
use jota_gateway.Prelude.{
  ℕ, ◌≡◌, refl, ◌∙◌, Bool, true, false, ◌||◌, List, [], ◌∷◌, ◌++◌, arith, if◌then◌else◌, Bool-cases,
  Option-cases, Text, Text_eq, Json, eq_iff, ◌==◌, inl, inr, member, member-set_add,
}
use jota_gateway.OpenClaw.Queue.{Item}
use jota_gateway.OpenClaw.TurnRegistry.{
  client_id_from_session_key, get_queue_by_session, deliver_by_session, is_aborted,
}
use jota_gateway.OpenClaw.TurnRegistry.Ownership.{IsValid}
use jota_gateway.OpenClaw.TurnRegistry.Histories.{deliver_by_session-IsValid, is_aborted-IsValid}
use jota_gateway.OpenClaw.ClientRegistry.{bridge_of}
use jota_gateway.OpenClaw.Dispatcher.{
  Dispatcher, Push, Outcome, ok, fails, route, push_to, lifecycle, start_push, with_key,
  note_unhandled,
}

member-append : (a : Text) (l r : List Text) → member a (l ++ r) ≡ (member a l || member a r)
unfolding member
member-append a [] r = refl
member-append a (x ∷ l) r = ground (arith, member-append a l r)

member-single : (a b : Text) → member a (b ∷ []) ≡ (b == a)
unfolding member
member-single a b = ground arith

-- No kind stands twice in the log.
abbrev pub IsDistinct : List Text → Type 0
IsDistinct [] = Unit {0}
IsDistinct (x ∷ xs) = (member x xs ≡ false) × IsDistinct xs

-- The kinds that were seen are those in the log, each once.
pub record LogInv (log seen : List Text) : Type 0 where
  pub same : (what : Text) → member what log ≡ member what seen
  pub distinct : IsDistinct log

IsDistinct-snoc :
    (l : List Text) (a : Text) → IsDistinct l → member a l ≡ false → IsDistinct (l ++ a ∷ [])
unfolding member
IsDistinct-snoc [] a h k = (refl, tt)
IsDistinct-snoc (x ∷ l) a h k = (
  ground (arith, member-append x l (a ∷ []), eq_iff x a, eq_iff a x),
  IsDistinct-snoc l a h.1 (ground (arith, eq_iff x a)),
)

-- What every handler keeps: the registry of turns stays valid, the registry of clients as it is.
pub record Keeps (before after : Dispatcher) : Type 0 where
  pub valid : IsValid before.turns → IsValid after.turns
  pub clients_same : after.clients ≡ before.clients
  pub logs : LogInv before.info_log before.unknown_seen → LogInv after.info_log after.unknown_seen

pub Keeps-refl : (d : Dispatcher) → Keeps d d
Keeps-refl d = record { valid = λ v. v; clients_same = refl; logs = λ v. v }

push_to-Keeps : (sk : Text) (p : Push) (d e : Dispatcher) → Keeps d e → Keeps d (push_to sk p e)
unfolding push_to
push_to-Keeps sk p d e k =
    elim (Option-cases (bridge_of (client_id_from_session_key sk) e.clients)) [
      | inl missing ↦ rw (missing, push_to) k
      | inr (b, there) ↦
          rw (there, push_to)
            record { valid = k.valid; clients_same = k.clients_same; logs = k.logs }
    ]

pub route-Keeps :
    (now : ℕ) (sk : Text) (item : Item) (p : Push) (d : Dispatcher)
    → Keeps d (route now sk item p d)
unfolding route
route-Keeps now sk item p d =
    let s = deliver_by_session now sk item d.turns in
    let delivered = λ (v : IsValid d.turns). deliver_by_session-IsValid now sk item d.turns v in
    elim (Bool-cases s.0) [
      | inl owned ↦
          rw (owned, route) record { valid = delivered; clients_same = refl; logs = λ v. v }
      | inr free ↦ elim (Bool-cases (is_aborted now sk s.1).0) [
        | inl late ↦
            rw (free, route, late)
              record {
                valid = λ v. is_aborted-IsValid now sk s.1 (delivered v);
                clients_same = refl;
                logs = λ v. v;
              }
        | inr fresh ↦
            rw (free, route, fresh)
              (push_to-Keeps sk p d (record d { turns = (is_aborted now sk s.1).1 })
                record {
                  valid = λ v. is_aborted-IsValid now sk s.1 (delivered v);
                  clients_same = refl;
                  logs = λ v. v;
                })
      ]
    ]

pub with_key-Keeps :
    (now : ℕ) (act : Text → Dispatcher → Dispatcher) (key : Json) (d : Dispatcher)
    → ((sk : Text) → Keeps d (act sk d))
    → Keeps d (with_key now act key d).state
unfolding with_key
with_key-Keeps now act Json.null d k = Keeps-refl d
with_key-Keeps now act (Json.text sk) d k = k sk
with_key-Keeps now act (Json.boolean b) d k = record {
  valid = is_aborted-IsValid now [] d.turns;
  clients_same = refl;
  logs = λ v. v;
}
with_key-Keeps now act (Json.number n) d k = record {
  valid = is_aborted-IsValid now [] d.turns;
  clients_same = refl;
  logs = λ v. v;
}
with_key-Keeps now act (Json.array xs) d k = Keeps-refl d
with_key-Keeps now act (Json.object fs) d k = Keeps-refl d

start_push-Keeps : (now : ℕ) (sk : Text) (d : Dispatcher) → Keeps d (start_push now sk d)
unfolding start_push
start_push-Keeps now sk d = elim (Option-cases (get_queue_by_session sk d.turns)) [
  | inr (ref, busy) ↦ rw (busy, start_push) (Keeps-refl d)
  | inl free ↦
      let k : Keeps d (record d { turns = (is_aborted now sk d.turns).1 }) = record {
        valid = is_aborted-IsValid now sk d.turns;
        clients_same = refl;
        logs = λ v. v;
      } in
      elim (Bool-cases (is_aborted now sk d.turns).0) [
        | inl late ↦ rw (free, start_push, late) k
        | inr fresh ↦ rw (free, start_push, fresh) (push_to-Keeps sk _ d _ k)
      ]
]

if-Keeps : (b : Bool) (d e f : Dispatcher) → Keeps d e → Keeps d f → Keeps d (if b then e else f)
if-Keeps true d e f h k = h
if-Keeps false d e f h k = k

pub if_state-Keeps :
    (b : Bool) (d : Dispatcher) (e f : Outcome)
    → Keeps d e.state
    → Keeps d f.state
    → Keeps d (if b then e else f).state
if_state-Keeps true d e f h k = h
if_state-Keeps false d e f h k = k

lifecycle-Keeps :
    (now : ℕ) (phase : Json) (sk : Text) (d : Dispatcher) → Keeps d (lifecycle now phase sk d)
unfolding lifecycle
lifecycle-Keeps now phase sk d =
    elim (Option-cases (bridge_of (client_id_from_session_key sk) d.clients)) [
      | inl missing ↦ rw (missing, lifecycle) (Keeps-refl d)
      | inr (b, there) ↦
          rw (there, lifecycle)
            (if-Keeps _ d _ _ (start_push-Keeps now sk d)
              (if-Keeps _ d _ _ (push_to-Keeps sk _ d d (Keeps-refl d)) (Keeps-refl d)))
    ]

pub agent-Keeps :
    (now : ℕ) (phase key : Json) (d : Dispatcher)
    → Keeps d
        (elim key as (λ _. Outcome) [
          | Json.null ↦ ok d
          | Json.text sk ↦ ok (lifecycle now phase sk d)
          | _ ↦ fails d
        ]).state
agent-Keeps now phase Json.null d = Keeps-refl d
agent-Keeps now phase (Json.text sk) d = lifecycle-Keeps now phase sk d
agent-Keeps now phase _ d = Keeps-refl d

pub note_unhandled-Keeps : (what : Text) (d : Dispatcher) → Keeps d (note_unhandled what d)
unfolding note_unhandled
note_unhandled-Keeps what d = elim (Bool-cases (member what d.unknown_seen)) [
  | inl old ↦ rw (old, note_unhandled) (Keeps-refl d)
  | inr new ↦
      rw (new, note_unhandled)
        record {
          valid = λ v. v;
          clients_same = refl;
          logs = λ v. record {
            same = λ other. ground (
              arith,
              v.same other,
              member-append other d.info_log (what ∷ []),
              member-set_add what other d.unknown_seen,
              member-single other what,
              eq_iff what other,
            );
            distinct = IsDistinct-snoc d.info_log what v.distinct (v.same what ∙ new);
          };
        }
]
