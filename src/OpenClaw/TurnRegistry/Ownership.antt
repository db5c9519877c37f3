-- ===== src/OpenClaw/TurnRegistry/Ownership.antt =====
-- The invariant of the turn registry: every session has one owner and a queue of its own.
use jota_gateway.Prelude.{
  ℕ, ◌<◌, ◌≡◌, refl, inl, inr, true, false, Option, some, [], ◌∷◌, arith, ◌==◌, ℕ_eq, eq_iff,
  Bool-cases, Option-cases, Text, Text_eq, Dict, lookup, has_key, has_key-lookup, has_key-insert,
  has_key-delete, lookup-insert, lookup-delete, member, member-set_add, member-set_discard,
}
use jota_gateway.OpenClaw.Queue.{
  Queue, Item, IsBounded, put_nowait, put_nowait-IsBounded, drain_lem, force_put_total,
}
use jota_gateway.OpenClaw.TurnRegistry.{
  TurnRegistry, new, enrol, deliver, abort_turn, accept, release, error_all, put_errors, write,
  is_owner,
}

pub record IsValid (r : TurnRegistry) : Type 0 where
  pub owned : (sk : Text) → has_key sk r.sessions ≡ has_key sk r.session_owner
  pub fresh : (sk : Text) (ref : ℕ) → lookup sk r.sessions ≡ some ref → ref < r.next_ref
  pub apart :
      (sk sk' : Text) (ref : ℕ)
      → lookup sk r.sessions ≡ some ref
      → lookup sk' r.sessions ≡ some ref
      → sk ≡ sk'
  pub bounded : (ref : ℕ) → IsBounded (r.store ref)
  pub flagged : (sk : Text) → member sk r.overflowed ≡ true → has_key sk r.sessions ≡ true

pub new-IsValid : (size : Option ℕ) → IsValid (new size)
unfolding new has_key lookup member
new-IsValid size = record {
  owned = λ sk. refl;
  fresh = λ sk ref h. cc;
  apart = λ sk sk' ref h k. cc;
  bounded = λ ref. inl refl;
  flagged = λ sk h. h;
}

pub write-IsBounded :
    (ref : ℕ) (q : Queue) (store : ℕ → Queue)
    → IsBounded q
    → ((r : ℕ) → IsBounded (store r))
    → (r : ℕ) → IsBounded (write ref q store r)
write-IsBounded ref q store h k r = elim (Bool-cases (ref == r)) [
  | inl e ↦ rw e h
  | inr e ↦ rw e (k r)
]

-- A session that has a queue is a key of the dictionary.
has_key_of_lookup :
    {V : Type 0} (sk : Text) (d : Dict Text V) {v : V} → lookup sk d ≡ some v → has_key sk d ≡ true
has_key_of_lookup sk d h = ground (arith, has_key-lookup sk d)

pub enrol-IsValid :
    (size : ℕ) (req sk : Text) (r : TurnRegistry)
    → has_key sk r.sessions ≡ false
    → IsValid r
    → IsValid (enrol size req sk r)
unfolding enrol
enrol-IsValid size req sk r new_key v = record {
  owned = λ k. ground (
    arith,
    v.owned k,
    has_key-insert sk k r.next_ref r.sessions,
    has_key-insert sk k req r.session_owner,
  );
  fresh = λ k ref h. ground (arith, lookup-insert sk k r.next_ref r.sessions, v.fresh k ref);
  apart = λ k k' ref h h'. ground (
    arith,
    lookup-insert sk k r.next_ref r.sessions,
    lookup-insert sk k' r.next_ref r.sessions,
    eq_iff sk k,
    eq_iff sk k',
    v.apart k k' ref,
    v.fresh k ref,
    v.fresh k' ref,
  );
  bounded = write-IsBounded r.next_ref _ r.store (ground arith) v.bounded;
  flagged = λ k h. ground (arith, v.flagged k h, has_key-insert sk k r.next_ref r.sessions);
}

pub release-IsValid : (sk req : Text) (r : TurnRegistry) → IsValid r → IsValid (release sk req r)
unfolding release
release-IsValid sk req r v = elim (Bool-cases (is_owner req (lookup sk r.session_owner))) [
  | inr other ↦ rw other v
  | inl mine ↦ rw mine record {
    owned = λ k.
        ground
          (arith, v.owned k, has_key-delete sk k r.sessions, has_key-delete sk k r.session_owner);
    fresh = λ k ref h. ground (arith, lookup-delete sk k r.sessions, v.fresh k ref);
    apart = λ k k' ref h h'.
        ground
          (arith, lookup-delete sk k r.sessions, lookup-delete sk k' r.sessions, v.apart k k' ref);
    bounded = v.bounded;
    flagged = λ k h.
        ground (
          arith,
          member-set_discard sk k r.overflowed,
          v.flagged k,
          has_key-delete sk k r.sessions,
        );
  }
]

abort_turn-IsValid :
    (now ref : ℕ) (sk : Text) (r : TurnRegistry)
    → lookup sk r.sessions ≡ some ref
    → IsValid r
    → IsValid (abort_turn now sk ref r)
unfolding abort_turn put_nowait
abort_turn-IsValid now ref sk r owned v = record {
  owned = v.owned;
  fresh = v.fresh;
  apart = v.apart;
  bounded = write-IsBounded ref _ r.store (rw (drain_lem (r.store ref)) (ground arith)) v.bounded;
  flagged = λ k h. ground (
    arith,
    member-set_add sk k r.overflowed,
    eq_iff sk k,
    v.flagged k,
    has_key_of_lookup sk r.sessions owned,
  );
}

pub deliver-IsValid :
    (now ref : ℕ) (sk : Text) (item : Item) (r : TurnRegistry)
    → lookup sk r.sessions ≡ some ref
    → IsValid r
    → IsValid (deliver now sk ref item r)
unfolding deliver accept
deliver-IsValid now ref sk item r owned v = elim (Bool-cases (member sk r.overflowed)) [
  | inl old ↦ rw old v
  | inr open_turn ↦ elim (Option-cases (put_nowait item (r.store ref))) [
    | inl full ↦ rw (open_turn, full) (abort_turn-IsValid now ref sk r owned v)
    | inr (q, room) ↦
        rw (open_turn, room)
          record {
            owned = v.owned;
            fresh = v.fresh;
            apart = v.apart;
            bounded =
                write-IsBounded ref q r.store
                  (put_nowait-IsBounded item (r.store ref) q (v.bounded ref) room) v.bounded;
            flagged = v.flagged;
          }
  ]
]

put_errors-IsBounded :
    (message : Text) (d : Dict Text ℕ) (store : ℕ → Queue)
    → ((ref : ℕ) → IsBounded (store ref))
    → (ref : ℕ) → IsBounded (put_errors message d store ref)
unfolding put_errors
put_errors-IsBounded message [] store h ref = h ref
put_errors-IsBounded message ((sk, r) ∷ d) store h ref =
    let (kept, e, b) = force_put_total (Item.error message) (store r) in
    put_errors-IsBounded message d _ (write-IsBounded r _ store (rw e b) h) ref

pub error_all-IsValid :
    (message : Text) (r : TurnRegistry) → IsValid r → IsValid (error_all message r)
unfolding error_all has_key lookup member
error_all-IsValid message r v = record {
  owned = λ sk. refl;
  fresh = λ sk ref h. cc;
  apart = λ sk sk' ref h k. cc;
  bounded = put_errors-IsBounded message r.sessions r.store v.bounded;
  flagged = λ sk h. h;
}
