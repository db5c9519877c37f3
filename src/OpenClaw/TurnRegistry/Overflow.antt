-- ===== src/OpenClaw/TurnRegistry/Overflow.antt =====
-- What a slow reader does to its own turn, and to no other.
use jota_gateway.Prelude.{
  ℕ, ◌||◌, ◌+◌, ◌<◌, ◌≡◌, ◌≢◌, refl, Bool, true, false, none, some, List, [], ◌∷◌, ◌++◌, arith,
  if◌then◌else◌, ◌==◌, ℕ_eq, eq_iff, eq_refl, Bool-cases, Option-cases, Text, Text_eq, Dict, lookup,
  lookup-insert, has_key-lookup, member, member-set_add, inl, inr,
}
use jota_gateway.OpenClaw.Queue.{
  Queue, Item, IsBounded, put_nowait, drain_lem, full, force_put, force_put_total,
}
use jota_gateway.OpenClaw.TurnRegistry.{
  TurnRegistry, deliver, deliver_by_session, error_all, put_errors, live, is_aborted, get_or,
  turn_abort_tombstone_ms,
}
use jota_gateway.OpenClaw.TurnRegistry.Ownership.{IsValid, error_all-IsValid}

-- What the queue of a turn holds after a delivery.
abbrev pub after_delivery : Bool → Item → Queue → List Item
after_delivery flagged item q =
    if flagged then q.items else if full q then Item.overflow ∷ [] else q.items ++ item ∷ []

-- A delivery to a session that has a turn says so, and never blocks: the item of a turn that was
-- aborted before is dropped, an item for which there is room goes to the end of the queue, and one
-- for which there is none leaves only the overflow mark there. The turn is flagged for abort
-- exactly if it was before or its queue was full; then late frames are told by a tombstone.
pub deliver_by_session-after_delivery :
    (now ref : ℕ) (sk : Text) (item : Item) (r : TurnRegistry)
    → lookup sk r.sessions ≡ some ref
    → let s = (deliver_by_session now sk item r).1 in
      ((deliver_by_session now sk item r).0 ≡ true)
      × ((s.store ref).items ≡ after_delivery (member sk r.overflowed) item (r.store ref))
      × (member sk s.overflowed ≡ (member sk r.overflowed || full (r.store ref)))
      × (lookup sk s.tombstones ≡ (
          if member sk r.overflowed
          then lookup sk r.tombstones
          else if full (r.store ref)
          then some (now + turn_abort_tombstone_ms)
          else lookup sk r.tombstones))
unfolding deliver_by_session deliver put_nowait
deliver_by_session-after_delivery now ref sk item r there = ground (
  arith,
  drain_lem (r.store ref),
  eq_refl ref,
  eq_refl sk,
  member-set_add sk sk r.overflowed,
  lookup-insert sk sk (now + turn_abort_tombstone_ms) r.tombstones,
)

-- A delivery to a session leaves the queue, the flag and the tombstone of every other session as
-- they were: a slow reader costs nobody else a frame.
pub deliver_by_session-isolated :
    (now ref : ℕ) (sk other : Text) (item : Item) (r : TurnRegistry)
    → IsValid r
    → sk ≢ other
    → lookup other r.sessions ≡ some ref
    → let s = (deliver_by_session now sk item r).1 in
      (lookup other s.sessions ≡ some ref)
      × (s.store ref ≡ r.store ref)
      × (member other s.overflowed ≡ member other r.overflowed)
      × (lookup other s.tombstones ≡ lookup other r.tombstones)
unfolding deliver_by_session deliver put_nowait
deliver_by_session-isolated now ref sk other item r v apart there =
    elim (Option-cases (lookup sk r.sessions)) [
      | inl idle ↦ ground (arith, idle)
      | inr (mine, e) ↦ ground (
        arith,
        e,
        v.apart sk other ref,
        eq_iff mine ref,
        eq_iff sk other,
        member-set_add sk other r.overflowed,
        lookup-insert sk other (now + turn_abort_tombstone_ms) r.tombstones,
      )
    ]

abbrev pub EndsWith : Text → Queue → Type 0
EndsWith message q = (kept : List Item) × (q.items ≡ kept ++ Item.error message ∷ [])

write_error-EndsWith :
    (message : Text) (r : ℕ) (store : ℕ → Queue)
    → EndsWith message (get_or (store r) (force_put (Item.error message) (store r)))
write_error-EndsWith message r store =
    let (kept, e, b) = force_put_total (Item.error message) (store r) in (kept, rw e refl)

-- A queue that ends with the message ends with it for the rest of the loop.
put_errors-EndsWith :
    (message : Text) (d : Dict Text ℕ) (store : ℕ → Queue) (ref : ℕ)
    → EndsWith message (store ref)
    → EndsWith message (put_errors message d store ref)
unfolding put_errors
put_errors-EndsWith message [] store ref h = h
put_errors-EndsWith message ((sk, r) ∷ d) store ref h =
    put_errors-EndsWith message d _ ref (elim (Bool-cases (r == ref)) [
      | inl e ↦ rw e (write_error-EndsWith message r store)
      | inr e ↦ rw e h
    ])

put_errors_reach :
    (message sk : Text) (d : Dict Text ℕ) (store : ℕ → Queue) (ref : ℕ)
    → lookup sk d ≡ some ref
    → EndsWith message (put_errors message d store ref)
unfolding put_errors lookup
put_errors_reach message sk [] store ref h = cc
put_errors_reach message sk ((j, r) ∷ d) store ref h = elim (Bool-cases (j == sk)) [
  | inr miss ↦ put_errors_reach message sk d _ ref (ground (arith, miss))
  | inl hit ↦
      let here : r ≡ ref = ground (arith, hit) in
      put_errors-EndsWith message d _ ref
        (rw (here, eq_refl ref) (write_error-EndsWith message ref store))
]

-- When the connection is lost, the reader of every turn in flight finds the error as the last item
-- of its queue, which stays within its bound, and the registry forgets the turns: each session is
-- free for a new one.
pub error_all-EndsWith :
    (message sk : Text) (ref : ℕ) (r : TurnRegistry)
    → IsValid r
    → lookup sk r.sessions ≡ some ref
    → let s = error_all message r in
      EndsWith message (s.store ref)
      × IsBounded (s.store ref)
      × (lookup sk s.sessions ≡ none)
      × (member sk s.overflowed ≡ false)
unfolding error_all lookup member
error_all-EndsWith message sk ref r v there = (
  put_errors_reach message sk r.sessions r.store ref there,
  (error_all-IsValid message r v).bounded ref,
  refl,
  refl,
)

lookup-live :
    (now : ℕ) (sk : Text) (d : Dict Text ℕ) (deadline : ℕ)
    → lookup sk d ≡ some deadline
    → now < deadline
    → lookup sk (live now d) ≡ some deadline
unfolding live lookup
lookup-live now sk [] deadline h l = cc
lookup-live now sk ((j, t) ∷ d) deadline h l = ground (arith, lookup-live now sk d deadline)

-- Until five seconds after an overflow the frames of the session that no turn takes count as late,
-- whatever is asked of other sessions in the meantime.
pub is_aborted-tombstone :
    (now deadline : ℕ) (sk other : Text) (r : TurnRegistry)
    → lookup sk r.tombstones ≡ some deadline
    → now < deadline
    → ((is_aborted now sk r).0 ≡ true)
      × (lookup sk (is_aborted now other r).1.tombstones ≡ some deadline)
unfolding is_aborted
is_aborted-tombstone now deadline sk other r h l = (
  ground (
    arith,
    lookup-live now sk r.tombstones deadline h l,
    has_key-lookup sk (live now r.tombstones),
  ),
  lookup-live now sk r.tombstones deadline h l,
)
