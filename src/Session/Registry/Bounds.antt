-- ===== src/Session/Registry/Bounds.antt =====
-- What the registry never evicts, and how far it grows.
use jota_gateway.Prelude.{
  ℕ, suc, ◌≤◌, max, ◌≡◌, ◌≢◌, ◌⊎◌, inl, inr, refl, sym, ap, subst, true, some, List, [], ◌∷◌,
  if◌then◌else◌, ◌==◌, Text, Text_eq, Dict, lookup, insert, delete, length, leb, arith, eq_iff,
  Bool-cases, Option-cases, lookup-insert, lookup-delete,
}
use jota_gateway.Session.Registry.{
  SessionStatus, SessionRecord, SessionRegistry, is_active, evict_ended, evict_if_needed, started,
  register, close, new_registry,
}

lookup-evict_ended :
    (k : Text) (r : SessionRecord) (d : Dict Text SessionRecord)
    → lookup k d ≡ some r
    → is_active r.status ≡ true
    → lookup k (evict_ended d) ≡ some r
unfolding lookup evict_ended
lookup-evict_ended k r [] e a = e
lookup-evict_ended k r ((j, x) ∷ d) e a = elim (Bool-cases (j == k)) [
  | inl same ↦
      let x_is : x ≡ r = ground (arith, e, same) in
      rw (subst (λ (y : SessionRecord). is_active y.status ≡ true) (sym x_is) a, same)
        (ap some x_is)
  | inr other ↦ ground (arith, e, a, other, lookup-evict_ended k r d)
]

-- A session that is active survives the registration of any other.
pub register-active :
    (now : ℕ) (sid client input_mode : Text) (output_mode : List Text) (k : Text)
    (r : SessionRecord) (g : SessionRegistry)
    → sid ≢ k
    → lookup k g.sessions ≡ some r
    → is_active r.status ≡ true
    → lookup k (register now sid client input_mode output_mode g).sessions ≡ some r
unfolding register evict_if_needed
register-active now sid client input_mode output_mode k r g n e a =
    let new = started now client input_mode output_mode in
    let d = insert sid new (delete sid g.sessions) in
    let found : lookup k d ≡ some r = ground (
      arith,
      n,
      e,
      eq_iff sid k,
      lookup-insert sid k new (delete sid g.sessions),
      lookup-delete sid k g.sessions,
    ) in
    elim (Bool-cases (leb (length d) g.maxsize)) [
      | inl fits ↦ rw fits found
      | inr full ↦ rw full (lookup-evict_ended k r d found a)
    ]

pub active_count : Dict Text SessionRecord → ℕ
active_count [] = 0
active_count ((sid, r) ∷ d) = if is_active r.status then suc (active_count d) else active_count d

length-delete : (k : Text) (d : Dict Text SessionRecord) → length (delete k d) ≤ length d
unfolding delete
length-delete k [] = omega arith
length-delete k ((j, r) ∷ d) = ground (arith, length-delete k d)

length-insert :
    (k : Text) (r : SessionRecord) (d : Dict Text SessionRecord)
    → length (insert k r d) ≤ suc (length d)
unfolding insert
length-insert k r [] = omega arith
length-insert k r ((j, x) ∷ d) = ground (arith, length-insert k r d)

length-insert_old :
    (k : Text) (r old : SessionRecord) (d : Dict Text SessionRecord)
    → lookup k d ≡ some old
    → length (insert k r d) ≡ length d
unfolding insert lookup
length-insert_old k r old [] e = cc
length-insert_old k r old ((j, x) ∷ d) e = ground (arith, e, length-insert_old k r old d)

length-evict_ended :
    (d : Dict Text SessionRecord)
    → (suc (length (evict_ended d)) ≡ length d)
      ⊎ (length (evict_ended d) ≤ active_count (evict_ended d))
unfolding evict_ended active_count
length-evict_ended [] = inr (omega arith)
length-evict_ended ((sid, r) ∷ d) = ground (arith, length-evict_ended d)

length-register :
    (now : ℕ) (sid client input_mode : Text) (output_mode : List Text) (g : SessionRegistry)
    → let h = (register now sid client input_mode output_mode g).sessions in
      length h ≤ max g.maxsize (max (length g.sessions) (active_count h))
unfolding register evict_if_needed
length-register now sid client input_mode output_mode g =
    let new = started now client input_mode output_mode in
    let rest = delete sid g.sessions in
    let d = insert sid new rest in
    ground (arith, length-evict_ended d, length-insert sid new rest, length-delete sid g.sessions)

pub data Call : Type 0 where
  registers : (now : ℕ) (sid client input_mode : Text) (output_mode : List Text) → Call
  closes : (now : ℕ) (sid : Text) → SessionStatus → Call

abbrev pub step : Call → SessionRegistry → SessionRegistry
step (registers now sid client input_mode output_mode) g =
    register now sid client input_mode output_mode g
step (closes now sid status) g = close now sid status g

pub run : List Call → SessionRegistry → SessionRegistry
run [] g = g
run (c ∷ calls) g = run calls (step c g)

-- The most sessions that were active at once, in the states that the calls go through.
pub peak : List Call → SessionRegistry → ℕ
peak [] g = active_count g.sessions
peak (c ∷ calls) g = max (active_count g.sessions) (peak calls (step c g))

same_size :
    (now : ℕ) (sid : Text) (status : SessionStatus) (g : SessionRegistry)
    → (length (close now sid status g).sessions ≡ length g.sessions)
      × ((close now sid status g).maxsize ≡ g.maxsize)
unfolding close
same_size now sid status g = elim (Option-cases (lookup sid g.sessions)) [
  | inl absent ↦ rw (close, length, absent) (refl, refl)
  | inr (r, e) ↦ rw (close, length, e) (length-insert_old sid _ r g.sessions e, refl)
]

length-step :
    (c : Call) (g : SessionRegistry)
    → length (step c g).sessions
      ≤ max g.maxsize (max (length g.sessions) (active_count (step c g).sessions))
length-step (registers now sid client input_mode output_mode) g =
    length-register now sid client input_mode output_mode g
length-step (closes now sid status) g = omega (arith, (same_size now sid status g).0)

maxsize-step : (c : Call) (g : SessionRegistry) → (step c g).maxsize ≡ g.maxsize
unfolding register evict_if_needed
maxsize-step (registers now sid client input_mode output_mode) g = ground arith
maxsize-step (closes now sid status) g = (same_size now sid status g).1

active_count-peak :
    (calls : List Call) (g : SessionRegistry) → active_count g.sessions ≤ peak calls g
unfolding peak
active_count-peak [] g = omega arith
active_count-peak (c ∷ calls) g = omega arith

length-run :
    (calls : List Call) (g : SessionRegistry)
    → length (run calls g).sessions ≤ max g.maxsize (max (length g.sessions) (peak calls g))
unfolding run peak
length-run [] g = omega arith
length-run (c ∷ calls) g = omega (
  arith,
  length-run calls (step c g),
  length-step c g,
  maxsize-step c g,
  active_count-peak calls (step c g),
)

-- However sessions are registered and closed, the registry holds no more records than `maxsize`,
-- or than the most sessions that were active at once, whichever is larger.
pub length-run_bound :
    (maxsize : ℕ) (calls : List Call)
    → length (run calls (new_registry maxsize)).sessions
      ≤ max maxsize (peak calls (new_registry maxsize))
unfolding new_registry
length-run_bound maxsize calls = omega (arith, length-run calls (new_registry maxsize))
