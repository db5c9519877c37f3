-- ===== src/Session/Registry.antt =====
-- services/session_registry.py: `SessionRegistry`. The keys of the dict are the records' own ids. A
-- record's `events` and `tracker`, which are the tracker's, are left to Session/Tracker.
pub mod Bounds
use jota_gateway.Prelude.{
  ℕ, ◌+◌, Bool, true, false, Option, none, some, List, [], ◌∷◌, if◌then◌else◌, ◌==◌, Text, Text_eq,
  Dict, lookup, insert, delete, values, length, leb, reverse,
}

pub data SessionStatus : Type 0 where
  active completed error revoked : SessionStatus

abbrev pub is_active : SessionStatus → Bool
is_active active = true
is_active _ = false

pub record SessionRecord : Type 0 where
  pub client_id : Text
  pub input_mode : Text
  pub output_mode : List Text
  pub started_at : ℕ
  pub ended_at : Option ℕ
  pub status : SessionStatus

pub record SessionRegistry : Type 0 where
  pub sessions : Dict Text SessionRecord
  pub maxsize : ℕ

unfoldable pub new_registry : ℕ → SessionRegistry
new_registry maxsize = record { sessions = []; maxsize = maxsize }

-- The loop of `_evict_if_needed`: the oldest session that has ended, if one has.
unfoldable pub evict_ended : Dict Text SessionRecord → Dict Text SessionRecord
evict_ended [] = []
evict_ended ((sid, r) ∷ rest) = if is_active r.status then (sid, r) ∷ evict_ended rest else rest

unfoldable pub evict_if_needed : SessionRegistry → SessionRegistry
unfolding evict_ended
evict_if_needed g =
    if leb (length g.sessions) g.maxsize then g else record g { sessions = evict_ended g.sessions }

unfoldable pub started : ℕ → Text → Text → List Text → SessionRecord
started now client input_mode output_mode = record {
  client_id = client;
  input_mode = input_mode;
  output_mode = output_mode;
  started_at = now;
  ended_at = none;
  status = active;
}

-- `register`, with what it reads of the tracker. A session of the same id is deleted first, so that
-- the new one stands last.
unfoldable pub register :
    (now : ℕ) (sid client input_mode : Text) (output_mode : List Text)
    → SessionRegistry
    → SessionRegistry
unfolding evict_if_needed
register now sid client input_mode output_mode g = evict_if_needed (record g {
  sessions = insert sid (started now client input_mode output_mode) (delete sid g.sessions);
})

unfoldable pub close : (now : ℕ) (sid : Text) → SessionStatus → SessionRegistry → SessionRegistry
close now sid status g = elim (lookup sid g.sessions) [
  | none ↦ g
  | some r ↦ record g {
    sessions = insert sid (record r { status = status; ended_at = some now }) g.sessions;
  }
]

unfoldable pub get_session : Text → SessionRegistry → Option SessionRecord
get_session sid g = lookup sid g.sessions

unfoldable pub get_all : SessionRegistry → List SessionRecord
get_all g = reverse (values g.sessions)
