-- ===== src/OpenClaw/ClientRegistry.antt =====
-- services/openclaw/registry.py: `ClientRegistry`. A bridge is known by its identity, a number.
use jota_gateway.Prelude.{
  ℕ, ◌≡◌, ◌≢◌, Bool, false, Option, none, some, List, [], ◌∷◌, arith, if◌then◌else◌, ◌==◌, ℕ_eq,
  eq_iff, Text, Text_eq, Dict, values, lookup, insert, delete, lookup-insert, lookup-delete,
}

abbrev pub ClientRegistry : Type 0
ClientRegistry = Dict Text ℕ

unfoldable pub register : Text → ℕ → ClientRegistry → ClientRegistry
register client_id bridge c = insert client_id bridge c

abbrev is_bridge : ℕ → Option ℕ → Bool
is_bridge bridge none = false
is_bridge bridge (some b) = b == bridge

unfoldable pub unregister : Text → ℕ → ClientRegistry → ClientRegistry
unregister client_id expected c =
    if is_bridge expected (lookup client_id c) then delete client_id c else c

unfoldable pub bridge_of : Text → ClientRegistry → Option ℕ
bridge_of client_id c = lookup client_id c

unfoldable pub bridges : ClientRegistry → List ℕ
bridges c = values c

-- The bridges whose `notify_service_status` is called, and whether the call raised: `raises` says
-- what each does. A session that raises does not stop the loop.
notify_all : (ℕ → Bool) → List ℕ → List (ℕ × Bool)
notify_all raises [] = []
notify_all raises (b ∷ bs) = (b, raises b) ∷ notify_all raises bs

unfoldable pub broadcast_status : (ℕ → Bool) → ClientRegistry → List (ℕ × Bool)
unfolding notify_all bridges
broadcast_status raises c = notify_all raises (bridges c)

-- A reconnect race: a client registers a new bridge while the old one is still registered, and the
-- old one is torn down late. The late `unregister` leaves the new bridge in place, while that of the new bridge removes it.
pub unregister-register_race :
    (client_id : Text) (old new : ℕ) (c : ClientRegistry)
    → old ≢ new
    → let live = register client_id new (register client_id old c) in
      (unregister client_id old live ≡ live)
      × (bridge_of client_id live ≡ some new)
      × (bridge_of client_id (unregister client_id new live) ≡ none)
unfolding register unregister bridge_of
unregister-register_race client_id old new c h = ground (
  arith,
  eq_iff new old,
  eq_iff new new,
  eq_iff client_id client_id,
  lookup-insert client_id client_id new (insert client_id old c),
  lookup-delete client_id client_id (insert client_id new (insert client_id old c)),
)
