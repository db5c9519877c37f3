-- ===== src/OpenClaw/Queue.antt =====
-- The bounded queue of a turn: what services/openclaw/registry.py uses of `asyncio.Queue`.
-- A `maxsize` of 0 means that the queue has no bound. The oldest item stands first.
use jota_gateway.Prelude.{
  ℕ, zero, suc, ◌≤◌, ◌<◌, ◌≡◌, refl, ◌⊎◌, Bool, ◌&&◌, Option, none, some, List, [], ◌∷◌, ◌++◌,
  arith, ltb, leb, if◌then◌else◌, length, length-append, Text, Fields, inl, inr, Bool-cases,
}

-- The queue message protocol of `TurnRegistry`.
pub data Item : Type 0 where
  chat : Fields → Item
  tool : Fields → Item
  done : Fields → Item
  error : Text → Item
  overflow : Item

pub record Queue : Type 0 where
  pub maxsize : ℕ
  pub items : List Item

abbrev pub full : Queue → Bool
full q = ltb 0 q.maxsize && leb q.maxsize (length q.items)

-- `none` is `asyncio.QueueFull`.
unfoldable pub put_nowait : Item → Queue → Option Queue
put_nowait i q = if full q then none else some (record q { items = q.items ++ i ∷ [] })

-- `none` is `asyncio.QueueEmpty`.
unfoldable pub get_nowait : Queue → Option (Item × Queue)
get_nowait q = elim q.items [ [] ↦ none | i ∷ rest ↦ some (i, record q { items = rest }) ]

-- `while not queue.empty(): queue.get_nowait()`.
drain_items : List Item → List Item
drain_items [] = []
drain_items (i ∷ rest) = drain_items rest

unfoldable pub drain : Queue → Queue
unfolding drain_items
drain q = record q { items = drain_items q.items }

abbrev tail_of : List Item → List Item
tail_of [] = []
tail_of (i ∷ rest) = rest

-- `_force_put`: the `while True` loop, on fuel. `none` means that the fuel ran out.
unfoldable pub force_put_loop : ℕ → Item → Queue → Option Queue
unfolding put_nowait
force_put_loop zero i q = none
force_put_loop (suc fuel) i q =
    let again = force_put_loop fuel i (record q { items = tail_of q.items }) in
    if full q then again else some (record q { items = q.items ++ i ∷ [] })

abbrev pub IsBounded : Queue → Type 0
IsBounded q = (q.maxsize ≡ 0) ⊎ (length q.items ≤ q.maxsize)

drain_items-nil : (l : List Item) → drain_items l ≡ []
unfolding drain_items
drain_items-nil [] = refl
drain_items-nil (i ∷ l) = drain_items-nil l

pub drain_lem : (q : Queue) → drain q ≡ record q { items = [] }
unfolding drain
drain_lem q = ground (arith, drain_items-nil q.items)

pub put_nowait-IsBounded :
    (i : Item) (q r : Queue) → IsBounded q → put_nowait i q ≡ some r → IsBounded r
unfolding put_nowait
put_nowait-IsBounded i q r h e = ground (arith, length-append q.items (i ∷ []))

-- The loop ends as soon as there is room: it needs one round more than there are items.
force_put_loop_total :
    (fuel : ℕ) (i : Item) (m : ℕ) (l : List Item)
    → length l < fuel
    → (kept : List Item) × (force_put_loop fuel i (record { maxsize = m; items = l })
        ≡ some (record { maxsize = m; items = kept ++ i ∷ [] }))
      × ((m ≡ 0) ⊎ (length (kept ++ i ∷ []) ≤ m))
unfolding force_put_loop
force_put_loop_total zero i m l h = absurd (omega arith)
force_put_loop_total (suc fuel) i m [] h = ([], ground arith, ground arith)
force_put_loop_total (suc fuel) i m (x ∷ l) h =
    elim (Bool-cases (ltb 0 m && leb m (suc (length l)))) [
      | inl again ↦
          let (kept, e, b) = force_put_loop_total fuel i m l (omega arith) in (kept, rw again e, b)
      | inr room ↦ (x ∷ l, rw room refl, ground (arith, length-append l (i ∷ [])))
    ]

unfoldable pub force_put : Item → Queue → Option Queue
unfolding force_put_loop
force_put i q = force_put_loop (suc (length q.items)) i q

-- `_force_put` always returns, with the item last and the queue within its bound.
pub force_put_total :
    (i : Item) (q : Queue)
    → (kept : List Item) × (force_put i q ≡ some (record q { items = kept ++ i ∷ [] }))
      × IsBounded (record q { items = kept ++ i ∷ [] })
unfolding force_put
force_put_total i q = force_put_loop_total (suc (length q.items)) i q.maxsize q.items (omega arith)
