-- ===== src/Bridge/UserTurns/Lives.antt =====
-- The tasks that are not done: what keeps them at one.
use jota_gateway.Prelude.{
  ℕ, ◌≡◌, refl, sym, ◌∙◌, ap, true, false, Option, none, some, List, [], ◌∷◌, ◌==◌, ℕ_eq, eq_iff,
  arith, if_both, Bool-cases, inl, inr, All,
}
use jota_gateway.Bridge.UserTurns.{
  Task, Phase, created, doomed, running, stopping, Holder, free, replacing, cutting, cancelling,
  cancelled, cancel, remove, set_phase, phase_of, is_live, is_id,
}

abbrev pub running_id : Phase → Option ℕ
running_id (running id) = some id
running_id (stopping id) = some id
running_id _ = none

-- At most one task, which is the active turn, and whose turn is the one in `_active_turn_id`.
abbrev pub Matches : List Task → (active_turn active_id : Option ℕ) → Type 0
Matches [] a i = i ≡ none
Matches (t ∷ []) a i = (a ≡ some t.number) × (i ≡ running_id t.phase)
Matches (t ∷ _) a i = ⊥

-- A turn is replaced when it is the only one, and a task is only created when there is none.
abbrev pub Cleared : Holder → List Task → Type 0
Cleared (replacing text n) live = All (λ t. t.number ≡ n) live
Cleared (cutting text) live = live ≡ []
Cleared _ live = Unit {0}

cancelled-running_id : (ph : Phase) → running_id (cancelled ph) ≡ running_id ph
cancelled-running_id created = refl
cancelled-running_id doomed = refl
cancelled-running_id (running id) = refl
cancelled-running_id (stopping id) = refl

pub cancel-Matches :
    (n : ℕ) (live : List Task) (a i : Option ℕ) → Matches live a i → Matches (cancel n live) a i
unfolding cancel
cancel-Matches n [] a i m = m
cancel-Matches n (t ∷ []) a i (p, q) =
    if_both (λ l. Matches l a i) (t.number == n) (λ e. (p, q ∙ sym (cancelled-running_id t.phase)))
      (λ e. (p, q))
cancel-Matches n (t ∷ (_ ∷ _)) a i m = elim m [ ]

-- What an operation does on the list of tasks keeps `Cleared`, if it adds none and keeps the numbers.
pub record Keeps (f : List Task → List Task) : Type 0 where
  pub no_more : f [] ≡ []
  pub same_numbers :
      (n : ℕ) (live : List Task) → All (λ t. t.number ≡ n) live → All (λ t. t.number ≡ n) (f live)

Keeps-Cleared :
    (f : List Task → List Task)
    → Keeps f
    → (h : Holder) (live : List Task) → Cleared h live
    → Cleared h (f live)
Keeps-Cleared f k free live c = tt
Keeps-Cleared f k (replacing text m) live c = k.same_numbers m live c
Keeps-Cleared f k (cutting text) live c = rw c k.no_more
Keeps-Cleared f k (cancelling m id) live c = tt

pub cancel-Keeps : (n : ℕ) → Keeps (cancel n)
unfolding cancel
cancel-Keeps n = record { no_more = refl; same_numbers = go }
  where
    go :
        (m : ℕ) (live : List Task)
        → All (λ t. t.number ≡ m) live
        → All (λ t. t.number ≡ m) (cancel n live)
    go m [] a = a
    go m (t ∷ ts) (e, a) =
        if_both (All (λ u. u.number ≡ m)) (t.number == n) (λ s. (e, a)) (λ s. (e, go m ts a))

pub remove-Keeps : (n : ℕ) → Keeps (remove n)
unfolding remove
remove-Keeps n = record { no_more = refl; same_numbers = go }
  where
    go :
        (m : ℕ) (live : List Task)
        → All (λ t. t.number ≡ m) live
        → All (λ t. t.number ≡ m) (remove n live)
    go m [] a = a
    go m (t ∷ ts) (e, a) =
        if_both (All (λ u. u.number ≡ m)) (t.number == n) (λ s. a) (λ s. (e, go m ts a))

set_phase-Keeps : (n : ℕ) (ph : Phase) → Keeps (set_phase n ph)
unfolding set_phase
set_phase-Keeps n ph = record { no_more = refl; same_numbers = go }
  where
    go :
        (m : ℕ) (live : List Task)
        → All (λ t. t.number ≡ m) live
        → All (λ t. t.number ≡ m) (set_phase n ph live)
    go m [] a = a
    go m (t ∷ ts) (e, a) =
        if_both (All (λ u. u.number ≡ m)) (t.number == n) (λ s. (e, a)) (λ s. (e, go m ts a))

pub cancel-Cleared :
    (n : ℕ) (h : Holder) (live : List Task) → Cleared h live → Cleared h (cancel n live)
cancel-Cleared n = Keeps-Cleared (cancel n) (cancel-Keeps n)

pub remove-Cleared :
    (n : ℕ) (h : Holder) (live : List Task) → Cleared h live → Cleared h (remove n live)
remove-Cleared n = Keeps-Cleared (remove n) (remove-Keeps n)

pub set_phase-Cleared :
    (n : ℕ) (ph : Phase) (h : Holder) (live : List Task)
    → Cleared h live
    → Cleared h (set_phase n ph live)
set_phase-Cleared n ph = Keeps-Cleared (set_phase n ph) (set_phase-Keeps n ph)

-- The turn that is replaced is the only one, and so there is none when it is done.
pub active_only :
    (n : ℕ) (live : List Task) (i : Option ℕ)
    → Matches live (some n) i
    → All (λ t. t.number ≡ n) live
active_only n [] i m = tt
active_only n (t ∷ []) i (p, q) = (ground (arith, p), tt)
active_only n (t ∷ (_ ∷ _)) i m = elim m [ ]

pub replaced :
    (n : ℕ) (live : List Task) → All (λ t. t.number ≡ n) live → is_live n live ≡ false → live ≡ []
unfolding is_live
replaced n [] a e = refl
replaced n (t ∷ ts) (p, a) e = ground (arith, e, p, eq_iff t.number n)

-- A task that is not done is the only one.
pub Matches-found :
    (n : ℕ) (ph : Phase) (live : List Task) (a i : Option ℕ)
    → phase_of n live ≡ some ph
    → Matches live a i
    → (i ≡ running_id ph)
      × (remove n live ≡ [])
      × ((qh : Phase) → Matches (set_phase n qh live) a (running_id qh))
unfolding phase_of remove set_phase
Matches-found n ph [] a i e m = ground (arith, e)
Matches-found n ph (t ∷ []) a i e (p, q) = elim (Bool-cases (t.number == n)) [
  | inl same ↦ rw same (q ∙ ap running_id (ground (arith, e, same)), refl, λ qh. (p, refl))
  | inr other ↦ ground (arith, e, other)
]
Matches-found n ph (t ∷ (_ ∷ _)) a i e m = elim m [ ]

-- If the active turn is done, or there is none, then no task is left.
pub no_turn : (live : List Task) (i : Option ℕ) → Matches live none i → live ≡ []
no_turn [] i m = refl
no_turn (t ∷ []) i (p, q) = ground (arith, p)
no_turn (t ∷ (_ ∷ _)) i m = elim m [ ]

pub turn_done :
    (n : ℕ) (live : List Task) (i : Option ℕ)
    → is_live n live ≡ false
    → Matches live (some n) i
    → live ≡ []
unfolding is_live
turn_done n [] i e m = refl
turn_done n (t ∷ []) i e (p, q) = ground (arith, e, p, eq_iff t.number n)
turn_done n (t ∷ (_ ∷ _)) i e m = elim m [ ]

pub forget-Matches :
    (n : ℕ) (live : List Task) (a i : Option ℕ)
    → is_live n live ≡ false
    → is_id a n ≡ true
    → Matches live a i
    → Matches live none i
unfolding is_live
forget-Matches n [] a i e f m = m
forget-Matches n (t ∷ []) a i e f (p, q) = ground (arith, e, f, p, eq_iff t.number n)
forget-Matches n (t ∷ (_ ∷ _)) a i e f m = elim m [ ]
