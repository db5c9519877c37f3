-- ===== src/Speech/Gate.antt =====
-- services/speech/audio.py: `EnergyGate`. Whether a frame is loud is what `_rms_dbfs` and the threshold
-- say of it, a parameter; durations are counted in samples of four bytes.
use jota_gateway.Prelude.{
  ℕ, ◌+◌, ◌-◌, ◌/◌, ◌≡◌, refl, sym, ◌∙◌, ap, Bool, true, false, not, List, [], ◌∷◌, ◌++◌,
  if◌then◌else◌, ltb, leb, arith, length, if_both, map, subst,
}

pub record EnergyGate : Type 0 where
  pub preroll : ℕ
  pub hangover : ℕ
  -- Oldest first.
  pub ring : List (List ℕ)
  pub ring_samples : ℕ
  pub in_segment : Bool
  pub quiet : ℕ

unfoldable pub new_gate : (preroll hangover : ℕ) → EnergyGate
new_gate preroll hangover = record {
  preroll = preroll;
  hangover = hangover;
  ring = [];
  ring_samples = 0;
  in_segment = false;
  quiet = 0;
}

unfoldable pub duration : List ℕ → ℕ
duration frame = length frame / 4

-- The `while` that shortens the preroll.
unfoldable pub shorten : (preroll : ℕ) → List (List ℕ) → ℕ → List (List ℕ) × ℕ
unfolding duration
shorten preroll [] total = ([], total)
shorten preroll (f ∷ fs) total =
    let rest = shorten preroll fs (total - duration f) in
    if leb preroll (total - duration f) then rest else (f ∷ fs, total)

unfoldable pub keep_preroll : List ℕ → EnergyGate → EnergyGate
unfolding shorten duration
keep_preroll frame g =
    let (ring, total) =
      shorten g.preroll (g.ring ++ frame ∷ []) (g.ring_samples + duration frame) in
    record g { ring = ring; ring_samples = total }

-- The frames to forward, whether a segment has ended, and the gate after.
unfoldable pub feed : (loud : Bool) → List ℕ → EnergyGate → List (List ℕ) × (Bool × EnergyGate)
unfolding keep_preroll duration
feed loud frame g =
    if ltb (length frame) 4
    then ([], (false, g))
    else if not g.in_segment
    then if not loud then ([], (false, keep_preroll frame g)) else (
      g.ring ++ frame ∷ [],
      (false, record g { ring = []; ring_samples = 0; in_segment = true; quiet = 0 }),
    )
    else if loud
    then (frame ∷ [], (false, record g { quiet = 0 }))
    else if leb g.hangover (g.quiet + duration frame)
    then (frame ∷ [], (true, record g { in_segment = false; quiet = 0 }))
    else (frame ∷ [], (false, record g { quiet = g.quiet + duration frame }))

-- A whole stream: what was forwarded, and the gate after.
unfoldable pub feed_all : List (Bool × List ℕ) → EnergyGate → List (List ℕ) × EnergyGate
unfolding feed
feed_all [] g = ([], g)
feed_all ((loud, frame) ∷ rest) g =
    let (out, (ended, h)) = feed loud frame g in
    let (later, last) = feed_all rest h in (out ++ later, last)

-- The first list is the second without some of its items.
pub data Sub : List (List ℕ) → List (List ℕ) → Type 0 where
  nothing : Sub [] []
  keep : (x : List ℕ) {xs ys : List (List ℕ)} → Sub xs ys → Sub (x ∷ xs) (x ∷ ys)
  skip : (x : List ℕ) {xs ys : List (List ℕ)} → Sub xs ys → Sub xs (x ∷ ys)

Sub-refl : (xs : List (List ℕ)) → Sub xs xs
Sub-refl [] = nothing
Sub-refl (x ∷ xs) = keep x (Sub-refl xs)

Sub-trans : {xs ys zs : List (List ℕ)} → Sub xs ys → Sub ys zs → Sub xs zs
Sub-trans s nothing = s
Sub-trans (keep _ s) (keep x t) = keep x (Sub-trans s t)
Sub-trans (skip _ s) (keep x t) = skip x (Sub-trans s t)
Sub-trans s (skip x t) = skip x (Sub-trans s t)

Sub-append : {xs ys : List (List ℕ)} (zs : List (List ℕ)) → Sub xs ys → Sub (xs ++ zs) (ys ++ zs)
Sub-append zs nothing = Sub-refl zs
Sub-append zs (keep x s) = keep x (Sub-append zs s)
Sub-append zs (skip x s) = skip x (Sub-append zs s)

Sub-prepend : {xs ys : List (List ℕ)} (zs : List (List ℕ)) → Sub xs ys → Sub (zs ++ xs) (zs ++ ys)
Sub-prepend [] s = s
Sub-prepend (z ∷ zs) s = keep z (Sub-prepend zs s)

shorten-Sub : (preroll : ℕ) (fs : List (List ℕ)) (total : ℕ) → Sub (shorten preroll fs total).0 fs
unfolding shorten
shorten-Sub preroll [] total = nothing
shorten-Sub preroll (f ∷ fs) total =
    if_both (λ (r : List (List ℕ) × ℕ). Sub r.0 (f ∷ fs)) (leb preroll (total - duration f))
      (λ _. skip f (shorten-Sub preroll fs (total - duration f))) (λ _. Sub-refl (f ∷ fs))

Sub-nil : (ys : List (List ℕ)) → Sub [] ys
Sub-nil [] = nothing
Sub-nil (y ∷ ys) = skip y (Sub-nil ys)

Sub-prefix : (xs ys : List (List ℕ)) → Sub xs (xs ++ ys)
Sub-prefix [] ys = Sub-nil ys
Sub-prefix (x ∷ xs) ys = keep x (Sub-prefix xs ys)

append_nil : (xs : List (List ℕ)) → xs ++ [] ≡ xs
append_nil [] = refl
append_nil (x ∷ xs) = ap (λ l. x ∷ l) (append_nil xs)

append_assoc : (xs ys zs : List (List ℕ)) → (xs ++ ys) ++ zs ≡ xs ++ (ys ++ zs)
append_assoc [] ys zs = refl
append_assoc (x ∷ xs) ys zs = ap (λ l. x ∷ l) (append_assoc xs ys zs)

-- Inside a segment no preroll is kept.
abbrev pub Emptied : EnergyGate → Type 0
Emptied g = g.in_segment ≡ true → g.ring ≡ []

-- What one frame makes of the gate.
record Fed (before : List (List ℕ)) (r : List (List ℕ) × (Bool × EnergyGate)) : Type 0 where
  sub : Sub (r.0 ++ r.1.1.ring) before
  emptied : Emptied r.1.1

feed-Fed :
    (loud : Bool) (frame : List ℕ) (g : EnergyGate)
    → Emptied g
    → Fed (g.ring ++ frame ∷ []) (feed loud frame g)
unfolding feed keep_preroll
feed-Fed loud frame g e =
    if_both (Fed (g.ring ++ frame ∷ [])) (ltb (length frame) 4)
      (λ _. record { sub = Sub-prefix g.ring (frame ∷ []); emptied = e })
      (λ _.
        if_both (Fed (g.ring ++ frame ∷ [])) (not g.in_segment)
          (λ outside.
            if_both (Fed (g.ring ++ frame ∷ [])) (not loud)
              (λ _. record {
                sub =
                    shorten-Sub g.preroll (g.ring ++ frame ∷ []) (g.ring_samples + duration frame);
                emptied = λ inside. ground (arith, inside, outside);
              })
              (λ _. record {
                sub =
                    subst (λ l. Sub l (g.ring ++ frame ∷ []))
                      (sym (append_nil (g.ring ++ frame ∷ []))) (Sub-refl _);
                emptied = λ _. refl;
              }))
          (λ inside. within inside))
  where
    alone :
        not g.in_segment ≡ false
        → (h : EnergyGate) → h.ring ≡ g.ring
        → Sub (frame ∷ h.ring) (g.ring ++ frame ∷ [])
    alone inside h k =
        let none_kept : g.ring ≡ [] = e (ground (arith, inside)) in
        subst (λ l. Sub (frame ∷ h.ring) (l ++ frame ∷ [])) (sym none_kept)
          (subst (λ l. Sub (frame ∷ l) (frame ∷ [])) (sym (k ∙ none_kept)) (Sub-refl (frame ∷ [])))

    within :
        not g.in_segment ≡ false
        → Fed (g.ring ++ frame ∷ []) (
            if loud
            then (frame ∷ [], (false, record g { quiet = 0 }))
            else if leb g.hangover (g.quiet + duration frame)
            then (frame ∷ [], (true, record g { in_segment = false; quiet = 0 }))
            else (frame ∷ [], (false, record g { quiet = g.quiet + duration frame })))
    within inside =
        if_both (Fed (g.ring ++ frame ∷ [])) loud
          (λ _. record { sub = alone inside (record g { quiet = 0 }) refl; emptied = e })
          (λ _.
            if_both (Fed (g.ring ++ frame ∷ [])) (leb g.hangover (g.quiet + duration frame))
              (λ _. record {
                sub = alone inside (record g { in_segment = false; quiet = 0 }) refl;
                emptied = λ x. ground (arith, x);
              })
              (λ _. record {
                sub = alone inside (record g { quiet = g.quiet + duration frame }) refl;
                emptied = e;
              }))

abbrev pub frames_of : List (Bool × List ℕ) → List (List ℕ)
frames_of fed = map (λ f. f.1) fed

feed_all-from :
    (fed : List (Bool × List ℕ)) (g : EnergyGate)
    → Emptied g
    → Sub ((feed_all fed g).0 ++ (feed_all fed g).1.ring) (g.ring ++ frames_of fed)
unfolding feed_all
feed_all-from [] g e = subst (λ l. Sub g.ring l) (sym (append_nil g.ring)) (Sub-refl g.ring)
feed_all-from ((loud, frame) ∷ rest) g e =
    let step = feed-Fed loud frame g e in
    let out = (feed loud frame g).0 in
    let h = (feed loud frame g).1.1 in
    let later = feed_all-from rest h step.emptied in
    subst (λ l. Sub l (g.ring ++ (frame ∷ frames_of rest))) (sym (append_assoc out _ _))
      (Sub-trans (Sub-prepend out later) (
        subst (λ l. Sub l (g.ring ++ (frame ∷ frames_of rest)))
          (append_assoc out h.ring (frames_of rest))
          (subst (λ l. Sub ((out ++ h.ring) ++ frames_of rest) l)
            (append_assoc g.ring (frame ∷ []) (frames_of rest))
            (Sub-append (frames_of rest) step.sub))))

-- Whatever audio a new gate is fed, what it forwards, with the preroll that it still keeps, is that
-- audio without some of its frames: none is forwarded twice, altered or out of order.
pub feed_all-Sub :
    (preroll hangover : ℕ) (fed : List (Bool × List ℕ))
    → let r = feed_all fed (new_gate preroll hangover) in Sub (r.0 ++ r.1.ring) (frames_of fed)
unfolding new_gate
feed_all-Sub preroll hangover fed = feed_all-from fed (new_gate preroll hangover) (λ x. refl)
