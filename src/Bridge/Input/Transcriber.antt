-- ===== src/Bridge/Input/Transcriber.antt =====
-- What the client is told of a busy transcriber, and of a turn that its speech has cut.
use jota_gateway.Prelude.{
  ◌≡◌, refl, sym, subst, Bool, true, false, not, ◌&&◌, Option, List, [], ◌∷◌, ◌==◌, Text, Text_eq,
  codes, arith, if_both,
}
use jota_gateway.Bridge.Input.{Notice, status, Hearing, on_transcriber_status}

unfoldable pub hear_statuses : List (Text × Option Text) → Hearing → Hearing
unfolding on_transcriber_status
hear_statuses [] h = h
hear_statuses ((state, reason) ∷ rest) h = hear_statuses rest (on_transcriber_status state reason h)

-- The notices, newest first, are degraded and restored in turn, from a degraded one on, and a busy
-- transcriber is one whose last notice is degraded.
pub Alternating : Bool → List Notice → Type 0
Alternating busy [] = busy ≡ false
Alternating true (status service state code message ∷ older) =
    (state ≡ codes "degraded") × Alternating false older
Alternating false (status service state code message ∷ older) =
    (state ≡ codes "restored") × Alternating true older
Alternating busy (_ ∷ older) = ⊥

abbrev pub Told : Hearing → Type 0
Told h = Alternating h.transcriber_busy h.notices

and_right : (a b : Bool) → (a && b) ≡ true → b ≡ true
and_right a b e = ground (arith, e)

false_of_not : (a : Bool) → not a ≡ true → a ≡ false
false_of_not a e = ground (arith, e)

on_transcriber_status-Told :
    (state : Text) (reason : Option Text) (h : Hearing)
    → Told h
    → Told (on_transcriber_status state reason h)
unfolding on_transcriber_status Alternating
on_transcriber_status-Told state reason h a =
    if_both Told (state == codes "busy" && not h.transcriber_busy)
      (λ e. (
        refl,
        subst (λ b. Alternating b h.notices) (false_of_not h.transcriber_busy (and_right _ _ e)) a,
      ))
      (λ n.
        if_both Told (state == codes "ok" && h.transcriber_busy)
          (λ e. (refl, subst (λ b. Alternating b h.notices) (and_right _ _ e) a)) (λ m. a))

-- Whatever the transcriber reports, the client is told that it is degraded and that it is restored in
-- turn, the first time that it is degraded, and the bridge takes it for busy exactly if the last
-- notice said so.
pub hear_statuses-Alternating :
    (reports : List (Text × Option Text)) (h : Hearing)
    → h.transcriber_busy ≡ false
    → h.notices ≡ []
    → Alternating (hear_statuses reports h).transcriber_busy (hear_statuses reports h).notices
unfolding hear_statuses Alternating
hear_statuses-Alternating reports h e n =
    all reports h (subst (λ b. Alternating b h.notices) (sym e) (rw n refl))
  where
    all : (rs : List (Text × Option Text)) (g : Hearing) → Told g → Told (hear_statuses rs g)
    all [] g a = a
    all ((state, reason) ∷ rs) g a =
        all rs (on_transcriber_status state reason g) (on_transcriber_status-Told state reason g a)
