-- ===== src/Speech/Pacing.antt =====
-- services/pacing.py: `AudioPacer`. A time is counted in bytes of audio, 48000 to the second, so that a
-- frame lasts as long as it has bytes. The clock is read once for each frame; a sleep returns its
-- duration or more later.
use jota_gateway.Prelude.{
  ℕ, zero, suc, ◌+◌, ◌-◌, ◌≤◌, ◌≡◌, refl, ◌∙◌, ap, max, Bool, true, List, [], ◌∷◌, ◌++◌,
  if◌then◌else◌, ltb, arith, length, take, drop, if_both, ◌⊎◌, inl, inr,
}

abbrev pub frame_bytes : ℕ
frame_bytes = 9600

pub record AudioPacer : Type 0 where
  pub lead : ℕ
  pub enabled : Bool
  pub play_end : ℕ

-- A frame on its way: what it waits for, when it would start to sound and the frame itself.
pub record Paced : Type 0 where
  pub asked_at : ℕ
  pub sleeps : ℕ
  pub start : ℕ
  pub frame : List ℕ

-- `chunk[i : i + FRAME_BYTES]` for each `i`: the fuel is the number of bytes.
unfoldable pub split_frames : (fuel : ℕ) → List ℕ → List (List ℕ)
split_frames zero bytes = []
split_frames (suc fuel) [] = []
split_frames (suc fuel) (b ∷ bytes) =
    take frame_bytes (b ∷ bytes) ∷ split_frames fuel (drop frame_bytes (b ∷ bytes))

unfoldable pub pace : (now : ℕ) → List ℕ → AudioPacer → Paced × AudioPacer
pace now frame p =
    let start = max p.play_end now in
    (
      record {
        asked_at = now;
        sleeps = if ltb p.lead (start - now) then start - now - p.lead else 0;
        start = start;
        frame = frame;
      },
      record p { play_end = start + length frame },
    )

-- The clock's readings are those of the frames, in order; it goes on as the last of them.
unfoldable pub pace_all : (clock : ℕ → ℕ) → (count : ℕ) → List (List ℕ) → AudioPacer → List Paced
unfolding pace
pace_all clock count [] p = []
pace_all clock count (f ∷ fs) p =
    let (out, q) = pace (clock count) f p in out ∷ pace_all clock (count + 1) fs q

abbrev whole : ℕ → List ℕ → Paced
whole now chunk = record { asked_at = now; sleeps = 0; start = now; frame = chunk }

unfoldable pub frames : (clock : ℕ → ℕ) → List ℕ → AudioPacer → List Paced
unfolding split_frames pace_all
frames clock chunk p =
    if p.enabled
    then pace_all clock 0 (split_frames (length chunk) chunk) p
    else whole (clock 0) chunk ∷ []

unfoldable pub join : List Paced → List ℕ
join [] = []
join (x ∷ xs) = x.frame ++ join xs

append_nil : (xs : List ℕ) → xs ++ [] ≡ xs
append_nil [] = refl
append_nil (x ∷ xs) = ap (λ l. x ∷ l) (append_nil xs)

take-drop : (n : ℕ) (xs : List ℕ) → take n xs ++ drop n xs ≡ xs
take-drop zero xs = refl
take-drop (suc n) [] = refl
take-drop (suc n) (x ∷ xs) = ap (λ l. x ∷ l) (take-drop n xs)

length-drop : (n : ℕ) (xs : List ℕ) → length (drop n xs) ≡ length xs - n
length-drop zero xs = omega arith
length-drop (suc n) [] = omega arith
length-drop (suc n) (x ∷ xs) = omega (arith, length-drop n xs)

abbrev flat : List (List ℕ) → List ℕ
flat [] = []
flat (f ∷ fs) = f ++ flat fs

flat-split_frames : (fuel : ℕ) (xs : List ℕ) → length xs ≤ fuel → flat (split_frames fuel xs) ≡ xs
unfolding split_frames
flat-split_frames zero [] e = refl
flat-split_frames zero (x ∷ xs) e = ground (arith, e)
flat-split_frames (suc fuel) [] e = refl
flat-split_frames (suc fuel) (x ∷ xs) e =
    ap (λ l. take 9600 (x ∷ xs) ++ l)
      (flat-split_frames fuel (drop 9600 (x ∷ xs)) (omega (arith, e, length-drop 9600 (x ∷ xs))))
    ∙ take-drop 9600 (x ∷ xs)

join-pace_all :
    (clock : ℕ → ℕ) (count : ℕ) (fs : List (List ℕ)) (p : AudioPacer)
    → join (pace_all clock count fs p) ≡ flat fs
unfolding join pace_all pace
join-pace_all clock count [] p = refl
join-pace_all clock count (f ∷ fs) p = ap (λ l. f ++ l) (join-pace_all clock (count + 1) fs _)

-- What the pacer yields is the chunk, byte for byte and in order.
pub frames-join :
    (clock : ℕ → ℕ) (chunk : List ℕ) (p : AudioPacer) → join (frames clock chunk p) ≡ chunk
unfolding frames join
frames-join clock chunk p =
    if_both (λ xs. join xs ≡ chunk) p.enabled
      (λ _.
        join-pace_all clock 0 (split_frames (length chunk) chunk) p
        ∙ flat-split_frames (length chunk) chunk (omega arith))
      (λ _. append_nil chunk)

-- From time `from` on, the frames sound one after the other, none is handed over earlier than `lead`
-- before it sounds, and a sleep is no longer than that takes.
pub OnTime : (lead from : ℕ) → List Paced → Type 0
OnTime lead from [] = Unit {0}
OnTime lead from (x ∷ xs) =
    (from ≤ x.start)
    × (x.start ≤ x.asked_at + x.sleeps + lead)
    × ((x.sleeps ≡ 0) ⊎ (x.asked_at + x.sleeps + lead ≡ x.start))
    × OnTime lead (x.start + length x.frame) xs

no_longer :
    (now start lead : ℕ)
    → now ≤ start
    → ((if ltb lead (start - now) then start - now - lead else 0) ≡ 0)
      ⊎ (now + (if ltb lead (start - now) then start - now - lead else 0) + lead ≡ start)
no_longer now start lead e =
    if_both (λ s. (s ≡ 0) ⊎ (now + s + lead ≡ start)) (ltb lead (start - now))
      (λ far. inr (ground (arith, far, e))) (λ near. inl refl)

pace_all-OnTime :
    (clock : ℕ → ℕ) (count : ℕ) (fs : List (List ℕ)) (p : AudioPacer)
    → OnTime p.lead p.play_end (pace_all clock count fs p)
unfolding OnTime pace_all pace
pace_all-OnTime clock count [] p = tt
pace_all-OnTime clock count (f ∷ fs) p = (
  omega arith,
  ground arith,
  no_longer (clock count) (max p.play_end (clock count)) p.lead (omega arith),
  pace_all-OnTime clock (count + 1) fs
      (record p { play_end = max p.play_end (clock count) + length f }),
)

-- The frames of a paced chunk sound one after the other, from the end of what was paced before; none is
-- handed over earlier than the lead before it sounds, and no sleep is longer than that takes.
pub frames-OnTime :
    (clock : ℕ → ℕ) (chunk : List ℕ) (p : AudioPacer)
    → p.enabled ≡ true
    → OnTime p.lead p.play_end (frames clock chunk p)
unfolding frames
frames-OnTime clock chunk p e =
    if_both (OnTime p.lead p.play_end) p.enabled
      (λ _. pace_all-OnTime clock 0 (split_frames (length chunk) chunk) p)
      (λ off. ground (arith, e, off))
