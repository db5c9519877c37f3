-- ===== src/Speech/Stt/Buffer.antt =====
-- The audio that waits in a session: how it is cut short, and how it is sent.
use jota_gateway.Prelude.{
  ℕ, zero, suc, ◌+◌, ◌-◌, ◌≤◌, ◌<◌, ◌%◌, ◌≡◌, refl, ◌∙◌, ap, min, List, [], ◌∷◌, ◌++◌, ltb, leb,
  arith, length, take, drop, All, if_both,
}
use jota_gateway.Speech.Stt.{trim_buffer, buf_cap, min_chunk_bytes, max_chunk_bytes}
use jota_gateway.Speech.Stt.Sending.{send_buffer}

length-drop : (n : ℕ) (xs : List ℕ) → length (drop n xs) ≡ length xs - n
length-drop zero xs = omega arith
length-drop (suc n) [] = omega arith
length-drop (suc n) (x ∷ xs) = omega (arith, length-drop n xs)

length-take : (n : ℕ) (xs : List ℕ) → length (take n xs) ≡ min n (length xs)
length-take zero xs = omega arith
length-take (suc n) [] = omega arith
length-take (suc n) (x ∷ xs) = omega (arith, length-take n xs)

take-drop : (n : ℕ) (xs : List ℕ) → take n xs ++ drop n xs ≡ xs
take-drop zero xs = refl
take-drop (suc n) [] = refl
take-drop (suc n) (x ∷ xs) = ap (λ l. x ∷ l) (take-drop n xs)

-- While the connection opens, a session keeps at most its two seconds of audio, and whole samples only
-- if it had whole samples.
pub trim_buffer-bounds :
    (buf : List ℕ)
    → length buf % 2 ≡ 0
    → (length (trim_buffer buf) ≤ buf_cap) × (length (trim_buffer buf) % 2 ≡ 0)
unfolding trim_buffer
trim_buffer-bounds buf even =
    let n = length buf - buf_cap + (length buf - buf_cap) % 2 in
    if_both (λ b. (length b ≤ buf_cap) × (length b % 2 ≡ 0)) (ltb 0 (length buf - buf_cap))
      {x = drop n buf} {y = buf}
      (λ over. (omega (arith, length-drop n buf), omega (arith, even, length-drop n buf)))
      (λ within. (ground (arith, within), even))

abbrev pub joined : List (List ℕ) → List ℕ
joined [] = []
joined (c ∷ cs) = c ++ joined cs

-- A chunk of 0.1 to 1 second.
abbrev pub Sized : List ℕ → Type 0
Sized c = (min_chunk_bytes ≤ length c) × (length c ≤ max_chunk_bytes)

pub record Sent (buf : List ℕ) (r : List (List ℕ) × List ℕ) : Type 0 where
  pub complete : joined r.0 ++ r.1 ≡ buf
  pub sized : All Sized r.0
  pub short : length r.1 < min_chunk_bytes

append_assoc : (xs ys zs : List ℕ) → (xs ++ ys) ++ zs ≡ xs ++ (ys ++ zs)
append_assoc [] ys zs = refl
append_assoc (x ∷ xs) ys zs = ap (λ l. x ∷ l) (append_assoc xs ys zs)

send_buffer-fuel : (fuel : ℕ) (buf : List ℕ) → length buf ≤ fuel → Sent buf (send_buffer fuel buf)
unfolding send_buffer
send_buffer-fuel zero buf e = record { complete = refl; sized = tt; short = omega (arith, e) }
send_buffer-fuel (suc fuel) buf e =
    let n = min (length buf) max_chunk_bytes in
    if_both (Sent buf) (leb min_chunk_bytes (length buf))
      (λ long.
        let later =
          send_buffer-fuel fuel (drop n buf) (ground (arith, long, e, length-drop n buf)) in
        record {
          complete =
              append_assoc (take n buf) _ _
              ∙ ap (λ l. take n buf ++ l) later.complete
              ∙ take-drop n buf;
          sized = (
            (ground (arith, long, length-take n buf), omega (arith, length-take n buf)),
            later.sized,
          );
          short = later.short;
        })
      (λ few. record { complete = refl; sized = tt; short = ground (arith, few) })

-- Sending the buffer ends, with chunks of 0.1 to 1 second that, with the rest of less than 0.1 second,
-- are the buffer byte for byte and in order.
pub send_buffer-Sent : (buf : List ℕ) → Sent buf (send_buffer (length buf) buf)
send_buffer-Sent buf = send_buffer-fuel (length buf) buf (omega arith)
