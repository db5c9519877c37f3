-- ===== src/Prelude/Texts.antt =====
-- Python's `str` as the list of its code points, and what the code uses of it.
use Prim.Native.Nat.{ℕ}
use Prim.Native.Char.{code}
use Prim.Native.String.{String}
use mathlib.Core.Path.{◌≡◌, refl}
use mathlib.Core.Logic.{◌↔◌, ◌≢◌}
use mathlib.Core.List.{List, [], ◌∷◌, ◌++◌, reverse}
use mathlib.Core.Bool.{Bool, true, false, ◌||◌, ◌&&◌}
use mathlib.Core.Option.{Option, none, some}
use native.Mathlib.Omega.{arith}
use jota_gateway.Prelude.Tests.{leb, nat_eq, if◌then◌else◌, Eq}
use jota_gateway.Prelude.Lists.{length, drop}

abbrev pub Text : Type 0
Text = List ℕ

abbrev pub codes : String → Text
codes String.[] = []
codes (String.◌∷◌ c s) = code c ∷ codes s

unfoldable pub text_beq : Text → Text → Bool
text_beq [] [] = true
text_beq [] (d ∷ t) = false
text_beq (c ∷ s) [] = false
text_beq (c ∷ s) (d ∷ t) = nat_eq c d && text_beq s t

text_beq→eq : (s t : Text) → text_beq s t ≡ true → s ≡ t
unfolding text_beq
text_beq→eq [] [] h = refl
text_beq→eq [] (d ∷ t) h = cc
text_beq→eq (c ∷ s) [] h = cc
text_beq→eq (c ∷ s) (d ∷ t) h = ground (arith, text_beq→eq s t)

text_beq_refl : (s : Text) → text_beq s s ≡ true
unfolding text_beq
text_beq_refl [] = refl
text_beq_refl (c ∷ s) = ground (arith, text_beq_refl s)

pub text_beq_iff : (s t : Text) → (text_beq s t ≡ true) ↔ (s ≡ t)
text_beq_iff s t = (text_beq→eq s t, λ e. rw e (text_beq_refl t))

instance abbrev pub Text_eq : Eq Text
Text_eq = record { same = text_beq; same_iff = text_beq_iff }

-- `str.isspace` of one code point.
unfoldable pub is_space : ℕ → Bool
is_space c =
    (leb 9 c && leb c 13)
    || (leb 28 c && leb c 32)
    || nat_eq c 0x85
    || nat_eq c 0xa0
    || nat_eq c 0x1680
    || (leb 0x2000 c && leb c 0x200a)
    || nat_eq c 0x2028
    || nat_eq c 0x2029
    || nat_eq c 0x202f
    || nat_eq c 0x205f
    || nat_eq c 0x3000

unfoldable pub lstrip : Text → Text
lstrip [] = []
lstrip (c ∷ s) = if is_space c then lstrip s else c ∷ s

unfoldable pub rstrip : Text → Text
unfolding lstrip
rstrip s = reverse (lstrip (reverse s))

unfoldable pub strip : Text → Text
unfolding lstrip rstrip
strip s = rstrip (lstrip s)

-- `text.startswith(prefix)`.
unfoldable pub starts_with : Text → Text → Bool
starts_with text [] = true
starts_with [] (p ∷ ps) = false
starts_with (c ∷ text) (p ∷ ps) = nat_eq c p && starts_with text ps

-- `bool(text)`.
abbrev pub truthy : Text → Bool
truthy [] = false
truthy (c ∷ s) = true

pub starts_with-append : (p s : Text) → starts_with (p ++ s) p ≡ true
unfolding starts_with
starts_with-append [] [] = refl
starts_with-append [] (c ∷ s) = refl
starts_with-append (c ∷ p) s = ground (arith, starts_with-append p s)

-- What starts with a prefix is the prefix and the rest.
pub append-drop_of_starts_with :
    (text p : Text) → starts_with text p ≡ true → p ++ drop (length p) text ≡ text
unfolding starts_with
append-drop_of_starts_with [] [] h = refl
append-drop_of_starts_with (c ∷ text) [] h = refl
append-drop_of_starts_with [] (d ∷ p) h = cc
append-drop_of_starts_with (c ∷ text) (d ∷ p) h = ground (arith, append-drop_of_starts_with text p)

-- `text.rsplit(sep, 1)[-1]` for a separator of one code point.
unfoldable pub after_last : ℕ → Text → Option Text
after_last sep [] = none
after_last sep (c ∷ s) = elim (after_last sep s) [
  | some r ↦ some r
  | none ↦ if nat_eq c sep then some s else none
]

unfoldable pub last_segment : ℕ → Text → Text
unfolding after_last
last_segment sep s = elim (after_last sep s) [ some r ↦ r | none ↦ s ]

abbrev pub has_code : ℕ → Text → Bool
has_code c [] = false
has_code c (d ∷ s) = nat_eq c d || has_code c s

after_last-none : (sep : ℕ) (s : Text) → has_code sep s ≡ false → after_last sep s ≡ none
unfolding after_last
after_last-none sep [] h = refl
after_last-none sep (c ∷ s) h = ground (arith, after_last-none sep s)

after_last-append :
    (sep : ℕ) (p s : Text) → has_code sep s ≡ false → after_last sep (p ++ sep ∷ s) ≡ some s
unfolding after_last
after_last-append sep [] s h = ground (arith, after_last-none sep s)
after_last-append sep (c ∷ p) s h = rw (after_last-append sep p s h) refl

-- The last segment of a text is what follows its last separator.
pub last_segment-append :
    (sep : ℕ) (p s : Text) → has_code sep s ≡ false → last_segment sep (p ++ sep ∷ s) ≡ s
unfolding last_segment
last_segment-append sep p s h = rw (after_last-append sep p s h, last_segment) refl

-- `text.split(sep)` for a separator of one code point.
push_code : ℕ → List Text → List Text
push_code c [] = (c ∷ []) ∷ []
push_code c (t ∷ ts) = (c ∷ t) ∷ ts

unfoldable pub split : ℕ → Text → List Text
unfolding push_code
split sep [] = [] ∷ []
split sep (c ∷ s) = let rest = split sep s in if nat_eq c sep then [] ∷ rest else push_code c rest

pub text_apart : (s t : Text) → text_beq s t ≡ false → s ≢ t
text_apart s t h e = ground (arith, h, (text_beq_iff s t).1 e)
