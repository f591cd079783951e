-- ===== src/Prelude/Text.antt =====
-- Texts as the lists of their characters' codes: `trim`, `toUpperCase` on ASCII, and equality.
use Prim.Native.Nat.{ℕ, ◌-◌}
use mathlib.Core.Path.{◌≡◌, refl}
use native.Mathlib.Omega.{arith}
use mathlib.Core.Bool.{Bool, true, false, ◌&&◌, ◌||◌}
use mathlib.Core.List.{List, [], ◌∷◌, reverse}
use deliveryways.Prelude.Tests.{◌==◌, if◌then◌else◌, leb}

abbrev pub is_space : ℕ → Bool
is_space c = c == 32 || (leb 9 c && leb c 13)

abbrev pub upper : ℕ → ℕ
upper c = if leb b'a' c && leb c b'z' then c - 32 else c

abbrev pub trim_start : List ℕ → List ℕ
trim_start [] = []
trim_start (c ∷ cs) = if is_space c then trim_start cs else c ∷ cs

-- `text.trim()`
abbrev pub trim : List ℕ → List ℕ
trim text = reverse (trim_start (reverse (trim_start text)))

-- `a === b`
abbrev pub text_eq : List ℕ → List ℕ → Bool
text_eq [] [] = true
text_eq (a ∷ as') (b ∷ bs) = a == b && text_eq as' bs
text_eq _ _ = false

-- `!text`
abbrev pub is_empty : List ℕ → Bool
is_empty [] = true
is_empty (c ∷ cs) = false

pub text_eq_sound : (a b : List ℕ) → text_eq a b ≡ true → a ≡ b
text_eq_sound [] [] h = refl
text_eq_sound [] (b ∷ bs) h = absurd (cc h)
text_eq_sound (a ∷ as') [] h = absurd (cc h)
text_eq_sound (a ∷ as') (b ∷ bs) h =
    let (first, rest) = both (a == b) (text_eq as' bs) h in
    let same : a ≡ b = ground arith in let tail = text_eq_sound as' bs rest in rw (same, tail) refl
  where
    both : (x y : Bool) → (x && y) ≡ true → (x ≡ true) × (y ≡ true)
    both x y h = ground arith

pub text_eq_refl : (a : List ℕ) → text_eq a a ≡ true
text_eq_refl [] = refl
text_eq_refl (c ∷ cs) = let rest = text_eq_refl cs in ground arith

abbrev pub starts_with : List ℕ → List ℕ → Bool
starts_with [] text = true
starts_with (p ∷ ps) [] = false
starts_with (p ∷ ps) (c ∷ cs) = p == c && starts_with ps cs

-- `text.includes(part)`
abbrev pub has_part : List ℕ → List ℕ → Bool
has_part part [] = is_empty part
has_part part (c ∷ cs) = starts_with part (c ∷ cs) || has_part part cs
