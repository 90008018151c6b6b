-- ===== src/Prelude/Text.antt =====
-- Python's `str` as the list of its code points, with the methods that the services call.
use Prim.Native.Char.{code}
use Prim.Native.String.{String}
use Prim.Native.Nat.{ℕ, ◌≤◌}
use mathlib.Core.Path.{◌≡◌, refl}
use mathlib.Core.Logic.{◌↔◌}
use mathlib.Core.Bool.{Bool, true, false, ◌&&◌, ◌||◌}
use mathlib.Core.List.{List, [], ◌∷◌, ◌++◌, reverse}
use native.Mathlib.Omega.{arith}
use mkc.Prelude.Tests.{leb, nat_eqb, if◌then◌else◌}
use mkc.Prelude.Lists.{length}

abbrev pub Text : Type 0
Text = List ℕ

-- A literal of the source.
abbrev pub codes : String → Text
codes String.[] = []
codes (String.◌∷◌ c s) = code c ∷ codes s

-- `==` on texts
unfoldable pub text_eqb : Text → Text → Bool
text_eqb [] [] = true
text_eqb [] (b ∷ bs) = false
text_eqb (a ∷ as') [] = false
text_eqb (a ∷ as') (b ∷ bs) = nat_eqb a b && text_eqb as' bs

pub text_eqb_refl : (s : Text) → text_eqb s s ≡ true
unfolding text_eqb
text_eqb_refl [] = refl
text_eqb_refl (a ∷ s) = ground (arith, text_eqb_refl s)

pub text_eqb→eq : (s t : Text) → text_eqb s t ≡ true → s ≡ t
unfolding text_eqb
text_eqb→eq [] [] h = refl
text_eqb→eq [] (b ∷ t) h = cc
text_eqb→eq (a ∷ s) [] h = cc
text_eqb→eq (a ∷ s) (b ∷ t) h = ground (arith, text_eqb→eq s t)

pub text_eqb_iff : (s t : Text) → (text_eqb s t ≡ true) ↔ (s ≡ t)
text_eqb_iff s t = (text_eqb→eq s t, λ e. rw e (text_eqb_refl t))

pub length_pos : (s : Text) → text_eqb s [] ≡ false → 1 ≤ length s
unfolding text_eqb
length_pos [] h = cc
length_pos (c ∷ s) h = omega arith

-- `s in xs`
unfoldable pub text_in : Text → List Text → Bool
text_in s [] = false
text_in s (x ∷ xs) = text_eqb s x || text_in s xs

-- `str.isspace` of one character
unfoldable pub is_space : ℕ → Bool
is_space c =
    (leb 9 c && leb c 13)
    || (leb 28 c && leb c 32)
    || nat_eqb c 0x85
    || nat_eqb c 0xa0
    || nat_eqb c 0x1680
    || (leb 0x2000 c && leb c 0x200a)
    || nat_eqb c 0x2028
    || nat_eqb c 0x2029
    || nat_eqb c 0x202f
    || nat_eqb c 0x205f
    || nat_eqb c 0x3000

unfoldable pub lstrip : Text → Text
unfolding is_space
lstrip [] = []
lstrip (c ∷ s) = let rest = lstrip s in if is_space c then rest else c ∷ s

-- `s.strip()`
unfoldable pub strip : Text → Text
unfolding lstrip
strip s = reverse (lstrip (reverse (lstrip s)))

-- truthiness of a text
abbrev pub nonempty : {A : Type 0} → List A → Bool
nonempty [] = false
nonempty (x ∷ xs) = true

-- `sep.join(parts)`
unfoldable pub join : Text → List Text → Text
join sep [] = []
join sep (p ∷ []) = p
join sep (p ∷ q ∷ ps) = p ++ (sep ++ join sep (q ∷ ps))
