-- ===== src/Prelude/Strings.antt =====
-- Rust's `String` as the sequence of its Unicode scalar values. UTF-8 keeps their order, so the order
-- of strings by bytes is the order by scalar values; `utf8_len` is the length in bytes.
use Prim.Native.Nat.{ℕ, ◌+◌, compare, Ordering}
use Prim.Native.Char.{code}
use Prim.Native.String.{String}
use mathlib.Core.Path.{◌≡◌, refl, ap₂}
use mathlib.Core.Logic.{◌↔◌}
use mathlib.Core.Bool.{Bool, true, false, ◌&&◌}
use mathlib.Core.List.{List, [], ◌∷◌, ◌++◌}
use native.Mathlib.Omega.{arith}
use dogwood.Prelude.Tests.{ltb, ◌==◌, if◌then◌else◌, ==_iff, &&_split}

abbrev pub Str : Type 0
Str = List ℕ

-- The scalar values of a literal.
abbrev pub str : String → Str
str String.[] = []
str (String.◌∷◌ c s) = code c ∷ str s

unfoldable pub str_eq : Str → Str → Bool
str_eq [] [] = true
str_eq (x ∷ xs) (y ∷ ys) = (x == y) && str_eq xs ys
str_eq _ _ = false

-- The lexicographic order of `Ord for str`.
unfoldable pub str_lt : Str → Str → Bool
str_lt xs [] = false
str_lt [] (y ∷ ys) = true
str_lt (x ∷ xs) (y ∷ ys) = elim (compare x y) [
  | Ordering.lt ↦ true
  | Ordering.eq ↦ str_lt xs ys
  | Ordering.gt ↦ false
]

-- `s.len()`: the bytes of the UTF-8 encoding.
unfoldable pub utf8_len : Str → ℕ
utf8_len [] = 0
utf8_len (c ∷ s) =
    (if ltb c 128 then 1 else if ltb c 2048 then 2 else if ltb c 65536 then 3 else 4) + utf8_len s

-- `parts.join(sep)`
unfoldable pub join : Str → List Str → Str
join sep [] = []
join sep (x ∷ []) = x
join sep (x ∷ y ∷ r) = x ++ (sep ++ join sep (y ∷ r))

abbrev pub add_char : Bool → ℕ → List Str → List Str
add_char true x parts = [] ∷ parts
add_char false x [] = (x ∷ []) ∷ []
add_char false x (p ∷ ps) = (x ∷ p) ∷ ps

-- `s.split(c)` at a one-character separator: at least one part.
unfoldable pub split : ℕ → Str → List Str
split c [] = [] ∷ []
split c (x ∷ xs) = add_char (x == c) x (split c xs)

pub str_eq_refl : (a : Str) → str_eq a a ≡ true
unfolding str_eq
str_eq_refl [] = refl
str_eq_refl (x ∷ xs) = ground (arith, str_eq_refl xs)

str_eq_sound : (a b : Str) → str_eq a b ≡ true → a ≡ b
unfolding str_eq
str_eq_sound [] [] h = refl
str_eq_sound (x ∷ xs) (y ∷ ys) h =
    let (p, q) = &&_split (x == y) (str_eq xs ys) h in
    ap₂ ◌∷◌ ((==_iff x y).0 p) (str_eq_sound xs ys q)
str_eq_sound [] (y ∷ ys) h = cc
str_eq_sound (x ∷ xs) [] h = cc

pub str_eq_iff : (a b : Str) → (str_eq a b ≡ true) ↔ (a ≡ b)
str_eq_iff a b = (str_eq_sound a b, λ e. rw e (str_eq_refl b))
