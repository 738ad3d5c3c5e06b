-- ===== src/LogValue/Ends.antt =====
-- The last character of a text: `trim`, `strip_suffix` as dogwood-language/src/interpreter/log_parse.rs uses
-- them.
use dogwood.Prelude.{
  ℕ, ◌≡◌, ◌∙◌, refl, sym, ap, Bool, true, false, none, some, [], ◌∷◌, ◌++◌, Str, ◌==◌,
  if◌then◌else◌,
}
use mathlib.Core.List.{reverse, reverse-append, reverse-reverse}
use dogwood.LogValue.{is_whitespace, trim_start, trim_end, strip_first, strip_last, reversed}

pub strip_last-last :
    (d c : ℕ) (s : Str) → strip_last d (s ++ (c ∷ [])) ≡ (if c == d then some s else none)
unfolding strip_last
strip_last-last d c s =
    ap (λ t. reversed (strip_first d t)) (reverse-append s (c ∷ [])) ∙ finish (c == d)
  where
    finish :
        (b : Bool) → reversed (if b then some (reverse s) else none) ≡ (if b then some s else none)
    finish true = ap some (reverse-reverse s)
    finish false = refl

pub trim_end-last :
    (c : ℕ) (s : Str) → is_whitespace c ≡ false → trim_end (s ++ (c ∷ [])) ≡ s ++ (c ∷ [])
unfolding trim_end trim_start
trim_end-last c s h =
    ap (λ t. reverse (trim_start t)) (reverse-append s (c ∷ []))
    ∙ rw h (ap reverse (sym (reverse-append s (c ∷ []))))
    ∙ reverse-reverse (s ++ (c ∷ []))
