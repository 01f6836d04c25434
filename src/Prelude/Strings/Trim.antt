-- ===== src/Prelude/Strings/Trim.antt =====
-- A text of printable ASCII characters without spaces has nothing to trim.
use mathlib.Core.Path.{◌≡◌, refl, ap, ◌∙◌}
use mathlib.Core.List.{[], ◌∷◌, reverse, reverse-cons, reverse-reverse}
use Prim.Native.Nat.{ℕ, ◌≤◌, ◌<◌}
use native.Mathlib.Omega.{arith}
use factum.Prelude.Bytes.{Text}
use factum.Prelude.Lists.{All, All-append}
use factum.Prelude.Strings.{trim, trim_start, trim_back}

abbrev pub IsGraphic : ℕ → Type 0
IsGraphic c = (33 ≤ c) × (c < 127)

trim_start-IsGraphic : (s : Text) → All IsGraphic s → trim_start s ≡ s
unfolding trim_start
trim_start-IsGraphic [] h = refl
trim_start-IsGraphic (a ∷ []) h = ground arith
trim_start-IsGraphic (a ∷ b ∷ []) h = ground arith
trim_start-IsGraphic (a ∷ b ∷ c ∷ r) h = ground arith

trim_back-IsGraphic : (s : Text) → All IsGraphic s → trim_back s ≡ s
unfolding trim_back
trim_back-IsGraphic [] h = refl
trim_back-IsGraphic (a ∷ []) h = ground arith
trim_back-IsGraphic (a ∷ b ∷ []) h = ground arith
trim_back-IsGraphic (a ∷ b ∷ c ∷ r) h = ground arith

All-reverse : (s : Text) → All IsGraphic s → All IsGraphic (reverse s)
All-reverse [] h = tt
All-reverse (x ∷ xs) h =
    rw (reverse-cons x xs)
      (All-append IsGraphic (reverse xs) (x ∷ []) (All-reverse xs h.1) (h.0, tt))

pub trim-IsGraphic : (s : Text) → All IsGraphic s → trim s ≡ s
unfolding trim
trim-IsGraphic s h =
    ap (λ (t : Text). reverse (trim_back (reverse t))) (trim_start-IsGraphic s h)
    ∙ ap reverse (trim_back-IsGraphic (reverse s) (All-reverse s h))
    ∙ reverse-reverse s
