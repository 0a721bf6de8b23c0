-- ===== src/Prelude/Slice.antt =====
-- len(s) and s[:n] of texts.
use Prim.Native.Nat.{ℕ, zero, suc, ◌+◌, ◌≤◌}
use Prim.Native.String.{String, ◌++◌ as ◌<>◌}
use mathlib.Core.Path.{◌≡◌, ap, ◌∙◌}
use text.Mathlib.TextLemmas.{nil-append, cons-append}
use native.Mathlib.Omega.{arith}

unfoldable pub size : String → ℕ
size String.[] = 0
size (String.◌∷◌ c s) = size s + 1

unfoldable pub first : ℕ → String → String
first n String.[] = ""
first zero (String.◌∷◌ c s) = ""
first (suc n) (String.◌∷◌ c s) = String.◌∷◌ c (first n s)

pub size-append : (s t : String) → size (s <> t) ≡ size s + size t
unfolding size
size-append String.[] t = ap size (nil-append t) ∙ omega arith
size-append (String.◌∷◌ c s) t = ap size (cons-append c s t) ∙ omega (arith, size-append s t)

pub size-first-le : (n : ℕ) (s : String) → size (first n s) ≤ n
unfolding size first
size-first-le n String.[] = omega arith
size-first-le zero (String.◌∷◌ c s) = omega arith
size-first-le (suc n) (String.◌∷◌ c s) = omega (arith, size-first-le n s)
