-- ===== src/Prelude/Order.antt =====
-- The order of texts, by the numbers of their characters.
use Prim.Native.Char.{Char, code}
use Prim.Native.Nat.{ℕ, Ordering}
use Prim.Native.Nat.{compare as compare_ℕ}
use Prim.Native.String.{String, compare, then}
use Prim.Native.String.compare
use mathlib.Core.Path.{◌≡◌, sym, ◌∙◌}
use native.Mathlib.Omega.{arith}

cons-cons_lem :
    (c d : Char) (s t : String)
    → compare (String.◌∷◌ c s) (String.◌∷◌ d t) ≡ then (compare_ℕ (code c) (code d)) (compare s t)
cons-cons_lem c d s t = compare.cons-cons c d s t

cons-nil_lem : (c : Char) (s : String) → compare (String.◌∷◌ c s) String.[] ≡ Ordering.gt
cons-nil_lem c s = compare.cons-nil c s

nil-cons_lem : (c : Char) (s : String) → compare String.[] (String.◌∷◌ c s) ≡ Ordering.lt
nil-cons_lem c s = compare.nil-cons c s

nil-nil_lem : compare String.[] String.[] ≡ Ordering.eq
nil-nil_lem = compare.nil-nil

then_swap :
    (m n : ℕ) (o p : Ordering)
    → (o ≡ Ordering.gt → p ≡ Ordering.lt)
    → then (compare_ℕ m n) o ≡ Ordering.gt
    → then (compare_ℕ n m) p ≡ Ordering.lt
then_swap m n o p swap h = ground arith

-- What comes after a text does not come before it.
pub compare_swap : (s t : String) → compare s t ≡ Ordering.gt → compare t s ≡ Ordering.lt
compare_swap String.[] String.[] h = cc (nil-nil_lem)
compare_swap String.[] (String.◌∷◌ d t) h = cc (nil-cons_lem d t)
compare_swap (String.◌∷◌ c s) String.[] h = nil-cons_lem c s
compare_swap (String.◌∷◌ c s) (String.◌∷◌ d t) h =
    cons-cons_lem d c t s
    ∙ then_swap (code c) (code d) (compare s t) (compare t s) (compare_swap s t)
        (sym (cons-cons_lem c d s t) ∙ h)
