-- ===== src/Prelude/Text.antt =====
-- Texts by their characters.
use Prim.Native.Char.{code}
use Prim.Native.Nat.{ℕ, Ordering, compare as compare_ℕ}
use Prim.Native.String.compare
use Prim.Native.String.{String, [], ◌∷◌, ◌++◌, then as and_then, compare}
use native.Mathlib.Omega.{arith}
use mathlib.Core.Option.{Option, none, some}
use mathlib.Core.Path.{◌≡◌, refl, sym, ap, ◌∙◌}
use text.Mathlib.TextLemmas.{nil-append, cons-append}
use mathlib.Core.Logic.{inl, inr}
use attendence_v.Prelude.Tests.{◌==◌, ==-refl, if◌then◌else◌, Bool-cases}

-- `s[len(p):]` where `s.startswith(p)`.
abbrev pub after_prefix : String → String → Option String
after_prefix [] s = some s
after_prefix (c ∷ p) [] = none
after_prefix (c ∷ p) (d ∷ s) =
    let rest = after_prefix p s in if code c == code d then rest else none

pub after_prefix-append : (p s : String) → after_prefix p (p ++ s) ≡ some s
after_prefix-append [] s = ap (after_prefix []) (nil-append s)
after_prefix-append (c ∷ p) s =
    ap (after_prefix (c ∷ p)) (cons-append c p s) ∙ rw (==-refl (code c)) (after_prefix-append p s)

-- Leading blanks taken off.
abbrev pub lstrip : String → String
lstrip [] = []
lstrip (c ∷ s) = let rest = lstrip s in if code c == 32 then rest else c ∷ s

lstrip_idem : (s : String) → lstrip (lstrip s) ≡ lstrip s
lstrip_idem [] = refl
lstrip_idem (c ∷ s) = elim (Bool-cases (code c == 32)) [
  | inl blank ↦ rw blank (lstrip_idem s)
  | inr other ↦ rw (other, other) refl
]

pub lstrip-blank : (s : String) → lstrip (" " ++ lstrip s) ≡ lstrip s
lstrip-blank s =
    ap lstrip (cons-append " " [] (lstrip s))
    ∙ ap (λ (t : String). lstrip (" " ∷ t)) (nil-append (lstrip s))
    ∙ lstrip_idem s

-- The answer with the arguments swapped.
abbrev pub flip : Ordering → Ordering
flip Ordering.lt = Ordering.gt
flip Ordering.eq = Ordering.eq
flip Ordering.gt = Ordering.lt

flip_lem : (a b : Ordering) → and_then (flip a) (flip b) ≡ flip (and_then a b)
flip_lem Ordering.lt b = refl
flip_lem Ordering.eq b = refl
flip_lem Ordering.gt b = refl

flip_numbers : (a b : ℕ) → compare_ℕ b a ≡ flip (compare_ℕ a b)
flip_numbers a b = ground arith

pub compare-flip : (s t : String) → compare t s ≡ flip (compare s t)
compare-flip [] [] = compare.nil-nil ∙ ap flip (sym compare.nil-nil)
compare-flip [] (d ∷ t) = compare.cons-nil d t ∙ ap flip (sym (compare.nil-cons d t))
compare-flip (c ∷ s) [] = compare.nil-cons c s ∙ ap flip (sym (compare.cons-nil c s))
compare-flip (c ∷ s) (d ∷ t) =
    compare.cons-cons d c t s
    ∙ (λ i. and_then (flip_numbers (code c) (code d) i) (compare-flip s t i))
    ∙ flip_lem (compare_ℕ (code c) (code d)) (compare s t)
    ∙ ap flip (sym (compare.cons-cons c d s t))
