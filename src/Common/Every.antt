-- ===== src/Common/Every.antt =====
-- What list operations keep of a property of every element.
use Prim.Native.Nat.{ℕ, zero, suc, ◌≤◌}
use mathlib.Core.Path.{◌≡◌}
use mathlib.Core.Bool.{Bool, true, false}
use mathlib.Core.List.{List, [], ◌∷◌, ◌++◌}
use mathlib.Core.Option
use mathlib.Core.Option.{some}
use native.Mathlib.Omega.{arith}
use polyquantlab.Common.Lists.{length, get_elem?, set, erase_idx, take, cons_if, keep_if, All}

module _ {ℓ κ} {A : Type ℓ} (P : A → Type κ) where
  pub All-concat : (xs : List A) {x : A} → All P xs → P x → All P (xs ++ x ∷ [])
  All-concat [] h p = (p, tt)
  All-concat (y ∷ xs) (q, h) p = (q, All-concat xs h p)

  pub All-append : (xs ys : List A) → All P xs → All P ys → All P (xs ++ ys)
  All-append [] ys h k = k
  All-append (x ∷ xs) ys (p, h) k = (p, All-append xs ys h k)

  pub All-set : (xs : List A) (i : ℕ) {x : A} → All P xs → P x → All P (set xs i x)
  All-set [] i h p = tt
  All-set (y ∷ xs) zero (q, h) p = (p, h)
  All-set (y ∷ xs) (suc i) (q, h) p = (q, All-set xs i h p)

  pub All-erase_idx : (xs : List A) (i : ℕ) → All P xs → All P (erase_idx xs i)
  All-erase_idx [] i h = tt
  All-erase_idx (y ∷ xs) zero (q, h) = h
  All-erase_idx (y ∷ xs) (suc i) (q, h) = (q, All-erase_idx xs i h)

  pub All-get_elem? : (xs : List A) (i : ℕ) {x : A} → All P xs → get_elem? xs i ≡ some x → P x
  All-get_elem? [] i h e = cc
  All-get_elem? (y ∷ xs) zero (q, h) e = rw (← Option.some-injective _ _ e) q
  All-get_elem? (y ∷ xs) (suc i) (q, h) e = All-get_elem? xs i h e

  pub All-take : (n : ℕ) (xs : List A) → All P xs → All P (take n xs)
  All-take zero xs h = tt
  All-take (suc n) [] h = tt
  All-take (suc n) (x ∷ xs) (p, h) = (p, All-take n xs h)

  All-cons_if : (b : Bool) (x : A) (xs : List A) → P x → All P xs → All P (cons_if b x xs)
  All-cons_if true x xs p h = (p, h)
  All-cons_if false x xs p h = h

  pub All-keep_if : (p : A → Bool) (xs : List A) → All P xs → All P (keep_if p xs)
  All-keep_if p [] h = tt
  All-keep_if p (x ∷ xs) (q, h) = All-cons_if (p x) x (keep_if p xs) q (All-keep_if p xs h)

length-cons_if {ℓ} :
    {A : Type ℓ} (b : Bool) (x : A) (xs : List A) → length (cons_if b x xs) ≤ suc (length xs)
length-cons_if true x xs = omega arith
length-cons_if false x xs = omega arith

pub length-keep_if {ℓ} :
    {A : Type ℓ} (p : A → Bool) (xs : List A) → length (keep_if p xs) ≤ length xs
length-keep_if p [] = omega arith
length-keep_if p (x ∷ xs) =
    omega (arith, length-cons_if (p x) x (keep_if p xs), length-keep_if p xs)
