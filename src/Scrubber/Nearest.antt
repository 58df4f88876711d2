-- ===== src/Scrubber/Nearest.antt =====
-- Where a jump goes to.
use polyquantlab.Common.{
  ℕ, suc, ◌+◌, ◌≤◌, ◌≡◌, refl, arith, Bool, true, false, List, [], ◌∷◌, Option, none, some,
  get_elem?, All, All-get_elem?,
}
use polyquantlab.Scrubber.{distance, is_less, pick, nearest_loop, jump_to_ts}

-- The snapshot at this index is at this distance.
data HasDistance (points : List ℕ) (target r d : ℕ) : Type 0 where
  has_distance :
      (p : ℕ) → get_elem? points r ≡ some p → distance p target ≡ d → HasDistance points target r d

-- An index of a snapshot that is no further than `b`, nor than the ones listed.
record Finds (points : List ℕ) (target b : ℕ) (ps : List ℕ) (r : ℕ) : Type 0 where
  d : ℕ
  has : HasDistance points target r d
  under : d ≤ b
  each : All (λ q. d ≤ distance q target) ps

Finds-cons :
    (c : Bool) (points : List ℕ) (target b p : ℕ) (ps : List ℕ) (r : ℕ)
    → is_less (distance p target) (some b) ≡ c
    → Finds points target (pick c (distance p target) b) ps r
    → Finds points target b (p ∷ ps) r
Finds-cons true points target b p ps r e f = record {
  d = f.d;
  has = f.has;
  under = let u = f.under in ground arith;
  each = (f.under, f.each);
}
Finds-cons false points target b p ps r e f = record {
  d = f.d;
  has = f.has;
  under = f.under;
  each = ((let u = f.under in ground arith), f.each);
}

pick-HasDistance :
    (c : Bool) (points : List ℕ) (target i p r b : ℕ)
    → get_elem? points i ≡ some p
    → HasDistance points target r b
    → HasDistance points target (pick c i r) (pick c (distance p target) b)
pick-HasDistance true points target i p r b e h = has_distance p e refl
pick-HasDistance false points target i p r b e h = h

pick-some : (c : Bool) (a b : ℕ) → pick c (some a) (some b) ≡ some (pick c a b)
pick-some true a b = refl
pick-some false a b = refl

nearest_loop-Finds :
    (points : List ℕ) (target i r b : ℕ) (ps : List ℕ)
    → ((k : ℕ) → get_elem? points (i + k) ≡ get_elem? ps k)
    → HasDistance points target r b
    → Finds points target b ps (nearest_loop target i r (some b) ps)
unfolding nearest_loop
nearest_loop-Finds points target i r b [] at h = record {
  d = b;
  has = h;
  under = omega arith;
  each = tt;
}
nearest_loop-Finds points target i r b (p ∷ ps) at h =
    let c = is_less (distance p target) (some b) in
    let here : get_elem? points i ≡ some p = let z : i + 0 ≡ i = omega arith in rw (← z) (at 0) in
    Finds-cons c points target b p ps _ refl (
      rw (pick-some c (distance p target) b) (
        nearest_loop-Finds points target (suc i) (pick c i r) (pick c (distance p target) b) ps
          (λ k. let z : suc i + k ≡ i + suc k = omega arith in rw z (at (suc k)))
          (pick-HasDistance c points target i p r b here h)))

-- A jump to a snapshot that is at most as far from the target as `q` is.
pub data IsNearest (points : List ℕ) (target q : ℕ) : Option ℕ → Type 0 where
  nearest :
      (r p : ℕ)
      → get_elem? points r ≡ some p
      → distance p target ≤ distance q target
      → IsNearest points target q (some r)

HasDistance-IsNearest :
    (points : List ℕ) (target q r d : ℕ)
    → HasDistance points target r d
    → d ≤ distance q target
    → IsNearest points target q (some r)
HasDistance-IsNearest points target q r d (has_distance p e h) l = nearest r p e (rw h l)

first_loop-Finds :
    (p target : ℕ) (ps : List ℕ)
    → Finds (p ∷ ps) target (distance p target) ps (nearest_loop target 0 0 none (p ∷ ps))
unfolding nearest_loop
first_loop-Finds p target ps =
    nearest_loop-Finds (p ∷ ps) target 1 0 (distance p target) ps
      (λ k. let z : 1 + k ≡ suc k = omega arith in rw z refl) (has_distance p refl refl)

-- Jumping to a time goes to a nearest snapshot: whatever snapshots there are, in any order, none of
-- them is nearer to the time than the one whose index is passed on.
pub jump_to_ts-IsNearest :
    (points : List ℕ) (target k : ℕ) {q : ℕ}
    → get_elem? points k ≡ some q
    → IsNearest points target q (jump_to_ts points target)
jump_to_ts-IsNearest [] target k e = cc
jump_to_ts-IsNearest (p ∷ ps) target k {q} e =
    let f = first_loop-Finds p target ps in
    HasDistance-IsNearest (p ∷ ps) target q _ f.d f.has
      (All-get_elem? (λ q. f.d ≤ distance q target) (p ∷ ps) k (f.under, f.each) e)
