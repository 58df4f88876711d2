-- ===== src/Calibration/Widest.antt =====
-- The bucket that the insight shows.
use polyquantlab.Common.{
  ℕ, ◌+◌, ◌*◌, ◌≤◌, ◌<◌, ltb, leb, ◌≡◌, refl, arith, Bool, true, false, ◌&&◌, List, [], ◌∷◌, Option,
  none, some, All, cons_if, ◌⊎◌, inl, inr, if◌then◌else◌,
}
use mathlib.Core.List.{Memᴰ}
use polyquantlab.Calibration.{
  Bucket, is_some, or_zero, is_candidate, candidates, gap, wider, widest, winner_of, notable_if,
  notable, insight,
}

-- A bucket with 20 markets or more and both figures, which are `n` apart.
pub data IsOff (b : Bucket) (n : ℕ) : Type 0 where
  above :
      (up mid : ℕ)
      → 20 ≤ b.n_markets
      → b.up_rate ≡ some up
      → b.mean_mid ≡ some mid
      → up ≡ mid + n
      → IsOff b n
  below :
      (up mid : ℕ)
      → 20 ≤ b.n_markets
      → b.up_rate ≡ some up
      → b.mean_mid ≡ some mid
      → mid ≡ up + n
      → IsOff b n

-- A bucket that does not count: with fewer than 20 markets, or without one of the figures.
pub data IsLeftOut (b : Bucket) : Type 0 where
  few : b.n_markets < 20 → IsLeftOut b
  no_rate : b.up_rate ≡ none → IsLeftOut b
  no_price : b.mean_mid ≡ none → IsLeftOut b

-- A bucket that does not count, or whose figures are `n` apart at most.
pub data IsWithin (n : ℕ) (b : Bucket) : Type 0 where
  left_out : IsLeftOut b → IsWithin n b
  near :
      (up mid : ℕ)
      → b.up_rate ≡ some up
      → b.mean_mid ≡ some mid
      → up ≤ mid + n
      → mid ≤ up + n
      → IsWithin n b

-- What is shown of some buckets: nothing where none counts, or where all that count are off by less
-- than 2pp; or one of them, which counts, is off by at least that, and by at least as much as each.
pub data IsWidest (one : ℕ) (bs : List Bucket) : Option Bucket → Type 0 where
  no_candidate : All IsLeftOut bs → IsWidest one bs none
  none_notable : (n : ℕ) → 100 * n < 2 * one → All (IsWithin n) bs → IsWidest one bs none
  widest_notable :
      {b : Bucket} (n : ℕ)
      → Memᴰ b bs
      → IsOff b n
      → 2 * one ≤ 100 * n
      → All (IsWithin n) bs
      → IsWidest one bs (some b)

wider_if-le :
    (c : Bool) (best b : Bucket)
    → ltb (gap best) (gap b) ≡ c
    → (gap best ≤ gap (if c then b else best)) × (gap b ≤ gap (if c then b else best))
wider_if-le true best b e = ((ground arith), (omega arith))
wider_if-le false best b e = ((omega arith), (ground arith))

widest-le : (best : Bucket) (bs : List Bucket) → All (λ c. gap c ≤ gap (widest best bs)) (best ∷ bs)
unfolding widest
widest-le best [] = ((omega arith), tt)
widest-le best (b ∷ bs) =
    let h = widest-le (wider best b) bs in
    let k = wider_if-le (ltb (gap best) (gap b)) best b refl in
    let f = h.0 in let g = k.0 in let i = k.1 in ((omega arith), ((omega arith), h.1))

wider_if-mem :
    (c : Bool) (best b : Bucket) (bs : List Bucket) {x : Bucket}
    → Memᴰ x ((if c then b else best) ∷ bs)
    → Memᴰ x (best ∷ b ∷ bs)
wider_if-mem true best b bs h = Memᴰ.tail h
wider_if-mem false best b bs (Memᴰ.head e) = Memᴰ.head e
wider_if-mem false best b bs (Memᴰ.tail h) = Memᴰ.tail (Memᴰ.tail h)

widest-mem : (best : Bucket) (bs : List Bucket) → Memᴰ (widest best bs) (best ∷ bs)
unfolding widest
widest-mem best [] = Memᴰ.head refl
widest-mem best (b ∷ bs) =
    wider_if-mem (ltb (gap best) (gap b)) best b bs (widest-mem (wider best b) bs)

abbrev up_of : Bucket → ℕ
up_of b = or_zero b.up_rate

abbrev mid_of : Bucket → ℕ
mid_of b = or_zero b.mean_mid

-- A bucket passes the filter exactly where it counts.
counts :
    (n : ℕ) (up mid : Option ℕ)
    → (leb 20 n && (is_some up && is_some mid)) ≡ true
    → (20 ≤ n) × (up ≡ some (or_zero up)) × (mid ≡ some (or_zero mid))
counts n (some u) (some m) e = ((ground arith), refl, refl)
counts n (some u) none e = absurd (ground arith)
counts n none m e = absurd (ground arith)

apart_if :
    (c : Bool) (b : Bucket) → is_candidate b ≡ true → leb (mid_of b) (up_of b) ≡ c → IsOff b (gap b)
apart_if true b e h =
    let (n, u, m) = counts b.n_markets b.up_rate b.mean_mid e in above _ _ n u m (ground arith)
apart_if false b e h =
    let (n, u, m) = counts b.n_markets b.up_rate b.mean_mid e in below _ _ n u m (ground arith)

candidate-IsOff : (b : Bucket) → is_candidate b ≡ true → IsOff b (gap b)
candidate-IsOff b e = apart_if _ b e refl

candidate-IsWithin : (n : ℕ) (b : Bucket) → is_candidate b ≡ true → gap b ≤ n → IsWithin n b
candidate-IsWithin n b e h =
    let (k, u, m) = counts b.n_markets b.up_rate b.mean_mid e in
    near _ _ u m (omega arith) (omega arith)

left_of :
    (b : Bucket) (up mid : Option ℕ)
    → b.up_rate ≡ up
    → b.mean_mid ≡ mid
    → (leb 20 b.n_markets && (is_some up && is_some mid)) ≡ false
    → IsLeftOut b
left_of b none mid u m e = no_rate u
left_of b (some x) none u m e = no_price m
left_of b (some x) (some y) u m e = few (ground arith)

-- What holds of the candidates, of all the buckets.
within_if :
    (n : ℕ) (c : Bool) (b : Bucket) (rest : List Bucket)
    → is_candidate b ≡ c
    → All (λ d. gap d ≤ n) (cons_if c b rest)
    → IsWithin n b × All (λ d. gap d ≤ n) rest
within_if n true b rest e (h, hs) = (candidate-IsWithin n b e h, hs)
within_if n false b rest e hs = (left_out (left_of b _ _ refl refl e), hs)

buckets_within :
    (n : ℕ) (bs : List Bucket) → All (λ d. gap d ≤ n) (candidates bs) → All (IsWithin n) bs
buckets_within n [] h = tt
buckets_within n (b ∷ bs) h =
    let (k, ks) = within_if n (is_candidate b) b (candidates bs) refl h in
    (k, buckets_within n bs ks)

left_if :
    (c : Bool) (b : Bucket) (rest : List Bucket)
    → is_candidate b ≡ c
    → cons_if c b rest ≡ []
    → IsLeftOut b × (rest ≡ [])
left_if true b rest e h = cc
left_if false b rest e h = (left_of b _ _ refl refl e, h)

buckets_left : (bs : List Bucket) → candidates bs ≡ [] → All IsLeftOut bs
buckets_left [] h = tt
buckets_left (b ∷ bs) h =
    let (k, ks) = left_if (is_candidate b) b (candidates bs) refl h in (k, buckets_left bs ks)

-- A candidate is one of the buckets.
found_if :
    (c : Bool) (b : Bucket) (rest : List Bucket) {x : Bucket}
    → is_candidate b ≡ c
    → Memᴰ x (cons_if c b rest)
    → ((x ≡ b) × (is_candidate b ≡ true)) ⊎ Memᴰ x rest
found_if true b rest e (Memᴰ.head h) = inl (h, e)
found_if true b rest e (Memᴰ.tail h) = inr h
found_if false b rest e h = inr h

candidates-mem :
    (bs : List Bucket) {x : Bucket} → Memᴰ x (candidates bs) → Memᴰ x bs × (is_candidate x ≡ true)
candidates-mem [] h = elim h [ ]
candidates-mem (b ∷ bs) h = elim (found_if (is_candidate b) b (candidates bs) refl h) [
  | inl (e, c) ↦ (Memᴰ.head e, rw (e) c)
  | inr k ↦ (let (i, c) = candidates-mem bs k in (Memᴰ.tail i, c))
]

notable_if-IsWidest :
    (c : Bool) (one : ℕ) (b : Bucket) (bs : List Bucket)
    → ltb (100 * gap b) (2 * one) ≡ c
    → Memᴰ b (candidates bs)
    → All (λ d. gap d ≤ gap b) (candidates bs)
    → IsWidest one bs (notable_if c b)
notable_if-IsWidest true one b bs e m k =
    none_notable (gap b) (ground arith) (buckets_within _ bs k)
notable_if-IsWidest false one b bs e m k =
    let (i, c) = candidates-mem bs m in
    widest_notable (gap b) i (candidate-IsOff b c) (ground arith) (buckets_within _ bs k)

winner-IsWidest :
    (one : ℕ) (bs cs : List Bucket)
    → candidates bs ≡ cs
    → IsWidest one bs (notable one (winner_of cs))
winner-IsWidest one bs [] e = no_candidate (buckets_left bs e)
winner-IsWidest one bs (b ∷ cs) e =
    notable_if-IsWidest _ one (widest b cs) bs refl (rw (e) (widest-mem b cs))
      (rw (e) (widest-le b cs))

-- The insight is one of the buckets, with 20 markets or more and both figures, whose rate is off from
-- its price by 2 percentage points at least, and no bucket with 20 markets and both figures is further
-- off; nothing is shown only where no bucket counts, or where each that counts is off by less.
pub insight-IsWidest : (one : ℕ) (bs : List Bucket) → IsWidest one bs (insight one bs)
unfolding insight
insight-IsWidest one bs = winner-IsWidest one bs (candidates bs) refl
