-- ===== src/Analysis/Latency/Buckets.antt =====
-- `latencyBuckets`: the distribution of the gaps.
use nats_explorer.Prelude.{
  ℕ, suc, ◌+◌, List, [], ◌∷◌, ◌++◌, map, reverse, false, ◌≡◌, refl, ap, sym, ◌∙◌, arith,
  if◌then◌else◌, leb, ltb, length, inl, inr, Bool-cases,
}
use mathlib.Core.List.{reverse-append}

pub record LatencyBucket : Type 0 where
  pub le : ℕ
  pub count : ℕ

abbrev pub bounds : List ℕ
bounds = 1 ∷ 5 ∷ 10 ∷ 25 ∷ 50 ∷ 100 ∷ 250 ∷ 500 ∷ 1000 ∷ 5000 ∷ 30000 ∷ 60000 ∷ []

-- The last bucket has no bound, which is written as 0.
abbrev pub empty_buckets : List LatencyBucket
empty_buckets =
    map (λ le. record { le = le; count = 0 }) bounds ++ record { le = 0; count = 0 } ∷ []

-- One more in the first bucket whose bound is not below `d`, or in the last bucket.
unfoldable pub count_delta : ℕ → List LatencyBucket → List LatencyBucket
count_delta d [] = []
count_delta d (b ∷ []) = record b { count = b.count + 1 } ∷ []
count_delta d (b ∷ c ∷ bs) =
    let rest = count_delta d (c ∷ bs) in
    if leb d b.le then record b { count = b.count + 1 } ∷ c ∷ bs else b ∷ rest

unfoldable pub count_deltas : List ℕ → List LatencyBucket → List LatencyBucket
unfolding count_delta
count_deltas [] buckets = buckets
count_deltas (d ∷ ds) buckets = count_deltas ds (count_delta d buckets)

-- From the first bucket that is not empty on.
unfoldable pub skip_empty : List LatencyBucket → List LatencyBucket
skip_empty [] = []
skip_empty (b ∷ bs) = let rest = skip_empty bs in if ltb 0 b.count then b ∷ bs else rest

unfoldable pub latency_buckets : List ℕ → List LatencyBucket
unfolding count_deltas skip_empty
latency_buckets deltas =
    reverse (skip_empty (reverse (skip_empty (count_deltas deltas empty_buckets))))

abbrev pub counted : List LatencyBucket → ℕ
counted [] = 0
counted (b ∷ bs) = b.count + counted bs

counted-count_delta :
    (d : ℕ) (b : LatencyBucket) (bs : List LatencyBucket)
    → counted (count_delta d (b ∷ bs)) ≡ suc (counted (b ∷ bs))
unfolding count_delta
counted-count_delta d b [] = omega arith
counted-count_delta d b (c ∷ bs) = elim (Bool-cases (leb d b.le)) [
  | inl e ↦ rw e (omega arith)
  | inr e ↦ rw e (omega (arith, counted-count_delta d c bs))
]

-- A bucket at the front stays at the front.
count_delta-some :
    (d : ℕ) (b : LatencyBucket) (bs : List LatencyBucket)
    → (c : LatencyBucket) × (cs : List LatencyBucket) × (count_delta d (b ∷ bs) ≡ c ∷ cs)
unfolding count_delta
count_delta-some d b [] = (record b { count = b.count + 1 }, [], refl)
count_delta-some d b (c ∷ bs) = elim (Bool-cases (leb d b.le)) [
  | inl e ↦ (record b { count = b.count + 1 }, c ∷ bs, rw e refl)
  | inr e ↦ (b, count_delta d (c ∷ bs), rw e refl)
]

counted-count_deltas :
    (ds : List ℕ) (b : LatencyBucket) (bs : List LatencyBucket)
    → counted (count_deltas ds (b ∷ bs)) ≡ length ds + counted (b ∷ bs)
unfolding count_deltas
counted-count_deltas [] b bs = omega arith
counted-count_deltas (d ∷ ds) b bs =
    let t = count_delta-some d b bs in
    let ih = counted-count_deltas ds t.0 t.1 in
    let one : counted (t.0 ∷ t.1) ≡ suc (counted (b ∷ bs)) =
      ap counted (sym t.2) ∙ counted-count_delta d b bs in
    ap (λ xs. counted (count_deltas ds xs)) t.2 ∙ omega (arith, ih, one)

counted-skip_empty : (bs : List LatencyBucket) → counted (skip_empty bs) ≡ counted bs
unfolding skip_empty
counted-skip_empty [] = refl
counted-skip_empty (b ∷ bs) = elim (Bool-cases (ltb 0 b.count)) [
  | inl e ↦ rw e refl
  | inr e ↦ rw e (omega (arith, counted-skip_empty bs, none_there b.count e))
]
  where
    none_there : (n : ℕ) → ltb 0 n ≡ false → n ≡ 0
    none_there n h = ground arith

counted-append : (cs bs : List LatencyBucket) → counted (cs ++ bs) ≡ counted cs + counted bs
counted-append [] bs = omega arith
counted-append (c ∷ cs) bs = omega (arith, counted-append cs bs)

counted-reverse : (bs : List LatencyBucket) → counted (reverse bs) ≡ counted bs
counted-reverse [] = refl
counted-reverse (b ∷ bs) =
    let parts : reverse (b ∷ bs) ≡ reverse bs ++ (b ∷ []) = reverse-append (b ∷ []) bs in
    ap counted parts ∙ omega (arith, counted-append (reverse bs) (b ∷ []), counted-reverse bs)

-- Every gap is counted in one bucket, and cutting off the empty buckets at the ends loses none: the counts
-- of the buckets add up to the number of gaps.
pub latency_buckets-total : (deltas : List ℕ) → counted (latency_buckets deltas) ≡ length deltas
unfolding latency_buckets
latency_buckets-total deltas =
    let all = count_deltas deltas empty_buckets in
    counted-reverse (skip_empty (reverse (skip_empty all)))
    ∙ counted-skip_empty (reverse (skip_empty all))
    ∙ counted-reverse (skip_empty all)
    ∙ counted-skip_empty all
    ∙ counted-count_deltas deltas _ _
    ∙ omega arith
