-- ===== src/Latency/Percentile.antt =====
-- LatencyStats::getPercentile and getStdDev. `std::sort` is an insertion sort here, which gives the
-- same list of numbers.
use high_performance_trading.Base.{
  ℕ, zero, suc, ◌+◌, ◌-◌, ◌≤◌, ◌<◌, ◌≡◌, refl, List, [], ◌∷◌, ltb, leb, if◌then◌else◌, length,
  arith, All, Bool-cases, inl, inr,
}
use high_performance_trading.Core.Double.{Double}
use high_performance_trading.Latency.{LatencyStats, get_average}

unfoldable pub insert_sorted : ℕ → List ℕ → List ℕ
insert_sorted x [] = x ∷ []
insert_sorted x (y ∷ ys) = if leb x y then x ∷ y ∷ ys else y ∷ insert_sorted x ys

unfoldable pub sort : List ℕ → List ℕ
unfolding insert_sorted
sort [] = []
sort (x ∷ xs) = insert_sorted x (sort xs)

-- `sorted[index]`; the index is below the size where the program reads.
abbrev pub nth : List ℕ → ℕ → ℕ
nth [] i = 0
nth (x ∷ xs) zero = x
nth (x ∷ xs) (suc i) = nth xs i

module _ {D : Type 0} (d : Double D) where
  -- `to_index` is the conversion of a `double` to `size_t`.
  unfoldable pub percentile_index : (D → ℕ) → D → ℕ → ℕ
  percentile_index to_index percentile size =
      to_index (d.mul (d.div percentile (d.of_nat 100)) (d.of_nat (size - 1)))

  abbrev percentile_of : (D → ℕ) → D → List ℕ → ℕ
  percentile_of to_index percentile [] = 0
  percentile_of to_index percentile (x ∷ xs) =
      nth (sort (x ∷ xs)) (percentile_index to_index percentile (length (x ∷ xs)))

  unfoldable pub get_percentile : (D → ℕ) → D → LatencyStats → ℕ
  get_percentile to_index percentile s = percentile_of to_index percentile s.samples

  unfoldable pub add_squares : D → D → List ℕ → D
  add_squares mean variance [] = variance
  add_squares mean variance (x ∷ xs) =
      let diff = d.sub (d.of_nat x) mean in add_squares mean (d.add variance (d.mul diff diff)) xs

  -- `sqrt` is `std::sqrt`.
  unfoldable pub get_std_dev : (D → D) → LatencyStats → D
  unfolding add_squares
  get_std_dev sqrt s =
      if ltb s.count_of 2
      then d.of_nat 0
      else sqrt
          (d.div (add_squares (get_average d s) (d.of_nat 0) s.samples) (d.of_nat (s.count_of - 1)))

-- How many numbers are below `x`, and how many are at most `x`.
abbrev pub below : ℕ → List ℕ → ℕ
below x [] = 0
below x (y ∷ ys) = (if ltb y x then 1 else 0) + below x ys

abbrev pub up_to : ℕ → List ℕ → ℕ
up_to x [] = 0
up_to x (y ∷ ys) = (if leb y x then 1 else 0) + up_to x ys

abbrev IsSorted : List ℕ → Type 0
IsSorted [] = Unit
IsSorted (x ∷ xs) = All (λ y. x ≤ y) xs × IsSorted xs

insert_sorted-counts :
    (x a : ℕ) (ys : List ℕ)
    → (below a (insert_sorted x ys) ≡ below a (x ∷ ys))
      × (up_to a (insert_sorted x ys) ≡ up_to a (x ∷ ys))
      × (length (insert_sorted x ys) ≡ suc (length ys))
unfolding insert_sorted
insert_sorted-counts x a [] = (refl, refl, refl)
insert_sorted-counts x a (y ∷ ys) = ground (arith, insert_sorted-counts x a ys)

insert_sorted-All :
    (x a : ℕ) (ys : List ℕ) → a ≤ x → All (λ y. a ≤ y) ys → All (λ y. a ≤ y) (insert_sorted x ys)
unfolding insert_sorted
insert_sorted-All x a [] h all = (h, tt)
insert_sorted-All x a (y ∷ ys) h all = ground (arith, insert_sorted-All x a ys h all.1)

All-le : (a b : ℕ) (ys : List ℕ) → a ≤ b → All (λ y. b ≤ y) ys → All (λ y. a ≤ y) ys
All-le a b [] h all = tt
All-le a b (y ∷ ys) h all = (omega (arith, h), All-le a b ys h all.1)

insert_sorted-IsSorted : (x : ℕ) (ys : List ℕ) → IsSorted ys → IsSorted (insert_sorted x ys)
unfolding insert_sorted
insert_sorted-IsSorted x [] h = (tt, tt)
insert_sorted-IsSorted x (y ∷ ys) h = elim (Bool-cases (leb x y)) [
  | inl e ↦ let first : x ≤ y = ground arith in rw e ((first, All-le x y ys first h.0), h)
  | inr e ↦ rw e (insert_sorted-All x y ys (ground arith) h.0, insert_sorted-IsSorted x ys h.1)
]

sort-counts :
    (a : ℕ) (xs : List ℕ)
    → (below a (sort xs) ≡ below a xs)
      × (up_to a (sort xs) ≡ up_to a xs)
      × (length (sort xs) ≡ length xs)
unfolding sort
sort-counts a [] = (refl, refl, refl)
sort-counts a (x ∷ xs) = ground (arith, insert_sorted-counts x a (sort xs), sort-counts a xs)

sort-IsSorted : (xs : List ℕ) → IsSorted (sort xs)
unfolding sort
sort-IsSorted [] = tt
sort-IsSorted (x ∷ xs) = insert_sorted-IsSorted x (sort xs) (sort-IsSorted xs)

below-All : (a : ℕ) (xs : List ℕ) → All (λ y. a ≤ y) xs → below a xs ≡ 0
below-All a [] all = refl
below-All a (x ∷ xs) all = ground (arith, below-All a xs all.1, all.0)

nth-All : (a i : ℕ) (xs : List ℕ) → All (λ y. a ≤ y) xs → i < length xs → a ≤ nth xs i
nth-All a i [] all h = absurd (omega arith)
nth-All a zero (x ∷ xs) all h = all.0
nth-All a (suc i) (x ∷ xs) all h = nth-All a i xs all.1 (omega arith)

nth-rank :
    (i : ℕ) (xs : List ℕ)
    → IsSorted xs
    → i < length xs
    → (below (nth xs i) xs ≤ i) × (i < up_to (nth xs i) xs)
nth-rank i [] sorted h = absurd (omega arith)
nth-rank zero (x ∷ xs) sorted h = ground (arith, below-All x xs sorted.0)
nth-rank (suc i) (x ∷ xs) sorted h =
    ground (arith, nth-rank i xs sorted.1 (omega arith), nth-All x i xs sorted.0 (omega arith))

sorted_rank :
    (i : ℕ) (xs : List ℕ)
    → i < length xs
    → (below (nth (sort xs) i) xs ≤ i) × (i < up_to (nth (sort xs) i) xs)
sorted_rank i xs h =
    let a = nth (sort xs) i in
    let (same_below, same_up_to, same_length) = sort-counts a xs in
    let rank = nth-rank i (sort xs) (sort-IsSorted xs) (omega (arith, same_length)) in
    omega (arith, rank, same_below, same_up_to)

percentile_of_rank :
    {D : Type 0} (d : Double D) (to_index : D → ℕ) (percentile : D) (xs : List ℕ)
    → percentile_index d to_index percentile (length xs) < length xs
    → (below (percentile_of d to_index percentile xs) xs
        ≤ percentile_index d to_index percentile (length xs))
      × (percentile_index d to_index percentile (length xs)
          < up_to (percentile_of d to_index percentile xs) xs)
percentile_of_rank d to_index percentile [] h = absurd (omega arith)
percentile_of_rank d to_index percentile (x ∷ xs) h =
    sorted_rank (percentile_index d to_index percentile (length (x ∷ xs))) (x ∷ xs) h

-- If the index of a percentile is below the number of samples, then at most that many samples are
-- less than the result, and more than that many are at most the result.
pub get_percentile_rank :
    {D : Type 0} (d : Double D) (to_index : D → ℕ) (percentile : D) (s : LatencyStats)
    → percentile_index d to_index percentile (length s.samples) < length s.samples
    → let index = percentile_index d to_index percentile (length s.samples) in
      let result = get_percentile d to_index percentile s in
      (below result s.samples ≤ index) × (index < up_to result s.samples)
unfolding get_percentile
get_percentile_rank d to_index percentile s h = percentile_of_rank d to_index percentile s.samples h
