-- ===== src/SdkMetric/Histogram.antt =====
-- sdk/metric/aggregator/histogram/histogram.go: the histogram aggregator. A `number.Number` is of a
-- type of its own, with its conversion to a float and its addition (`CoerceToFloat64` and `AddNumber` of
-- the kind of the instrument); of floats only `<` is used. A `uint64` wraps. The lock makes each call one
-- step.
pub mod Buckets
pub mod Collected
use opentelemetry_go.Prelude.{
  ℕ, suc, ◌+◌, ◌%◌, Bool, true, false, List, [], ◌∷◌, map, if◌then◌else◌, length, get_or, set,
  replicate,
}

-- `state`
pub record State (N : Type 0) : Type 0 where
  pub bucket_counts : List ℕ
  pub sum : N
  pub count : ℕ

-- `Aggregator`; the kind is that of the instrument that each call is given
pub record Aggregator (N F : Type 0) : Type 0 where
  pub boundaries : List F
  pub state : State N

-- A `uint64`
abbrev pub wrap : ℕ → ℕ
wrap n = n % 0x10000000000000000

-- `oa` of `SynchronizedMove` and `Merge`: nil, an aggregator of another type, or a histogram
pub data Target (N F : Type 0) : Type 0 where
  nil : Target N F
  other : Target N F
  histogram : Aggregator N F → Target N F

-- `bucketCounts[i]++`
abbrev pub bump : List ℕ → ℕ → List ℕ
bump counts i = set counts i (wrap (get_or counts i 0 + 1))

-- The loop of `Merge`; the histograms have the same buckets.
unfoldable pub merge_counts : List ℕ → List ℕ → List ℕ
merge_counts [] ds = []
merge_counts (c ∷ cs) [] = c ∷ cs
merge_counts (c ∷ cs) (d ∷ ds) = wrap (c + d) ∷ merge_counts cs ds

module _ {N F : Type 0} (to_float : N → F) (lt : F → F → Bool) (add : N → N → N)
    (zero_number : N) where
  -- `newState`
  abbrev pub new_state : List F → State N
  new_state boundaries = record {
    bucket_counts = replicate (suc (length boundaries)) 0;
    sum = zero_number;
    count = 0;
  }

  -- `New`, for the boundaries of the options, or the default; `sort` is `sort.Float64s`.
  abbrev pub new_aggregators : (List F → List F) → ℕ → List F → List (Aggregator N F)
  new_aggregators sort cnt explicit_boundaries =
      let sorted_boundaries = sort explicit_boundaries in
      replicate cnt (record { boundaries = sorted_boundaries; state = new_state sorted_boundaries })

  -- `clearState`
  abbrev pub clear_state : State N → State N
  clear_state s = record {
    bucket_counts = map (λ c. 0) s.bucket_counts;
    sum = zero_number;
    count = 0;
  }

  -- The search of `Update`, from the boundary with index `i` on
  unfoldable pub bucket_from : ℕ → F → List F → ℕ
  bucket_from i x [] = i
  bucket_from i x (b ∷ bs) = let rest = bucket_from (suc i) x bs in if lt x b then i else rest

  abbrev pub bucket_id : F → List F → ℕ
  bucket_id x boundaries = bucket_from 0 x boundaries

  -- `Update`
  abbrev pub update : Aggregator N F → N → Aggregator N F
  update c n = record {
    boundaries = c.boundaries;
    state = record {
      bucket_counts = bump c.state.bucket_counts (bucket_id (to_float n) c.boundaries);
      sum = add c.state.sum n;
      count = wrap (c.state.count + 1);
    };
  }

  -- What `SynchronizedMove` leaves: the error, and both aggregators
  pub record Move : Type 0 where
    pub inconsistent : Bool
    pub from : Aggregator N F
    pub to : Target N F

  -- `SynchronizedMove`
  unfoldable pub synchronized_move : Aggregator N F → Target N F → Move
  synchronized_move c other = record { inconsistent = true; from = c; to = other }
  synchronized_move c nil = record {
    inconsistent = false;
    from = record { boundaries = c.boundaries; state = clear_state c.state };
    to = nil;
  }
  synchronized_move c (histogram o) = record {
    inconsistent = false;
    from = record { boundaries = c.boundaries; state = clear_state o.state };
    to = histogram (record { boundaries = o.boundaries; state = c.state });
  }

  -- `Merge`, into the first aggregator; an aggregator of another type is an error
  abbrev pub merge_states : State N → State N → State N
  merge_states s t = record {
    bucket_counts = merge_counts s.bucket_counts t.bucket_counts;
    sum = add s.sum t.sum;
    count = wrap (s.count + t.count);
  }

  unfoldable pub merge_histograms : Aggregator N F → Target N F → Bool × Aggregator N F
  merge_histograms c (histogram o) =
      (false, record { boundaries = c.boundaries; state = merge_states c.state o.state })
  merge_histograms c nil = (true, c)
  merge_histograms c other = (true, c)
