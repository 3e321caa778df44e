-- ===== src/Tests/Metrics.antt =====
-- The histogram aggregator, on natural numbers as measurements.
use opentelemetry_go.Prelude.{ℕ, ◌+◌, ◌≡◌, refl, false, List, [], ◌∷◌, arith, ltb, length, get_or}
use opentelemetry_go.Attribute.Set.{search}
use opentelemetry_go.SdkMetric.Histogram.{
  Aggregator, Target, nil, other, histogram, bucket_id, update, synchronized_move, merge_histograms,
}
use opentelemetry_go.SdkMetric.Histogram.Buckets.{bucket_id-search}
use opentelemetry_go.SdkMetric.Histogram.Collected.{
  update_all, fresh, merge_histograms-synchronized_move,
}

abbrev same_number : ℕ → ℕ
same_number n = n

abbrev sum_of : ℕ → ℕ → ℕ
sum_of a b = a + b

abbrev bounds : List ℕ
bounds = 5 ∷ 10 ∷ []

abbrev counted : Aggregator ℕ ℕ
counted =
    update_all same_number ltb sum_of 0 (fresh same_number ltb sum_of 0 bounds)
      (3 ∷ 5 ∷ 12 ∷ 7 ∷ [])

-- A value on a boundary is in the bucket behind it.
counted_in_buckets : counted.state.bucket_counts ≡ 1 ∷ 2 ∷ 1 ∷ []
unfolding opentelemetry_go.SdkMetric.Histogram.bucket_from
counted_in_buckets = refl

counted_sum : counted.state.sum ≡ 27
counted_sum = refl

bucket_id-search_example :
    bucket_id same_number ltb sum_of 0 7 bounds
    ≡ search (length bounds) (λ i. ltb 7 (get_or bounds i 0)) 0 (length bounds)
bucket_id-search_example =
    bucket_id-search same_number ltb sum_of 0 7 0 bounds
      (((λ x h. ground (arith, h)), tt), (tt, tt))

merge_histograms-synchronized_move_example :
    (let moved =
        synchronized_move same_number ltb sum_of 0
          (update_all same_number ltb sum_of 0 (fresh same_number ltb sum_of 0 bounds) (3 ∷ 5 ∷ []))
          (histogram counted) in
      (moved.inconsistent ≡ false)
      × (moved.from ≡ fresh same_number ltb sum_of 0 bounds)
      × (checkpoint : Aggregator ℕ ℕ) × (moved.to ≡ histogram checkpoint)
      × (merge_histograms same_number ltb sum_of 0 checkpoint
            (histogram (update_all same_number ltb sum_of 0 moved.from (12 ∷ [])))
          ≡ (
            false,
            update_all same_number ltb sum_of 0
                (fresh same_number ltb sum_of 0 bounds)
                (3 ∷ 5 ∷ 12 ∷ []),
          )))
unfolding opentelemetry_go.SdkMetric.Histogram.bucket_from
merge_histograms-synchronized_move_example =
    merge_histograms-synchronized_move same_number ltb sum_of 0 (λ a b c. omega arith)
      (λ a. omega arith) bounds (3 ∷ 5 ∷ []) (12 ∷ []) counted refl refl
