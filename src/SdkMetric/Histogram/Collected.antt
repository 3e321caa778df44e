-- ===== src/SdkMetric/Histogram/Collected.antt =====
-- What is moved to a checkpoint and merged there.
use opentelemetry_go.Prelude.{
  ℕ, zero, suc, ◌+◌, ◌≡◌, refl, sym, ap, ◌∙◌, Bool, false, List, [], ◌∷◌, ◌++◌, map, arith, length,
  get_or, length-set, replicate, length-replicate, All,
}
use opentelemetry_go.SdkMetric.Histogram.{
  State, Aggregator, wrap, histogram, bump, merge_counts, new_state, clear_state, bucket_id, update,
  synchronized_move, merge_states, merge_histograms,
}

wrap-add : (c d : ℕ) → wrap (c + wrap (d + 1)) ≡ wrap (wrap (c + d) + 1)
wrap-add c d = omega arith

-- Counting before a merge and behind it.
merge_counts-bump :
    (cs ds : List ℕ) (i : ℕ)
    → length cs ≡ length ds
    → merge_counts cs (bump ds i) ≡ bump (merge_counts cs ds) i
unfolding merge_counts
merge_counts-bump [] ds i e = refl
merge_counts-bump (c ∷ cs) [] i e = absurd (omega (arith, e))
merge_counts-bump (c ∷ cs) (d ∷ ds) zero e = ap (λ n. n ∷ merge_counts cs ds) (wrap-add c d)
merge_counts-bump (c ∷ cs) (d ∷ ds) (suc i) e =
    ap (◌∷◌ (wrap (c + d))) (merge_counts-bump cs ds i (omega (arith, e)))

-- Counters that have wrapped.
abbrev IsWrapped : List ℕ → Type 0
IsWrapped cs = All (λ c. wrap c ≡ c) cs

merge_counts-zeros : (cs : List ℕ) → IsWrapped cs → merge_counts cs (replicate (length cs) 0) ≡ cs
unfolding merge_counts
merge_counts-zeros [] h = refl
merge_counts-zeros (c ∷ cs) (h, hs) =
    ap (λ n. n ∷ merge_counts cs (replicate (length cs) 0)) (ap wrap (omega arith) ∙ h)
    ∙ ap (◌∷◌ c) (merge_counts-zeros cs hs)

bump-IsWrapped : (cs : List ℕ) (i : ℕ) → IsWrapped cs → IsWrapped (bump cs i)
bump-IsWrapped [] i h = tt
bump-IsWrapped (c ∷ cs) zero (h, hs) = (omega arith, hs)
bump-IsWrapped (c ∷ cs) (suc i) (h, hs) = (h, bump-IsWrapped cs i hs)

zeros-IsWrapped : (n : ℕ) → IsWrapped (replicate n 0)
zeros-IsWrapped zero = tt
zeros-IsWrapped (suc n) = (refl, zeros-IsWrapped n)

map-zero : (cs : List ℕ) → map {B = ℕ} (λ c. 0) cs ≡ replicate (length cs) 0
map-zero [] = refl
map-zero (c ∷ cs) = ap (◌∷◌ 0) (map-zero cs)

length-bump : (cs : List ℕ) (i : ℕ) → length (bump cs i) ≡ length cs
length-bump cs i = length-set cs i (wrap (get_or cs i 0 + 1))

module _ {N F : Type 0} (to_float : N → F) (lt : F → F → Bool) (add : N → N → N)
    (zero_number : N) where
  -- The calls of `Update` for a list of measurements.
  abbrev pub update_all : Aggregator N F → List N → Aggregator N F
  update_all c [] = c
  update_all c (n ∷ ns) = update_all (update to_float lt add zero_number c n) ns

  -- A fresh aggregator.
  abbrev pub fresh : List F → Aggregator N F
  fresh bs = record { boundaries = bs; state = new_state to_float lt add zero_number bs }

  update_all-append :
      (c : Aggregator N F) (ns ms : List N)
      → update_all c (ns ++ ms) ≡ update_all (update_all c ns) ms
  update_all-append c [] ms = refl
  update_all-append c (n ∷ ns) ms = update_all-append (update to_float lt add zero_number c n) ns ms

  -- What holds of each aggregator that has only been updated: its boundaries and the number of its
  -- buckets are those at first, and its counters have wrapped.
  record IsSound (bs : List F) (c : Aggregator N F) : Type 0 where
    bounds : c.boundaries ≡ bs
    buckets : length c.state.bucket_counts ≡ suc (length bs)
    wrapped : IsWrapped c.state.bucket_counts
    counted : wrap c.state.count ≡ c.state.count

  fresh-IsSound : (bs : List F) → IsSound bs (fresh bs)
  fresh-IsSound bs = record {
    bounds = refl;
    buckets = length-replicate (suc (length bs)) 0;
    wrapped = zeros-IsWrapped (suc (length bs));
    counted = refl;
  }

  update_all-IsSound :
      (bs : List F) (ns : List N) (c : Aggregator N F) → IsSound bs c → IsSound bs (update_all c ns)
  update_all-IsSound bs [] c h = h
  update_all-IsSound bs (n ∷ ns) c h =
      update_all-IsSound bs ns (update to_float lt add zero_number c n) (record {
        bounds = h.bounds;
        buckets =
            length-bump c.state.bucket_counts
              (bucket_id to_float lt add zero_number (to_float n) c.boundaries)
            ∙ h.buckets;
        wrapped =
            bump-IsWrapped c.state.bucket_counts
              (bucket_id to_float lt add zero_number (to_float n) c.boundaries) h.wrapped;
        counted = omega arith;
      })

  module _ (add_assoc : (a b c : N) → add a (add b c) ≡ add (add a b) c)
      (add_zero : (a : N) → add a zero_number ≡ a) where
    -- A merge, and the merge of one measurement more.
    abbrev merged : List F → State N → State N → Aggregator N F
    merged bs s t = record { boundaries = bs; state = merge_states to_float lt add zero_number s t }

    merged-update :
        (bs : List F) (n : N) (c d : Aggregator N F)
        → IsSound bs c
        → IsSound bs d
        → merged bs c.state (update to_float lt add zero_number d n).state
          ≡ update to_float lt add zero_number (merged bs c.state d.state) n
    merged-update bs n c d hc hd =
        let i = bucket_id to_float lt add zero_number (to_float n) bs in
        ap {A = List ℕ} {B = Aggregator N F}
          (λ l. record {
            boundaries = bs;
            state = record {
              bucket_counts = l;
              sum = add c.state.sum (add d.state.sum n);
              count = wrap (c.state.count + wrap (d.state.count + 1));
            };
          })
          (ap
              (λ b.
                merge_counts c.state.bucket_counts (
                  bump d.state.bucket_counts
                    (bucket_id to_float lt add zero_number (to_float n) b)))
              hd.bounds
            ∙ merge_counts-bump c.state.bucket_counts d.state.bucket_counts i
                (hc.buckets ∙ sym hd.buckets))
        ∙ ap {A = N} {B = Aggregator N F}
            (λ total. record {
              boundaries = bs;
              state = record {
                bucket_counts = bump (merge_counts c.state.bucket_counts d.state.bucket_counts) i;
                sum = total;
                count = wrap (c.state.count + wrap (d.state.count + 1));
              };
            })
            (add_assoc c.state.sum d.state.sum n)
        ∙ ap {A = ℕ} {B = Aggregator N F}
            (λ k. record {
              boundaries = bs;
              state = record {
                bucket_counts = bump (merge_counts c.state.bucket_counts d.state.bucket_counts) i;
                sum = add (add c.state.sum d.state.sum) n;
                count = k;
              };
            })
            (wrap-add c.state.count d.state.count)

    -- A merge with what was counted is counting on.
    merge_states-update_all :
        (bs : List F) (ns : List N) (c d : Aggregator N F)
        → IsSound bs c
        → IsSound bs d
        → merged bs c.state (update_all d ns).state ≡ update_all (merged bs c.state d.state) ns
    merge_states-update_all bs [] c d hc hd = refl
    merge_states-update_all bs (n ∷ ns) c d hc hd =
        merge_states-update_all bs ns c (update to_float lt add zero_number d n) hc
          (update_all-IsSound bs (n ∷ []) d hd)
        ∙ ap (λ a. update_all a ns) (merged-update bs n c d hc hd)

    -- A merge with an empty state.
    merged-fresh :
        (bs : List F) (c : Aggregator N F) → IsSound bs c → merged bs c.state (fresh bs).state ≡ c
    merged-fresh bs c h =
        ap {A = List ℕ} {B = Aggregator N F}
          (λ l. record {
            boundaries = bs;
            state = record {
              bucket_counts = l;
              sum = add c.state.sum zero_number;
              count = wrap (c.state.count + 0);
            };
          })
          (ap (λ n. merge_counts c.state.bucket_counts (replicate n 0)) (sym h.buckets)
            ∙ merge_counts-zeros c.state.bucket_counts h.wrapped)
        ∙ ap {A = N} {B = Aggregator N F}
            (λ total. record {
              boundaries = bs;
              state = record {
                bucket_counts = c.state.bucket_counts;
                sum = total;
                count = wrap (c.state.count + 0);
              };
            })
            (add_zero c.state.sum)
        ∙ ap {A = ℕ} {B = Aggregator N F}
            (λ k. record {
              boundaries = bs;
              state = record {
                bucket_counts = c.state.bucket_counts;
                sum = c.state.sum;
                count = k;
              };
            })
            (ap wrap (omega arith) ∙ h.counted)
        ∙ ap {A = List F} {B = Aggregator N F} (λ b. record { boundaries = b; state = c.state })
            (sym h.bounds)

    -- What `SynchronizedMove` leaves in the aggregator that it empties.
    emptied :
        (bs : List F) (o : Aggregator N F)
        → length o.state.bucket_counts ≡ suc (length bs)
        → clear_state to_float lt add zero_number o.state ≡ new_state to_float lt add zero_number bs
    emptied bs o h =
        ap {A = List ℕ} {B = State N}
          (λ l. record { bucket_counts = l; sum = zero_number; count = 0 })
          (map-zero o.state.bucket_counts ∙ ap (λ n. replicate n 0) h)

    -- For the numbers of an instrument whose addition is associative with the zero number, as that of
    -- integers: an aggregator is updated with some measurements and moved to another of the same
    -- boundaries, then updated with more and merged into the other. The first is empty behind the move,
    -- the move and the merge give no error, and the other has what one aggregator has that was updated
    -- with all the measurements.
    pub merge_histograms-synchronized_move :
        (bs : List F) (ns ms : List N) (o : Aggregator N F)
        → o.boundaries ≡ bs
        → length o.state.bucket_counts ≡ suc (length bs)
        → (let moved =
              synchronized_move to_float lt add zero_number
                (update_all (fresh bs) ns)
                (histogram o) in
            (moved.inconsistent ≡ false)
            × (moved.from ≡ fresh bs)
            × (checkpoint : Aggregator N F) × (moved.to ≡ histogram checkpoint)
            × (merge_histograms to_float lt add zero_number checkpoint
                  (histogram (update_all moved.from ms))
                ≡ (false, update_all (fresh bs) (ns ++ ms))))
    unfolding synchronized_move merge_histograms
    merge_histograms-synchronized_move bs ns ms o same long =
        let c = update_all (fresh bs) ns in
        let hc = update_all-IsSound bs ns (fresh bs) (fresh-IsSound bs) in
        let empty_again : record {
          boundaries = c.boundaries;
          state = clear_state to_float lt add zero_number o.state;
        }
            ≡ fresh bs =
          ap {A = List F} {B = Aggregator N F}
            (λ b. record {
              boundaries = b;
              state = clear_state to_float lt add zero_number o.state;
            })
            hc.bounds
          ∙ ap {A = State N} {B = Aggregator N F} (λ s. record { boundaries = bs; state = s })
              (emptied bs o long) in
        let all_counted : merged o.boundaries c.state
              (update_all
                (record {
                  boundaries = c.boundaries;
                  state = clear_state to_float lt add zero_number o.state;
                })
                ms).state
            ≡ update_all (fresh bs) (ns ++ ms) =
          ap
            (λ b.
              merged b c.state
                (update_all
                  (record {
                    boundaries = c.boundaries;
                    state = clear_state to_float lt add zero_number o.state;
                  })
                  ms).state)
            same
          ∙ ap (λ a. merged bs c.state (update_all a ms).state) empty_again
          ∙ merge_states-update_all bs ms c (fresh bs) hc (fresh-IsSound bs)
          ∙ ap (λ a. update_all a ms) (merged-fresh bs c hc)
          ∙ sym (update_all-append (fresh bs) ns ms) in
        (
          refl,
          empty_again,
          record { boundaries = o.boundaries; state = c.state },
          refl,
          ap {A = Aggregator N F} {B = Bool × Aggregator N F} (λ a. (false, a)) all_counted,
        )
