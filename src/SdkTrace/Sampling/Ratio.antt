-- ===== src/SdkTrace/Sampling/Ratio.antt =====
-- Ratio samplers of growing fractions sample growing sets of traces.
use opentelemetry_go.Prelude.{◌≤◌, ◌≡◌, true, false, arith}
use opentelemetry_go.SdkTrace.Sampling.{
  SamplingParameters, record_and_sample, should_sample, Fractions, trace_id_ratio_based,
}

-- What is used of the order of floats, and of the conversion to an integer. Where the fraction is
-- above 0 and under 1, the product is exact and in range, and the conversion rounds it down; of any
-- other fraction the conversion depends on the implementation of Go, and nothing is assumed.
pub record Ordered (fs : Fractions) : Type 1 where
  pub Le : fs.Fraction → fs.Fraction → Type 0
  pub ge_one_up : (f g : fs.Fraction) → Le f g → fs.ge_one f ≡ true → fs.ge_one g ≡ true
  pub le_zero_down : (f g : fs.Fraction) → Le f g → fs.le_zero g ≡ true → fs.le_zero f ≡ true
  pub apart : (f : fs.Fraction) → fs.le_zero f ≡ true → fs.ge_one f ≡ false
  pub scaled_mono :
      (f g : fs.Fraction)
      → Le f g
      → fs.le_zero f ≡ false
      → fs.ge_one g ≡ false
      → fs.scaled f ≤ fs.scaled g
  pub scaled_zero : fs.scaled fs.zero ≡ 0

module _ (fs : Fractions) (ord : Ordered fs) where
  open fs use {Fraction, le_zero}
  open ord use {Le}

  -- Where the sampler of a fraction samples a trace, the fraction is above 0, and the trace is sampled
  -- at every larger fraction too, those of 1 and more included. So no trace is sampled at 0 and below.
  pub trace_id_ratio_based_mono :
      (f g : Fraction) (p : SamplingParameters)
      → Le f g
      → (should_sample (trace_id_ratio_based fs f) p).decision ≡ record_and_sample
      → (le_zero f ≡ false)
        × ((should_sample (trace_id_ratio_based fs g) p).decision ≡ record_and_sample)
  unfolding should_sample trace_id_ratio_based
  trace_id_ratio_based_mono f g p le sampled =
      let apart = ord.apart f in
      let zero = ord.scaled_zero in
      let positive : le_zero f ≡ false = ground (arith, sampled, apart, zero) in
      let up = ord.ge_one_up f g le in
      let down = ord.le_zero_down f g le in
      let mono = ord.scaled_mono f g le positive in (positive, ground (arith, up, down, mono))
