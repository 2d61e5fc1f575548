-- ===== src/Poplar1/Agreement.antt =====
-- The rounds of src/vdaf/poplar1.rs behind `prepare_init`, of two aggregators that share the sketch of
-- one input.
use libprio_rs.Common.{ℕ, suc, ◌+◌, ◌*◌, ◌≡◌, refl, List, [], ◌∷◌, some, none, ==_self, true}
use libprio_rs.Outcome.{ok}
use libprio_rs.Fp.Element.{Represents, zero-Represents, mul-Represents, Represents-unique}
use libprio_rs.Field.{FieldType, plus, eq, add_each}
use libprio_rs.Field.Codec.{IsFieldType}
use libprio_rs.Vdaf.{continue, finish}
use libprio_rs.Poplar1.{Poplar1PrepareStep, ready, round_one, round_two}
use libprio_rs.Poplar1.Prepare.{
  prepare_preprocess, preprocess_loop, unwrap_output, y_share, second_round, last_round, step_by,
  prepare_step,
}
use libprio_rs.Poplar1.Sketch.{AreSums}
use libprio_rs.Poplar1.Sums.{
  IsSum, IsSum-add, add-IsSum, IsSum-mul, leader-IsSum, sub_times, polynomial_zero,
}

-- Both rounds go through with the messages of the aggregators, and each finishes with its output share.
pub record IsAgreed (f : FieldType) (first second : Poplar1PrepareStep) : Type 0 where
  pub z_first : List ℕ
  pub z_second : List ℕ
  pub z_sum : List ℕ
  pub y_first : List ℕ
  pub y_second : List ℕ
  pub y_sum : List ℕ
  pub first₁ : Poplar1PrepareStep
  pub second₁ : Poplar1PrepareStep
  pub first₂ : Poplar1PrepareStep
  pub second₂ : Poplar1PrepareStep
  pub start_first : prepare_step f first none ≡ continue first₁ z_first
  pub start_second : prepare_step f second none ≡ continue second₁ z_second
  pub round_one_sum : prepare_preprocess f (z_first ∷ z_second ∷ []) ≡ ok z_sum
  pub go_first : prepare_step f first₁ (some z_sum) ≡ continue first₂ y_first
  pub go_second : prepare_step f second₁ (some z_sum) ≡ continue second₂ y_second
  pub round_two_sum : prepare_preprocess f (y_first ∷ y_second ∷ []) ≡ ok y_sum
  pub finish_first : prepare_step f first₂ (some y_sum) ≡ finish first.output_share
  pub finish_second : prepare_step f second₂ (some y_sum) ≡ finish second.output_share

-- The step of an aggregator after `prepare_init`.
abbrev pub ready_step : (out : List ℕ) (z : ℕ × ℕ × ℕ) (d e x : ℕ) → Poplar1PrepareStep
ready_step out z d e x = record { sketch = ready; output_share = out; z = z; d = d; e = e; x = x }

module _ (f : FieldType) (ok_f : IsFieldType f) (q : ℕ) (next : f.fp.p ≡ suc q) where
  open f use {fp}

  -- The two shares of y are of 0.
  y_zero :
      (out out' : List ℕ) (z z' : ℕ × ℕ × ℕ) (d d' e e' unit s k a b c : ℕ)
      → Represents fp unit 1
      → AreSums f z z' (s + a) (s * s + b) (s * k + c)
      → IsSum fp d d' (k + q * (a + a))
      → IsSum fp e e' (a * a + b + q * (a * k) + c)
      → plus f
          (y_share f
            (ready_step out z d e unit)
            (plus f z.0 z'.0)
            (plus f z.1 z'.1)
            (plus f z.2 z'.2))
          (y_share f
            (ready_step out' z' d' e' 0)
            (plus f z.0 z'.0)
            (plus f z.1 z'.1)
            (plus f z.2 z'.2))
        ≡ 0
  unfolding y_share
  y_zero out out' z z' d d' e e' unit s k a b c hu sums hd he =
      let okp = ok_f.parameters in
      let r0 = IsSum-add fp okp _ _ _ sums.sum0 in
      let r1 = IsSum-add fp okp _ _ _ sums.sum1 in
      let r2 = IsSum-add fp okp _ _ _ sums.sum2 in
      let square = mul-Represents fp okp _ _ (s + a) (s + a) r0 r0 in
      let less = sub_times fp okp q next _ _ _ (s * s + b) square r1 in
      let w = sub_times fp okp q next _ _ _ (s * k + c) less r2 in
      let product = IsSum-mul fp okp d d' _ _ (s + a) hd r0 in
      let front = add-IsSum fp okp _ _ _ e e' _ product he in
      let whole = add-IsSum fp okp _ _ _ _ _ _ front (leader-IsSum fp okp unit _ _ hu w) in
      Represents-unique fp okp _ 0 _ 0 (IsSum-add fp okp _ _ _ whole) (zero-Represents fp okp)
        (polynomial_zero fp okp q next s k a b c)

  eq_zero : (y : ℕ) → y ≡ 0 → eq f y 0 ≡ true
  unfolding eq
  eq_zero y e = rw e (==_self _)

  pub ready_step-IsAgreed :
      (out out' : List ℕ) (z z' : ℕ × ℕ × ℕ) (d d' e e' unit s k a b c : ℕ)
      → Represents fp unit 1
      → AreSums f z z' (s + a) (s * s + b) (s * k + c)
      → IsSum fp d d' (k + q * (a + a))
      → IsSum fp e e' (a * a + b + q * (a * k) + c)
      → IsAgreed f (ready_step out z d e unit) (ready_step out' z' d' e' 0)
  unfolding prepare_step step_by second_round last_round prepare_preprocess preprocess_loop
      unwrap_output add_each y_share
  ready_step-IsAgreed out out' z z' d d' e e' unit s k a b c hu sums hd he =
      let zero_sum = y_zero out out' z z' d d' e e' unit s k a b c hu sums hd he in
      let y =
        plus f
          (y_share f (ready_step out z d e unit) (plus f z.0 z'.0) (plus f z.1 z'.1)
            (plus f z.2 z'.2))
          (y_share f (ready_step out' z' d' e' 0) (plus f z.0 z'.0) (plus f z.1 z'.1)
            (plus f z.2 z'.2)) in
      record {
        z_first = z.0 ∷ z.1 ∷ z.2 ∷ [];
        z_second = z'.0 ∷ z'.1 ∷ z'.2 ∷ [];
        z_sum = plus f z.0 z'.0 ∷ plus f z.1 z'.1 ∷ plus f z.2 z'.2 ∷ [];
        y_first = _;
        y_second = _;
        y_sum = y ∷ [];
        first₁ = record (ready_step out z d e unit) { sketch = round_one };
        second₁ = record (ready_step out' z' d' e' 0) { sketch = round_one };
        first₂ = record (ready_step out z d e unit) { sketch = round_two };
        second₂ = record (ready_step out' z' d' e' 0) { sketch = round_two };
        start_first = refl;
        start_second = refl;
        round_one_sum = refl;
        go_first = refl;
        go_second = refl;
        round_two_sum = refl;
        finish_first = rw (eq_zero y zero_sum) refl;
        finish_second = rw (eq_zero y zero_sum) refl;
      }
