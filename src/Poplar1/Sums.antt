-- ===== src/Poplar1/Sums.antt =====
-- Two words of src/vdaf/poplar1.rs that are additive shares of an integer modulo p, and the polynomial
-- of the sketch on such shares.
use libprio_rs.Common.{ℕ, suc, ◌+◌, ◌*◌, ◌%◌, ◌^◌, ◌<◌, ◌≡◌, refl, sym, ap, ◌∙◌, arith}
use libprio_rs.Common.Congruence.{Congruent, mod_congr, congr_add, congr_mul}
use libprio_rs.Fp.{FieldParameters, add, sub, mul, residue}
use libprio_rs.Fp.Element.{
  IsParameters, Represents, cancel_base, add-Represents, sub-Represents, mul-Represents,
  zero-Represents, residue-congruent,
}

-- Words that stand for integers whose sum is `n` modulo p.
pub record IsSum (fp : FieldParameters) (x y n : ℕ) : Type 0 where
  pub left : ℕ
  pub right : ℕ
  pub left_Represents : Represents fp x left
  pub right_Represents : Represents fp y right
  pub sum : Congruent fp.p (left + right) n

module _ (fp : FieldParameters) (ok : IsParameters fp) where
  open fp use {p}

  pub Represents-congruent : (x a b : ℕ) → Represents fp x a → Represents fp x b → Congruent p a b
  Represents-congruent x a b r s = cancel_base fp ok a b (sym r.congruent ∙ s.congruent)

  pub Represents-by : (x a b : ℕ) → Represents fp x a → Congruent p a b → Represents fp x b
  Represents-by x a b r e = record {
    reduced = r.reduced;
    congruent = r.congruent ∙ congr_mul p a b (2 ^ 128) (2 ^ 128) e refl;
  }

  -- The sum's word stands for the sum.
  pub IsSum-add : (x y n : ℕ) → IsSum fp x y n → Represents fp (add fp x y) n
  IsSum-add x y n s =
      Represents-by _ (s.left + s.right) n
        (add-Represents fp ok x y s.left s.right s.left_Represents s.right_Represents) s.sum

  pub reduced-IsSum :
      (x y w n : ℕ) → x < p → y < p → add fp x y ≡ w → Represents fp w n → IsSum fp x y n
  reduced-IsSum x y w n hx hy e r =
      let rx = residue-congruent fp ok x hx in
      let ry = residue-congruent fp ok y hy in
      let both = add-Represents fp ok x y (residue fp x) (residue fp y) rx ry in
      record {
        left = residue fp x;
        right = residue fp y;
        left_Represents = rx;
        right_Represents = ry;
        sum = Represents-congruent w _ n (rw e at both) r;
      }

  pub add-IsSum :
      (x y n x' y' m : ℕ)
      → IsSum fp x y n
      → IsSum fp x' y' m
      → IsSum fp (add fp x x') (add fp y y') (n + m)
  add-IsSum x y n x' y' m s t = record {
    left = s.left + t.left;
    right = s.right + t.right;
    left_Represents = add-Represents fp ok x x' s.left t.left s.left_Represents t.left_Represents;
    right_Represents =
        add-Represents fp ok y y' s.right t.right s.right_Represents t.right_Represents;
    sum =
        ap (λ (u : ℕ). u % p) {x = s.left + t.left + (s.right + t.right)}
          {y = s.left + s.right + (t.left + t.right)} (omega arith)
        ∙ congr_add p (s.left + s.right) n (t.left + t.right) m s.sum t.sum;
  }

  -- A factor that both know.
  pub mul-IsSum :
      (r c x y n : ℕ)
      → Represents fp r c
      → IsSum fp x y n
      → IsSum fp (mul fp r x) (mul fp r y) (c * n)
  mul-IsSum r c x y n hr s = record {
    left = c * s.left;
    right = c * s.right;
    left_Represents = mul-Represents fp ok r x c s.left hr s.left_Represents;
    right_Represents = mul-Represents fp ok r y c s.right hr s.right_Represents;
    sum =
        ap (λ (u : ℕ). u % p) {x = c * s.left + c * s.right} {y = c * (s.left + s.right)}
          (omega arith)
        ∙ congr_mul p c c (s.left + s.right) n refl s.sum;
  }

  pub IsSum-mul :
      (x y n r c : ℕ)
      → IsSum fp x y n
      → Represents fp r c
      → IsSum fp (mul fp x r) (mul fp y r) (n * c)
  IsSum-mul x y n r c s hr = record {
    left = s.left * c;
    right = s.right * c;
    left_Represents = mul-Represents fp ok x r s.left c s.left_Represents hr;
    right_Represents = mul-Represents fp ok y r s.right c s.right_Represents hr;
    sum =
        ap (λ (u : ℕ). u % p) {x = s.left * c + s.right * c} {y = (s.left + s.right) * c}
          (omega arith)
        ∙ congr_mul p (s.left + s.right) n c c s.sum refl;
  }

  -- The leader's factor is 1 and the helper's is 0.
  pub leader-IsSum :
      (unit w n : ℕ)
      → Represents fp unit 1
      → Represents fp w n
      → IsSum fp (mul fp unit w) (mul fp 0 w) n
  leader-IsSum unit w n hu hw = record {
    left = 1 * n;
    right = 0 * n;
    left_Represents = mul-Represents fp ok unit w 1 n hu hw;
    right_Represents = mul-Represents fp ok 0 w 0 n (zero-Represents fp ok) hw;
    sum = ap (λ (u : ℕ). u % p) {x = 1 * n + 0 * n} {y = n} (omega arith);
  }

  -- Subtraction, where q is p - 1.
  module _ (q : ℕ) (next : p ≡ suc q) where
    pub sub_times :
        (x y a b : ℕ)
        → Represents fp x a
        → Represents fp y b
        → Represents fp (sub fp x y) (a + q * b)
    sub_times x y a b r s =
        sub-Represents fp ok x y a b (a + q * b) r s
          (mod_congr p (a + q * b + b) a 0 b (omega (arith, ap (λ (t : ℕ). t * b) next)))

    -- A word hidden by another is shared by the difference and the other.
    pub hidden-IsSum : (w h n : ℕ) → h < p → Represents fp w n → IsSum fp (sub fp w h) h n
    hidden-IsSum w h n hh r =
        let rh = residue-congruent fp ok h hh in
        let b = residue fp h in
        record {
          left = n + q * b;
          right = b;
          left_Represents = sub_times w h n b r rh;
          right_Represents = rh;
          sum = mod_congr p (n + q * b + b) n 0 b (omega (arith, ap (λ (t : ℕ). t * b) next));
        }

    -- The sketch of an honest report is a multiple of p, whatever the blinds a, b and c are: s is the
    -- randomness at the one prefix that the input has, or 0.
    pub polynomial_zero :
        (s k a b c : ℕ)
        → Congruent p
            ((k + q * (a + a)) * (s + a)
              + (a * a + b + q * (a * k) + c)
              + ((s + a) * (s + a) + q * (s * s + b) + q * (s * k + c)))
            0
    polynomial_zero s k a b c =
        mod_congr p _ 0 0 (k * s + k * a + 2 * a * s + 2 * a * a + b + c + s * s) (
          omega (
            arith,
            ap (λ (t : ℕ). t * (k * s + k * a + 2 * a * s + 2 * a * a + b + c + s * s)) next,
          ))
