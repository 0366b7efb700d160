-- ===== src/Interpreter/Integer/Rotation.antt =====
-- Rotations in src/interpreter.rs.
use spacewasm.Prelude.{
  ℕ, zero, suc, ◌+◌, ◌-◌, ◌*◌, ◌/◌, ◌%◌, ◌^◌, ◌<◌, ◌≡◌, sym, ◌∙◌, ap, ap₂, arith,
}
use native.Mathlib.Nat.{
  mul-add-mod_self_left, mod-eq_of_lt, div-add-mod, mod-lt, div-lt_iff_lt-mul, mul-add-div,
  div-eq_of_lt, pow-suc, mul-lt-mul_of_pos_left, mul-lt-mul_of_pos_right,
}
use spacewasm.Interpreter.Integer.{rotate_left, rotate_right}

module _ (p q a : ℕ) where
  lower : 0 < p → 0 < q → (a * p) % (p * q) ≡ p * (a % q)
  lower pp qq =
      let split : q * (a / q) + a % q ≡ a = div-add-mod a q in
      let e : a * p ≡ (p * q) * (a / q) + p * (a % q) = ap (λ t. t * p) (sym split) ∙ omega arith in
      ap (λ t. t % (p * q)) e
      ∙ mul-add-mod_self_left (p * q) (a / q) (p * (a % q))
      ∙ mod-eq_of_lt (mul-lt-mul_of_pos_left (mod-lt a qq) pp)

  high : 0 < q → a < p * q → a / q < p
  high qq small = (div-lt_iff_lt-mul qq).1 small

  upper : 0 < p → 0 < q → a < p * q → (p * (a % q) + a / q) / p ≡ a % q
  upper pp qq small =
      mul-add-div pp (a % q) (a / q)
      ∙ ap (λ t. a % q + t) (div-eq_of_lt (high qq small))
      ∙ omega arith

  moved_up : 0 < q → a < p * q → ((p * (a % q) + a / q) * q) % (p * q) ≡ a / q * q
  moved_up qq small =
      let e : (p * (a % q) + a / q) * q ≡ (p * q) * (a % q) + a / q * q = omega arith in
      ap (λ t. t % (p * q)) e
      ∙ mul-add-mod_self_left (p * q) (a % q) (a / q * q)
      ∙ mod-eq_of_lt (mul-lt-mul_of_pos_right (high qq small) qq)

  turned :
      0 < p
      → 0 < q
      → a < p * q
      → ((a * p) % (p * q) + a / q) / p + (((a * p) % (p * q) + a / q) * q) % (p * q) ≡ a
  turned pp qq small =
      let l : (a * p) % (p * q) ≡ p * (a % q) = lower pp qq in
      ap (λ t. (t + a / q) / p + ((t + a / q) * q) % (p * q)) l
      ∙ ap₂ (λ s t. s + t) (upper pp qq small) (moved_up qq small)
      ∙ omega (arith, div-add-mod a q)

pow_sum : (k j : ℕ) → 2 ^ k * 2 ^ j ≡ 2 ^ (k + j)
pow_sum zero j =
    let one : 2 ^ 0 * 2 ^ j ≡ 2 ^ j = omega arith in
    let e : j ≡ 0 + j = omega arith in one ∙ ap (λ t. 2 ^ t) e
pow_sum (suc k) j =
    let e : suc (k + j) ≡ suc k + j = omega arith in
    let twice : 2 ^ suc k * 2 ^ j ≡ 2 ^ suc (k + j) =
      ap (λ t. t * 2 ^ j) (pow-suc 2 k) ∙ omega (arith, pow_sum k j, pow-suc 2 (k + j)) in
    twice ∙ ap (λ t. 2 ^ t) e

pow_positive : (k : ℕ) → 0 < 2 ^ k
pow_positive zero = omega arith
pow_positive (suc k) = omega (arith, pow_positive k)

-- A rotation to the right undoes the rotation to the left by the same number, for every word of `w` bits.
pub rotate_right-rotate_left :
    (w a n : ℕ) → 0 < w → a < 2 ^ w → rotate_right w (rotate_left w a n) n ≡ a
unfolding rotate_right rotate_left
rotate_right-rotate_left w a n pos small =
    let k : n % w + (w - n % w) ≡ w = omega (arith, mod-lt n pos) in
    let e : 2 ^ (n % w) * 2 ^ (w - n % w) ≡ 2 ^ w =
      pow_sum (n % w) (w - n % w) ∙ ap (λ t. 2 ^ t) k in
    rw (sym e) (
      turned (2 ^ (n % w)) (2 ^ (w - n % w)) a (pow_positive (n % w)) (pow_positive (w - n % w))
        (rw e small))
