-- ===== src/Prelude/Words.antt =====
-- Joining groups of seven bits in a word of `w` bits.
use Prim.Native.Nat.{ℕ, zero, suc, ◌+◌, ◌-◌, ◌*◌, ◌/◌, ◌%◌, ◌^◌, ◌<◌, bit_or}
use mathlib.Core.Path.{◌≡◌, sym, ap, ◌∙◌}
use native.Mathlib.Omega.{arith}
use native.Mathlib.Decide.{dec_le}
use native.Mathlib.Nat.{
  pow-suc, mul_assoc, mod-eq_of_lt, add-mul-mod_self_right, mul-mod_left, div-add-mod, mod-lt,
  one-le-pow, mod-add-mod, mod-le, add-zero, zero-add,
}
use kuja.Prelude.Bits.{bit_or_above}

pow-add : (n e : ℕ) → 2 ^ (n + e) ≡ 2 ^ n * 2 ^ e
pow-add n zero = rw add-zero (omega arith)
pow-add n (suc e) =
    let p : n + suc e ≡ suc (n + e) = omega arith in
    rw (p, pow-suc 2 (n + e), pow-add n e, pow-suc 2 e) (mul_assoc (2 ^ n) (2 ^ e) 2)

pow_pos : (n : ℕ) → 0 < 2 ^ n
pow_pos n = one-le-pow n 2 (omega arith)

-- With `p * q` for the modulus and a number `a` below `p`.
module _ (p q a d : ℕ) (p_pos : 0 < p) (q_pos : 0 < q) (small : a < p) where
  below_product : a + d % q * p < p * q
  below_product = grind (arith, mod-lt d q_pos)

  split_product : a + d * p ≡ a + d % q * p + d / q * (p * q)
  split_product = omega (arith, ap (λ (t : ℕ). t * p) (div-add-mod d q))

  mod_product : (a + d * p) % (p * q) ≡ a + d % q * p
  mod_product =
      ap (λ (t : ℕ). t % (p * q)) split_product
      ∙ add-mul-mod_self_right (a + d % q * p) (d / q) (p * q)
      ∙ mod-eq_of_lt below_product

-- `a |= T(d) << s` on words of `w` bits, for a word `a` of `s` bits.
module _ (w s a d : ℕ) (low : a < 2 ^ s) (word : a < 2 ^ w) where
  inside : (e : ℕ) → s + e ≡ w → bit_or a (d * 2 ^ s % 2 ^ w) ≡ (a + d * 2 ^ s) % 2 ^ w
  inside e h =
      let product = mod_product (2 ^ s) (2 ^ e) 0 d (pow_pos s) (pow_pos e) (pow_pos s) in
      let shifted : d * 2 ^ s % (2 ^ s * 2 ^ e) ≡ d % 2 ^ e * 2 ^ s =
        ap (λ (t : ℕ). t % (2 ^ s * 2 ^ e)) (sym (zero-add (d * 2 ^ s))) ∙ product ∙ zero-add _ in
      rw (← h, pow-add s e, shifted, mod_product (2 ^ s) (2 ^ e) a d (pow_pos s) (pow_pos e) low)
        (bit_or_above s a (d % 2 ^ e) low)

  outside : (e : ℕ) → w + e ≡ s → bit_or a (d * 2 ^ s % 2 ^ w) ≡ (a + d * 2 ^ s) % 2 ^ w
  outside e h =
      let multiple : d * 2 ^ s ≡ d * 2 ^ e * 2 ^ w = rw (← h, pow-add w e) (omega arith) in
      let nothing : 0 * 2 ^ s ≡ 0 = omega arith in
      rw (multiple, mul-mod_left, add-mul-mod_self_right, mod-eq_of_lt word)
        (rw nothing at (bit_or_above s a 0 low) ∙ add-zero a)

  pub or_group_sum : bit_or a (d * 2 ^ s % 2 ^ w) ≡ (a + d * 2 ^ s) % 2 ^ w
  or_group_sum = elim (dec_le s w) [
    | yes h ↦ inside (w - s) (omega arith)
    | no h ↦ outside (s - w) (omega arith)
  ]

-- The sum after a group of `v` at bit `s`.
abbrev pub next_sum : ℕ → ℕ → ℕ → ℕ → ℕ
next_sum w s a v = (a + v % 128 * 2 ^ s) % 2 ^ w

-- A number is read group by group: the low group first, the rest seven bits further up.
module _ (w s a v : ℕ) (low : a < 2 ^ s) where
  shift_seven : 2 ^ (s + 7) ≡ 2 ^ s * 128
  shift_seven = pow-add s 7

  pub next_sum_low : next_sum w s a v < 2 ^ (s + 7)
  next_sum_low = rw shift_seven (grind (arith, mod-le (a + v % 128 * 2 ^ s) (2 ^ w)))

  pub next_sum_word : next_sum w s a v < 2 ^ w
  next_sum_word = mod-lt (a + v % 128 * 2 ^ s) (pow_pos w)

  pub next_sum_rest : (next_sum w s a v + v / 128 * 2 ^ (s + 7)) % 2 ^ w ≡ (a + v * 2 ^ s) % 2 ^ w
  next_sum_rest =
      mod-add-mod (a + v % 128 * 2 ^ s) (2 ^ w) (v / 128 * 2 ^ (s + 7))
      ∙ ap (λ (t : ℕ). t % 2 ^ w)
          (rw shift_seven (omega (arith, ap (λ (t : ℕ). t * 2 ^ s) (div-add-mod v 128))))
