-- ===== src/Prelude/Bits.antt =====
-- The bit operations of the wire format as arithmetic.
use Prim.Native.Nat.{
  ℕ, zero, suc, ◌+◌, ◌*◌, ◌/◌, ◌%◌, ◌^◌, ◌≤◌, ◌<◌, max, min, bit_and, bit_or, digits,
  bit_and-bitwise, bit_or-bitwise,
}
use mathlib.Core.Path.{◌≡◌, refl, ◌∙◌}
use native.Mathlib.Omega.{arith}
use native.Mathlib.Nat.{pow-suc, le_refl}

-- Both operations combine the binary digits, with `rest b` where the first number is used up.
module _ (rest : ℕ → ℕ) (op : ℕ → ℕ → ℕ) where
  digits_fuel : (n m a b : ℕ) → a ≤ n → a ≤ m → digits rest op n a b ≡ digits rest op m a b
  digits_fuel zero zero a b p q = refl
  digits_fuel zero (suc m) zero b p q = refl
  digits_fuel zero (suc m) (suc a) b p q = elim p [ ]
  digits_fuel (suc n) zero zero b p q = refl
  digits_fuel (suc n) zero (suc a) b p q = elim q [ ]
  digits_fuel (suc n) (suc m) zero b p q = refl
  digits_fuel (suc n) (suc m) (suc a) b p q =
      omega (arith, digits_fuel n m (suc a / 2) (b / 2) (omega arith) (omega arith))

pub zero-bit_or : (b : ℕ) → bit_or 0 b ≡ b
zero-bit_or b = bit_or-bitwise 0 b

-- The lowest binary digit of a disjunction, and the rest.
bit_or_halves : (a b : ℕ) → bit_or a b ≡ bit_or (a / 2) (b / 2) * 2 + max (a % 2) (b % 2)
bit_or_halves zero b = omega (arith, zero-bit_or b, zero-bit_or (b / 2))
bit_or_halves (suc a) b =
    let enough =
      digits_fuel (λ b. b) max a (suc a / 2) (suc a / 2) (b / 2) (omega arith) (omega arith) in
    omega (arith, bit_or-bitwise (suc a) b, bit_or-bitwise (suc a / 2) (b / 2), enough)

bit_or-zero_fuel : (n a : ℕ) → a ≤ n → bit_or a 0 ≡ a
bit_or-zero_fuel n zero h = zero-bit_or 0
bit_or-zero_fuel zero (suc a) h = elim h [ ]
bit_or-zero_fuel (suc n) (suc a) h =
    omega (arith, bit_or_halves (suc a) 0, bit_or-zero_fuel n (suc a / 2) (omega arith))

pub bit_or-zero : (a : ℕ) → bit_or a 0 ≡ a
bit_or-zero a = bit_or-zero_fuel a a (omega arith)

half-bit_or : (a b : ℕ) → bit_or a b / 2 ≡ bit_or (a / 2) (b / 2)
half-bit_or a b = omega (arith, bit_or_halves a b)

digit-bit_or : (a b : ℕ) → bit_or a b % 2 ≡ max (a % 2) (b % 2)
digit-bit_or a b = omega (arith, bit_or_halves a b)

bit_or_assoc_fuel : (n a b c : ℕ) → a ≤ n → bit_or (bit_or a b) c ≡ bit_or a (bit_or b c)
bit_or_assoc_fuel n zero b c h = rw (zero-bit_or b, zero-bit_or (bit_or b c))
bit_or_assoc_fuel zero (suc a) b c h = elim h [ ]
bit_or_assoc_fuel (suc n) (suc a) b c h =
    let left =
      rw (half-bit_or (suc a) b, digit-bit_or (suc a) b) at (bit_or_halves (bit_or (suc a) b) c) in
    let right = rw (half-bit_or b c, digit-bit_or b c) at (bit_or_halves (suc a) (bit_or b c)) in
    omega (arith, left, right, bit_or_assoc_fuel n (suc a / 2) (b / 2) (c / 2) (omega arith))

pub bit_or_assoc : (a b c : ℕ) → bit_or (bit_or a b) c ≡ bit_or a (bit_or b c)
bit_or_assoc a b c = bit_or_assoc_fuel a a b c (omega arith)

-- Bits above `s` joined to a number of `s` bits are added to it.
pub bit_or_above : (s a g : ℕ) → a < 2 ^ s → bit_or a (g * 2 ^ s) ≡ a + g * 2 ^ s
bit_or_above zero a g h = let e : a ≡ 0 = omega arith in rw e (zero-bit_or (g * 1) ∙ omega arith)
bit_or_above (suc s) a g h =
    let p : 2 ^ suc s ≡ 2 ^ s * 2 = pow-suc 2 s in
    let q : g * 2 ^ suc s ≡ g * 2 ^ s * 2 = rw p (omega arith) in
    rw q (
      let h' : a < 2 ^ s * 2 = rw p at h in
      let e : g * 2 ^ s * 2 / 2 ≡ g * 2 ^ s = omega arith in
      let halves = rw e at (bit_or_halves a (g * 2 ^ s * 2)) in
      omega (arith, halves, bit_or_above s (a / 2) g (omega arith)))

zero-bit_and : (b : ℕ) → bit_and 0 b ≡ 0
zero-bit_and b = bit_and-bitwise 0 b

bit_and_halves : (a b : ℕ) → bit_and a b ≡ bit_and (a / 2) (b / 2) * 2 + min (a % 2) (b % 2)
bit_and_halves zero b = omega (arith, zero-bit_and b, zero-bit_and (b / 2))
bit_and_halves (suc a) b =
    let enough =
      digits_fuel (λ b. zero) min a (suc a / 2) (suc a / 2) (b / 2) (omega arith) (omega arith) in
    omega (arith, bit_and-bitwise (suc a) b, bit_and-bitwise (suc a / 2) (b / 2), enough)

bit_and-zero : (n a : ℕ) → a ≤ n → bit_and a 0 ≡ 0
bit_and-zero n zero h = refl
bit_and-zero zero (suc a) h = elim h [ ]
bit_and-zero (suc n) (suc a) h =
    omega (arith, bit_and_halves (suc a) 0, bit_and-zero n (suc a / 2) (omega arith))

-- Masks of ones, one digit more in each.
low_one : (a : ℕ) → bit_and a 1 ≡ a % 2
low_one a = omega (arith, bit_and_halves a 1, bit_and-zero (a / 2) (a / 2) (le_refl _))

low_two : (a : ℕ) → bit_and a 3 ≡ a % 4
low_two a = omega (arith, bit_and_halves a 3, low_one (a / 2))

low_three : (a : ℕ) → bit_and a 7 ≡ a % 8
low_three a = omega (arith, bit_and_halves a 7, low_two (a / 2))

low_four : (a : ℕ) → bit_and a 15 ≡ a % 16
low_four a = omega (arith, bit_and_halves a 15, low_three (a / 2))

low_five : (a : ℕ) → bit_and a 31 ≡ a % 32
low_five a = omega (arith, bit_and_halves a 31, low_four (a / 2))

low_six : (a : ℕ) → bit_and a 63 ≡ a % 64
low_six a = omega (arith, bit_and_halves a 63, low_five (a / 2))

-- `b & 0x7F`
pub low_seven : (a : ℕ) → bit_and a 0x7f ≡ a % 128
low_seven a = omega (arith, bit_and_halves a 127, low_six (a / 2))

-- `a | 0x80` for `a` of seven bits
pub set_high : (a : ℕ) → a < 128 → bit_or a 0x80 ≡ a + 128
set_high a h = bit_or_above 7 a 1 h
