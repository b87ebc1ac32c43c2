-- ===== src/Fs/Bitmap.antt =====
-- The bitmap of easyfs.c as a set of block numbers.
use Prim.Native.Nat.{bit_and, bit_or, bit_and-bitwise}
use shed_kernel.Prelude.{
  ℕ, zero, suc, ◌+◌, ◌-◌, ◌/◌, ◌%◌, ◌^◌, ◌≤◌, ◌<◌, ◌≡◌, refl, Bool, true, false, not, ◌&&◌, ◌⊎◌,
  inl, inr, arith, ltb, ◌==◌, if◌then◌else◌, all_below, all_below-eq_true,
}
use shed_kernel.Fs.Disk.{set_byte}

-- Whether the bit of block `b` is clear.
abbrev pub is_clear : (ℕ → ℕ) → ℕ → Bool
is_clear bitmap b = bit_and (bitmap (b / 8)) (2 ^ (b % 8)) == 0

abbrev eqb : Bool → Bool → Bool
eqb true b = b
eqb false b = not b

-- The effect of the two updates of a byte on each of its bits.
or_agrees : ℕ → ℕ → ℕ → Bool
or_agrees x i j =
    eqb (bit_and (bit_or x (2 ^ i) % 256) (2 ^ j) == 0)
      (if j == i then false else bit_and x (2 ^ j) == 0)

and_agrees : ℕ → ℕ → ℕ → Bool
and_agrees x i j =
    ltb (bit_and x (255 - 2 ^ i)) 256
    && eqb (bit_and (bit_and x (255 - 2 ^ i)) (2 ^ j) == 0)
        (if j == i then true else bit_and x (2 ^ j) == 0)

abbrev everywhere : (ℕ → ℕ → ℕ → Bool) → Bool
everywhere p = all_below 256 (λ x. all_below 8 (λ i. all_below 8 (λ j. p x i j)))

or_table : everywhere or_agrees ≡ true
unfolding or_agrees
or_table = refl

and_table : everywhere and_agrees ≡ true
unfolding and_agrees
and_table = refl

everywhere-eq_true :
    (p : ℕ → ℕ → ℕ → Bool) (x i j : ℕ)
    → everywhere p ≡ true
    → x < 256
    → i < 8
    → j < 8
    → p x i j ≡ true
everywhere-eq_true p x i j h hx hi hj =
    all_below-eq_true 8 (p x i) j
      (all_below-eq_true 8 (λ i. all_below 8 (p x i)) i
        (all_below-eq_true 256 (λ x. all_below 8 (λ i. all_below 8 (p x i))) x h hx) hi)
      hj

or_byte :
    (x i j : ℕ)
    → x < 256
    → i < 8
    → j < 8
    → (bit_and (bit_or x (2 ^ i) % 256) (2 ^ j) == 0)
      ≡ (if j == i then false else bit_and x (2 ^ j) == 0)
unfolding or_agrees
or_byte x i j hx hi hj = ground (arith, everywhere-eq_true or_agrees x i j or_table hx hi hj)

and_byte :
    (x i j : ℕ)
    → x < 256
    → i < 8
    → j < 8
    → (bit_and x (255 - 2 ^ i) < 256)
      × ((bit_and (bit_and x (255 - 2 ^ i)) (2 ^ j) == 0)
          ≡ (if j == i then true else bit_and x (2 ^ j) == 0))
unfolding and_agrees
and_byte x i j hx hi hj = ground (arith, everywhere-eq_true and_agrees x i j and_table hx hi hj)

-- Marking sets one bit of the map and leaves the others.
pub is_clear-or :
    (f : ℕ → ℕ) (b j : ℕ)
    → f (b / 8) < 256
    → is_clear (set_byte (b / 8) (bit_or (f (b / 8)) (2 ^ (b % 8)) % 256) f) j
      ≡ (if j == b then false else is_clear f j)
is_clear-or f b j h =
    ground (arith, or_byte (f (b / 8)) (b % 8) (j % 8) h (omega arith) (omega arith))

pub is_clear-and :
    (f : ℕ → ℕ) (b j : ℕ)
    → f (b / 8) < 256
    → is_clear (set_byte (b / 8) (bit_and (f (b / 8)) (255 - 2 ^ (b % 8))) f) j
      ≡ (if j == b then true else is_clear f j)
is_clear-and f b j h =
    ground (arith, and_byte (f (b / 8)) (b % 8) (j % 8) h (omega arith) (omega arith))

-- Every bit of the zero map is clear.
pub is_clear-zero : (b : ℕ) → is_clear (λ _. 0) b ≡ true
is_clear-zero b = ground (arith, bit_and-bitwise 0 (2 ^ (b % 8)))

pub bit_and-lt :
    (f : ℕ → ℕ) (b : ℕ) → f (b / 8) < 256 → bit_and (f (b / 8)) (255 - 2 ^ (b % 8)) < 256
bit_and-lt f b h = (and_byte (f (b / 8)) (b % 8) 0 h (omega arith) (omega arith)).0

-- The number of the first `n` places that pass a test.
unfoldable pub count : ℕ → (ℕ → Bool) → ℕ
count zero p = 0
count (suc n) p = count n p + (if p n then 1 else 0)

pub count-le : (n : ℕ) (p : ℕ → Bool) → count n p ≤ n
unfolding count
count-le zero p = omega arith
count-le (suc n) p = ground (arith, count-le n p)

count-congr : (n : ℕ) (p q : ℕ → Bool) → ((j : ℕ) → j < n → p j ≡ q j) → count n p ≡ count n q
unfolding count
count-congr zero p q h = refl
count-congr (suc n) p q h = ground (arith, count-congr n p q (λ j hj. h j (omega arith)), h n)

-- Clearing one place that passes lowers the count by one.
pub count-clear :
    (n b : ℕ) (p q : ℕ → Bool)
    → b < n
    → p b ≡ true
    → ((j : ℕ) → j < n → q j ≡ (if j == b then false else p j))
    → count n q + 1 ≡ count n p
unfolding count
count-clear zero b p q h e same = absurd (omega arith)
count-clear (suc n) b p q h e same = elim (cases) [
  | inl at ↦ ground (arith, same n, count-congr n q p (λ j hj. ground (arith, same j)))
  | inr below ↦ ground (arith, same n, count-clear n b p q below e (λ j hj. same j (omega arith)))
]
  where
    cases : (b ≡ n) ⊎ (b < n)
    cases = omega arith
