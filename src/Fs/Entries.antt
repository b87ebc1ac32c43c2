-- ===== src/Fs/Entries.antt =====
-- Lists of directory entries: which entries own a block, and the first entry that passes a test.
use shed_kernel.Prelude.{
  ℕ, zero, suc, ◌+◌, ◌≤◌, ◌<◌, ◌≡◌, ◌≢◌, refl, ap, Bool, true, false, not, ◌&&◌, ◌||◌, none, some,
  List, [], ◌∷◌, arith, Bool-cases, Option-cases, inl, inr, if◌then◌else◌, ltb, leb, ◌==◌, length,
  get_or, set, All,
}
use native.Mathlib.Numerals.{add-one}
use shed_kernel.Fs.Disk.{DirEntry, empty_entry}
use shed_kernel.Fs.Dir.{find_slot}

-- Whether the entry is a file whose first block is data block `b`.
abbrev pub owns : ℕ → DirEntry → Bool
owns b e = not (e.is_used == 0) && (e.first_data_block == b + 3)

abbrev pub own : ℕ → DirEntry → ℕ
own b e = if owns b e then 1 else 0

unfoldable pub owners : ℕ → List DirEntry → ℕ
owners b [] = 0
owners b (e ∷ es) = own b e + owners b es

-- A used entry's first block is a data block.
abbrev pub is_placed : DirEntry → Bool
is_placed e = (e.is_used == 0) || (leb 3 e.first_data_block && ltb e.first_data_block 1024)

pub owners-set :
    (b : ℕ) (es : List DirEntry) (i : ℕ) (e : DirEntry)
    → i < length es
    → owners b (set es i e) + own b (get_or es i empty_entry) ≡ owners b es + own b e
unfolding owners
owners-set b [] i e h = absurd (omega arith)
owners-set b (x ∷ es) zero e h = omega arith
owners-set b (x ∷ es) (suc i) e h = omega (arith, owners-set b es i e (omega arith))

pub All-set {ℓ κ} :
    {A : Type ℓ} (P : A → Type κ) (xs : List A) (i : ℕ) (x : A)
    → All P xs
    → P x
    → All P (set xs i x)
All-set P [] i x h p = h
All-set P (y ∷ xs) zero x (h, hs) p = (p, hs)
All-set P (y ∷ xs) (suc i) x (h, hs) p = (h, All-set P xs i x hs p)

pub All-get_or {ℓ κ} :
    {A : Type ℓ} (P : A → Type κ) (xs : List A) (i : ℕ) (d : A)
    → All P xs
    → i < length xs
    → P (get_or xs i d)
All-get_or P [] i d h lt = absurd (omega arith)
All-get_or P (y ∷ xs) zero d (h, hs) lt = h
All-get_or P (y ∷ xs) (suc i) d (h, hs) lt = All-get_or P xs i d hs (omega arith)

-- The first entry that passes the test.
pub record FirstAt (test : DirEntry → Bool) (es : List DirEntry) (i : ℕ) : Type 0 where
  pub inside : i < length es
  pub passes : test (get_or es i empty_entry) ≡ true
  pub first : (j : ℕ) → j < i → test (get_or es j empty_entry) ≡ false

first-suc :
    (test : DirEntry → Bool) (x : DirEntry) (es : List DirEntry)
    → test x ≡ false
    → (k i : ℕ) → i ≡ k
    → ((j : ℕ) → j < k → test (get_or es j empty_entry) ≡ false)
    → (j : ℕ) → j < suc i
    → test (get_or (x ∷ es) j empty_entry) ≡ false
first-suc test x es miss k i at f zero h = miss
first-suc test x es miss k i at f (suc j) h = f j (omega arith)

pub find_slot-some :
    (test : DirEntry → Bool) (es : List DirEntry) (i : ℕ)
    → find_slot test es ≡ some i
    → FirstAt test es i
unfolding find_slot
find_slot-some test [] i e = absurd (cc)
find_slot-some test (x ∷ es) i e = elim (Bool-cases (test x)) [
  | inl hit ↦ at_zero hit i (ground arith)
  | inr miss ↦ elim (Option-cases (find_slot test es)) [
    | inl rest ↦ absurd (ground arith)
    | inr (k, rest) ↦ later miss k i (ground arith) (find_slot-some test es k rest)
  ]
]
  where
    at_zero : test x ≡ true → (k : ℕ) → k ≡ 0 → FirstAt test (x ∷ es) k
    at_zero hit zero h = record {
      inside = omega arith;
      passes = hit;
      first = λ j b. absurd (omega arith);
    }
    at_zero hit (suc k) h = absurd (omega arith)

    later : test x ≡ false → (k i : ℕ) → i ≡ suc k → FirstAt test es k → FirstAt test (x ∷ es) i
    later miss k zero h f = absurd (omega arith)
    later miss k (suc i) h f =
        let at : i ≡ k = omega arith in
        record {
          inside = omega (arith, f.inside);
          passes = rw at f.passes;
          first = first-suc test x es miss k i at f.first;
        }

pub find_slot-none :
    (test : DirEntry → Bool) (es : List DirEntry)
    → find_slot test es ≡ none
    → All (λ e. test e ≡ false) es
unfolding find_slot
find_slot-none test [] e = tt
find_slot-none test (x ∷ es) e = (ground arith, find_slot-none test es (ground arith))

pub own-le-owners :
    (b : ℕ) (es : List DirEntry) (i : ℕ)
    → i < length es
    → own b (get_or es i empty_entry) ≤ owners b es
unfolding owners
own-le-owners b [] i h = absurd (omega arith)
own-le-owners b (x ∷ es) zero h = omega arith
own-le-owners b (x ∷ es) (suc i) h = omega (arith, own-le-owners b es i (omega arith))

-- Replacing an entry by one on which the test answers the same finds the same slot.
pub find_slot-set :
    (test : DirEntry → Bool) (es : List DirEntry) (i : ℕ) (e : DirEntry)
    → test e ≡ test (get_or es i empty_entry)
    → i < length es
    → find_slot test (set es i e) ≡ find_slot test es
unfolding find_slot
find_slot-set test [] i e same h = refl
find_slot-set test (x ∷ es) zero e same h = ground (arith, same)
find_slot-set test (x ∷ es) (suc i) e same h =
    ground (arith, find_slot-set test es i e same (omega arith))

-- Putting an entry that passes where all before it fail makes it the first.
pub find_slot-set_first :
    (test : DirEntry → Bool) (es : List DirEntry) (i : ℕ) (e : DirEntry)
    → All (λ x. test x ≡ false) es
    → i < length es
    → test e ≡ true
    → find_slot test (set es i e) ≡ some i
unfolding find_slot
find_slot-set_first test [] i e all h p = absurd (omega arith)
find_slot-set_first test (x ∷ es) zero e all h p = ground arith
find_slot-set_first test (x ∷ es) (suc i) e (f, fs) h p =
    ground (arith, find_slot-set_first test es i e fs (omega arith) p, add-one i)

-- Two entries of a list both count.
pub own-own-le-owners :
    (b : ℕ) (es : List DirEntry) (i j : ℕ)
    → i ≢ j
    → i < length es
    → j < length es
    → own b (get_or es i empty_entry) + own b (get_or es j empty_entry) ≤ owners b es
unfolding owners
own-own-le-owners b [] i j ne hi hj = absurd (omega arith)
own-own-le-owners b (x ∷ es) zero zero ne hi hj = absurd (ne refl)
own-own-le-owners b (x ∷ es) zero (suc j) ne hi hj =
    omega (arith, own-le-owners b es j (omega arith))
own-own-le-owners b (x ∷ es) (suc i) zero ne hi hj =
    omega (arith, own-le-owners b es i (omega arith))
own-own-le-owners b (x ∷ es) (suc i) (suc j) ne hi hj =
    omega (arith, own-own-le-owners b es i j (λ e. ne (ap suc e)) (omega arith) (omega arith))
