-- ===== src/Kbd/Queue.antt =====
-- The ring of kbd_driver.c against a bounded queue of key codes.
use shed_kernel.Prelude.{
  ℕ, zero, suc, ◌+◌, ◌-◌, ◌%◌, ◌<◌, ◌≡◌, refl, ap, ap₂, ◌≢◌, Option, none, some, List, [], ◌∷◌,
  ◌++◌, arith, length, get_or, set, length-set, get_or-set_self, get_or-set_ne, ◌==◌, if◌then◌else◌,
}
use shed_kernel.Kbd.{Kbd, kbd_push, kbd_getchar}

-- The ring's invariant: the array has its size, and both indices lie in it.
pub record IsRing (k : Kbd) : Type 0 where
  pub buf_size : length k.kbd_buf ≡ 256
  pub read_in : k.kbd_buf_read < 256
  pub write_in : k.kbd_buf_write < 256

-- The `n` codes from index `i` on, going round at the end of the array.
abbrev pub codes_from : List ℕ → ℕ → ℕ → List ℕ
codes_from buf i zero = []
codes_from buf i (suc n) = get_or buf i 0 ∷ codes_from buf ((i + 1) % 256) n

abbrev pub count : Kbd → ℕ
count k = (k.kbd_buf_write + 256 - k.kbd_buf_read) % 256

-- The codes that wait, the oldest first.
abbrev pub waiting : Kbd → List ℕ
waiting k = codes_from k.kbd_buf k.kbd_buf_read (count k)

-- A queue of at most 255 codes that drops what does not fit.
unfoldable pub enqueue : ℕ → List ℕ → List ℕ
enqueue code q = if length q == 255 then q else q ++ (code ∷ [])

unfoldable pub dequeue : List ℕ → Option (ℕ × List ℕ)
dequeue [] = none
dequeue (c ∷ q) = some (c, q)

length-codes_from : (buf : List ℕ) (i n : ℕ) → length (codes_from buf i n) ≡ n
length-codes_from buf i zero = refl
length-codes_from buf i (suc n) = ap suc (length-codes_from buf ((i + 1) % 256) n)

pub length-waiting : (k : Kbd) → length (waiting k) ≡ count k
length-waiting k = length-codes_from k.kbd_buf k.kbd_buf_read (count k)

codes_from-set :
    (buf : List ℕ) (code n i j : ℕ)
    → length buf ≡ 256
    → i < 256
    → n < 256
    → j ≡ (i + n) % 256
    → codes_from (set buf j code) i (suc n) ≡ codes_from buf i n ++ (code ∷ [])
codes_from-set buf code zero i j size hi hn e =
    let at : j ≡ i = omega arith in
    rw at (ap (λ x. x ∷ []) (get_or-set_self buf i code 0 (omega arith)))
codes_from-set buf code (suc n) i j size hi hn e =
    ap₂ ◌∷◌ (get_or-set_ne buf j i code 0 (omega arith))
      (codes_from-set buf code n ((i + 1) % 256) j size (omega arith) (omega arith) (omega arith))

codes_from-cons :
    (buf : List ℕ) (i n : ℕ)
    → n ≢ 0
    → codes_from buf i n ≡ get_or buf i 0 ∷ codes_from buf ((i + 1) % 256) (n - 1)
codes_from-cons buf i zero h = absurd (h refl)
codes_from-cons buf i (suc n) h = ap (λ m. codes_from buf i (suc m)) (omega arith)

pub kbd_push-IsRing : {k : Kbd} (code : ℕ) → IsRing k → IsRing (kbd_push code k)
unfolding kbd_push
kbd_push-IsRing {k} code v = ground (arith, length-set k.kbd_buf k.kbd_buf_write code)

-- A push on a valid ring appends the code to the codes that wait, or drops it if 255 codes wait.
pub kbd_push-enqueue :
    {k : Kbd} (code : ℕ) → IsRing k → waiting (kbd_push code k) ≡ enqueue code (waiting k)
unfolding kbd_push enqueue
kbd_push-enqueue {k} code v = ground (
  arith,
  length-waiting k,
  codes_from-set k.kbd_buf code (count k) k.kbd_buf_read k.kbd_buf_write,
)

-- What a read of a valid ring returns.
abbrev pub got : Kbd → Option (ℕ × Kbd) → Option (ℕ × List ℕ)
got k none = none
got k (some (c, k')) = some (c, waiting k')

pub kbd_getchar-dequeue : {k : Kbd} → IsRing k → got k (kbd_getchar k) ≡ dequeue (waiting k)
unfolding kbd_getchar dequeue
kbd_getchar-dequeue {k} v = ground (arith, codes_from-cons k.kbd_buf k.kbd_buf_read (count k))

pub kbd_getchar-IsRing :
    (k : Kbd) (c : ℕ) (k' : Kbd) → IsRing k → kbd_getchar k ≡ some (c, k') → IsRing k'
unfolding kbd_getchar
kbd_getchar-IsRing k c k' v e = ground arith

-- What the two ends of the ring leave alone.
pub flags-kbd_push :
    (code : ℕ) (k : Kbd)
    → ((kbd_push code k).shift_held ≡ k.shift_held) × ((kbd_push code k).enabled ≡ k.enabled)
unfolding kbd_push
flags-kbd_push code k = ground arith

pub flags-kbd_getchar :
    (k : Kbd) (c : ℕ) (k' : Kbd)
    → kbd_getchar k ≡ some (c, k')
    → (k'.shift_held ≡ k.shift_held) × (k'.enabled ≡ k.enabled)
unfolding kbd_getchar
flags-kbd_getchar k c k' e = ground arith
