-- ===== src/Shell/Words.antt =====
-- kernel/Shell.c: `lsh_split_line` against the words of a line.
use shed_kernel.Prelude.{
  ℕ, zero, suc, ◌+◌, ◌≤◌, ◌<◌, ◌≡◌, refl, ap, ◌∙◌, sym, true, false, not, ◌&&◌, Option, none, some,
  List, [], ◌∷◌, ◌++◌, ◌==◌, if◌then◌else◌, length, arith, append_assoc, append_nil, Bool-cases,
  inl, inr,
}
use shed_kernel.CString.{head}
use shed_kernel.Shell.{
  is_delim, skip_delims, cut_token, strtok, tok_delim, split_loop, lsh_split_line,
}

abbrev pub flush : List ℕ → List (List ℕ)
flush [] = []
flush (c ∷ cur) = (c ∷ cur) ∷ []

-- The words of a string, with `cur` in front of it, up to its end or a zero byte: its longest parts
-- without delimiters.
abbrev pub words : (ct s cur : List ℕ) → List (List ℕ)
words ct [] cur = flush cur
words ct (c ∷ s) cur =
    if c == 0
    then flush cur
    else if is_delim ct c
    then flush cur ++ words ct s []
    else words ct s (cur ++ c ∷ [])

abbrev words_behind : List ℕ → Option (List ℕ) → List (List ℕ)
words_behind ct none = []
words_behind ct (some s) = words ct s []

words-skip : (ct s : List ℕ) → words ct (skip_delims ct s) [] ≡ words ct s []
unfolding skip_delims
words-skip ct [] = refl
words-skip ct (c ∷ s) = elim (Bool-cases (c == 0)) [
  | inl z ↦ rw (z, skip_delims) (rw z refl)
  | inr nz ↦ elim (Bool-cases (is_delim ct c)) [
    | inl d ↦ rw (nz, d, skip_delims) (words-skip ct s)
    | inr d ↦ rw (nz, d, skip_delims) (rw (nz, d) refl)
  ]
]

words-cut :
    (ct s cur : List ℕ)
    → words ct s cur ≡ flush (cur ++ (cut_token ct s).0) ++ words_behind ct (cut_token ct s).1
unfolding cut_token
words-cut ct [] cur = ap flush (sym (append_nil cur)) ∙ sym (append_nil (flush (cur ++ [])))
words-cut ct (c ∷ s) cur = elim (Bool-cases (c == 0)) [
  | inl z ↦
      rw (z, cut_token) (ap flush (sym (append_nil cur)) ∙ sym (append_nil (flush (cur ++ []))))
  | inr nz ↦ elim (Bool-cases (is_delim ct c)) [
    | inl d ↦ rw (nz, d, cut_token) (ap (λ k. flush k ++ words ct s []) (sym (append_nil cur)))
    | inr d ↦
        rw (nz, d, cut_token)
          (words-cut ct s (cur ++ c ∷ [])
            ∙ ap (λ k. flush k ++ words_behind ct (cut_token ct s).1)
                (append_assoc cur (c ∷ []) (cut_token ct s).0))
  ]
]

-- What `strtok` leaves is shorter, and its token is not empty.
abbrev length_left : Option (List ℕ) → ℕ
length_left none = 0
length_left (some s) = suc (length s)

cut-shorter : (ct s : List ℕ) → length_left (cut_token ct s).1 ≤ length s
unfolding cut_token
cut-shorter ct [] = omega arith
cut-shorter ct (c ∷ s) = elim (Bool-cases (c == 0)) [
  | inl z ↦ rw (z, cut_token) (omega arith)
  | inr nz ↦ elim (Bool-cases (is_delim ct c)) [
    | inl d ↦ rw (nz, d, cut_token) (omega arith)
    | inr d ↦ rw (nz, d, cut_token) (omega (arith, cut-shorter ct s))
  ]
]

skip-shorter : (ct s : List ℕ) → length (skip_delims ct s) ≤ length s
unfolding skip_delims
skip-shorter ct [] = omega arith
skip-shorter ct (c ∷ s) = elim (Bool-cases (not (c == 0) && is_delim ct c)) [
  | inl d ↦ rw (d, skip_delims) (omega (arith, skip-shorter ct s))
  | inr d ↦ rw (d, skip_delims) (omega arith)
]

flush-token :
    (ct s : List ℕ)
    → (head (skip_delims ct s) == 0) ≡ false
    → flush (cut_token ct (skip_delims ct s)).0 ≡ (cut_token ct (skip_delims ct s)).0 ∷ []
unfolding skip_delims cut_token
flush-token ct [] h = absurd (ground arith)
flush-token ct (c ∷ s) h = elim (Bool-cases (not (c == 0) && is_delim ct c)) [
  | inl d ↦ rw (d, skip_delims) (flush-token ct s (rw (d, skip_delims) at h))
  | inr d ↦ rw (d, skip_delims) (first (rw (d, skip_delims) at h) d)
]
  where
    first :
        (c == 0) ≡ false
        → (not (c == 0) && is_delim ct c) ≡ false
        → flush (cut_token ct (c ∷ s)).0 ≡ (cut_token ct (c ∷ s)).0 ∷ []
    first nz d = let plain : is_delim ct c ≡ false = rw nz at d in rw (nz, plain, cut_token) refl

head-words : (ct s : List ℕ) → (head s == 0) ≡ true → words ct s [] ≡ []
head-words ct [] h = refl
head-words ct (c ∷ s) h = rw h refl

split_loop-words :
    (f : ℕ) (s : Option (List ℕ))
    → length_left s < f
    → split_loop f s ≡ some (words_behind tok_delim s)
unfolding split_loop strtok
split_loop-words zero s h = absurd (omega arith)
split_loop-words (suc f) none h = refl
split_loop-words (suc f) (some s) h =
    let sb = skip_delims tok_delim s in
    elim (Bool-cases (head sb == 0)) [
      | inl done ↦
          rw (done, split_loop)
            (ap some (sym (head-words tok_delim sb done) ∙ words-skip tok_delim s))
      | inr more ↦
          let rest = (cut_token tok_delim sb).1 in
          let shorter : length_left rest < f =
            omega (arith, cut-shorter tok_delim sb, skip-shorter tok_delim s) in
          let left = split_loop-words f rest shorter in
          let token = flush-token tok_delim s more in
          rw (more, split_loop)
            (rw (left, split_loop)
              (ap some (
                ap (λ k. k ++ words_behind tok_delim rest) (sym token)
                ∙ sym (words-cut tok_delim sb [])
                ∙ words-skip tok_delim s)))
    ]

-- For every line, `lsh_split_line` returns its words: the longest parts without a delimiter, in
-- order. As many rounds as the line has bytes, and two more, are enough.
pub lsh_split_line-words : (line : List ℕ) → lsh_split_line line ≡ some (words tok_delim line [])
unfolding lsh_split_line
lsh_split_line-words line = split_loop-words (length line + 2) (some line) (omega arith)
