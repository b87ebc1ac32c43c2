-- ===== src/Fs/Names.antt =====
-- Which names `fs_find_file` finds after `fs_create_file` and `fs_delete_file`.
use shed_kernel.Prelude.{
  ℕ, ◌≤◌, ◌<◌, ◌≡◌, refl, sym, ap, ◌∙◌, ◌≢◌, Bool, true, false, none, some, List, [], ◌∷◌, arith,
  Bool-cases, Option-cases, inl, inr, ◌==◌, length, take, take-eq_of_length_le, get_or, set,
  get_or-set_self, All,
}
use shed_kernel.CString.{text}
use shed_kernel.CString.Compare.{strcmp-eq_zero, strcmp_of_eq}
use shed_kernel.Fs.Disk.{
  DirEntry, Fs, empty_entry, fs_mark_block_used, fs_mark_block_free, fs_alloc_block,
}
use shed_kernel.Fs.Dir.{
  is_file, find_slot, copy_name, entry_at, create_in_slot, fs_find_file, fs_create_file, ok,
}
use shed_kernel.Fs.Entries.{
  find_slot-some, find_slot-none, find_slot-set, find_slot-set_first, All-get_or,
}
use shed_kernel.Fs.Valid.{IsValid, IsNamed, text-copy_name}
use shed_kernel.Fs.Keep.{allocated, new_entry}

rootdir-used : (b : ℕ) (fs : Fs) → (fs_mark_block_used b fs).1.fs_rootdir ≡ fs.fs_rootdir
unfolding fs_mark_block_used
rootdir-used b fs = ground arith

pub rootdir-free : (b : ℕ) (fs : Fs) → (fs_mark_block_free b fs).1.fs_rootdir ≡ fs.fs_rootdir
unfolding fs_mark_block_free
rootdir-free b fs = ground arith

pub is_file-of_text :
    (name : List ℕ) (e : DirEntry) → e.is_used ≢ 0 → text e.name ≡ text name → is_file name e ≡ true
is_file-of_text name e used same = ground (arith, strcmp_of_eq e.name name same)

pub text_of_is_file :
    (name : List ℕ) (e : DirEntry) → is_file name e ≡ true → text e.name ≡ text name
text_of_is_file name e h = strcmp-eq_zero e.name name (ground arith)

pub is_file-of_ne :
    (name : List ℕ) (e : DirEntry) → text e.name ≢ text name → is_file name e ≡ false
is_file-of_ne name e ne = elim (Bool-cases (is_file name e)) [
  | inl h ↦ absurd (ne (text_of_is_file name e h))
  | inr h ↦ h
]

pub find_slot-eq_none :
    (test : DirEntry → Bool) (es : List DirEntry)
    → All (λ e. test e ≡ false) es
    → find_slot test es ≡ none
unfolding find_slot
find_slot-eq_none test [] h = refl
find_slot-eq_none test (x ∷ es) (h, hs) = ground (arith, find_slot-eq_none test es hs)

long_missing :
    (name : List ℕ) (es : List DirEntry)
    → 15 < length (text name)
    → All IsNamed es
    → All (λ e. is_file name e ≡ false) es
long_missing name [] h n = tt
long_missing name (e ∷ es) h (n, ns) = (
  is_file-of_ne name e (λ same. omega (arith, n.terminated, ap length same)),
  long_missing name es h ns,
)

-- In a valid file system, a name of more than 15 characters is never found.
pub fs_find_file-long :
    {fs : Fs} (name : List ℕ) → IsValid fs → 15 < length (text name) → fs_find_file name fs ≡ none
unfolding fs_find_file
fs_find_file-long {fs} name v h = find_slot-eq_none _ fs.fs_rootdir (long_missing name _ h v.named)

-- What a successful `fs_create_file` has done to the directory.
pub record Created (name : List ℕ) (fs fs' : Fs) : Type 0 where
  pub slot : ℕ
  pub block : ℕ
  pub inside : slot < length fs.fs_rootdir
  pub was_unused : (entry_at slot fs).is_used ≡ 0
  pub was_missing : All (λ e. is_file name e ≡ false) fs.fs_rootdir
  pub rootdir : fs'.fs_rootdir ≡ set fs.fs_rootdir slot (new_entry slot name block fs)

module _ {fs : Fs} (v : IsValid fs) (name : List ℕ) where
  pub created : (fs' : Fs) → fs_create_file name fs ≡ (ok, fs') → Created name fs fs'
  unfolding fs_create_file create_in_slot fs_find_file
  created fs' e = elim (Option-cases (fs_find_file name fs)) [
    | inr (i, f) ↦ absurd (ground arith)
    | inl missing ↦ elim (Option-cases (find_slot (λ e. e.is_used == 0) fs.fs_rootdir)) [
      | inl full ↦ absurd (ground arith)
      | inr (i, slot) ↦ elim (Option-cases (fs_alloc_block fs)) [
        | inl no_block ↦ absurd (ground arith)
        | inr ((block, fs''), a) ↦
            let f = find_slot-some (λ e. e.is_used == 0) fs.fs_rootdir i slot in
            let al = allocated v block fs'' a in
            record {
              slot = i;
              block = block;
              inside = f.inside;
              was_unused = ground (arith, f.passes);
              was_missing = find_slot-none (is_file name) fs.fs_rootdir missing;
              rootdir = ground (arith, al.marked, rootdir-used al.index fs);
            }
      ]
    ]
  ]

  -- The stored name is the name cut to 15 characters.
  pub text-new_entry :
      (fs' : Fs) (c : Created name fs fs')
      → text (copy_name 15 name (entry_at c.slot fs).name) ≡ take 15 (text name)
  text-new_entry fs' c =
      text-copy_name 15 name (entry_at c.slot fs).name (
        omega (arith, (All-get_or IsNamed fs.fs_rootdir c.slot empty_entry v.named c.inside).field))

  module _ (fs' : Fs) (done : fs_create_file name fs ≡ (ok, fs'))
      (short : length (text name) ≤ 15) where
    stored_name :
        let c = created fs' done in text (new_entry c.slot name c.block fs).name ≡ text name
    stored_name = text-new_entry fs' (created fs' done) ∙ take-eq_of_length_le 15 (text name) short

    fs_find_file-create_self :
        (i : ℕ) × (fs_find_file name fs' ≡ some i) × ((entry_at i fs').file_size ≡ 0)
    unfolding fs_find_file
    fs_find_file-create_self =
        let c = created fs' done in
        let new = new_entry c.slot name c.block fs in
        (
          c.slot,
          rw (c.rootdir) (
              find_slot-set_first (is_file name) fs.fs_rootdir c.slot new c.was_missing c.inside
                (is_file-of_text name new (omega arith) stored_name)),
          ap (λ es. (get_or es c.slot empty_entry).file_size) c.rootdir
              ∙ ap (λ x. x.file_size)
                  (get_or-set_self fs.fs_rootdir c.slot new empty_entry c.inside),
        )

    fs_find_file-create_other :
        (other : List ℕ) → text other ≢ text name → fs_find_file other fs' ≡ fs_find_file other fs
    unfolding fs_find_file
    fs_find_file-create_other other ne =
        let c = created fs' done in
        let new = new_entry c.slot name c.block fs in
        rw (c.rootdir) (
          find_slot-set (is_file other) fs.fs_rootdir c.slot new
            (is_file-of_ne other new (λ s. ne (sym s ∙ stored_name))
              ∙ sym (unused c.slot c.was_unused))
            c.inside)
      where
        unused : (i : ℕ) → (entry_at i fs).is_used ≡ 0 → is_file other (entry_at i fs) ≡ false
        unused i h = ground arith

    -- In a valid file system, after `fs_create_file` has succeeded on a name of at most 15
    -- characters, that name is found, with size 0, and another name is found where it was before, or
    -- is not found if it was not.
    pub fs_find_file-create :
        (other : List ℕ)
        → text other ≢ text name
        → (i : ℕ) × (fs_find_file name fs' ≡ some i)
          × ((entry_at i fs').file_size ≡ 0)
          × (fs_find_file other fs' ≡ fs_find_file other fs)
    fs_find_file-create other ne =
        let (i, found, empty) = fs_find_file-create_self in
        (i, found, empty, fs_find_file-create_other other ne)
