-- ===== src/Fs/Distinct.antt =====
-- Distinct file names: what keeps them so, what deletion then does, and what breaks them.
use shed_kernel.Prelude.{
  ℕ, suc, ◌+◌, ◌-◌, ◌%◌, ◌≤◌, ◌<◌, ◌≡◌, refl, sym, ap, subst, ◌∙◌, ◌≢◌, false, none, some, List, [],
  ◌∷◌, arith, Bool-cases, inl, inr, length, take, take-eq_of_length_le, get_or, set,
  get_or-set_self, get_or-set_ne, length-set, All,
}
use native.Mathlib.Decide.{ℕ_discrete}
use shed_kernel.CString.{text}
use shed_kernel.Fs.Disk.{DirEntry, Fs, empty_entry}
use shed_kernel.Fs.Dir.{is_file, entry_at, fs_find_file, fs_create_file, fs_delete_file, ok}
use shed_kernel.Fs.Entries.{FirstAt, find_slot-some, find_slot-set, All-get_or}
use shed_kernel.Fs.Valid.{IsValid}
use shed_kernel.Fs.Keep.{new_entry, fs_create_file-IsValid}
use shed_kernel.Fs.Names.{
  Created, created, text-new_entry, rootdir-free, is_file-of_ne, is_file-of_text, text_of_is_file,
  find_slot-eq_none,
}

-- No two used entries store the same name.
abbrev pub IsDistinct : Fs → Type 0
IsDistinct fs =
    (i j : ℕ)
    → i < length fs.fs_rootdir
    → j < length fs.fs_rootdir
    → (entry_at i fs).is_used ≢ 0
    → (entry_at j fs).is_used ≢ 0
    → text (entry_at i fs).name ≡ text (entry_at j fs).name
    → i ≡ j

-- The same of a list of entries.
abbrev Distinct : List DirEntry → Type 0
Distinct es =
    (i j : ℕ)
    → i < length es
    → j < length es
    → (get_or es i empty_entry).is_used ≢ 0
    → (get_or es j empty_entry).is_used ≢ 0
    → text (get_or es i empty_entry).name ≡ text (get_or es j empty_entry).name
    → i ≡ j

All-of_All {κ} :
    (P : DirEntry → Type κ) (es : List DirEntry)
    → ((i : ℕ) → i < length es → P (get_or es i empty_entry))
    → All P es
All-of_All P [] h = tt
All-of_All P (x ∷ es) h = (h 0 (omega arith), All-of_All P es (λ i lt. h (suc i) (omega arith)))

abbrev name_of : DirEntry → List ℕ
name_of e = text e.name

abbrev used_of : DirEntry → ℕ
used_of e = e.is_used

-- A list stays distinct if the entry put into it is named as no other used entry.
Distinct-set :
    (es : List DirEntry) (k : ℕ) (e : DirEntry)
    → k < length es
    → Distinct es
    → ((i : ℕ)
        → i < length es
        → i ≢ k
        → (get_or es i empty_entry).is_used ≢ 0
        → text (get_or es i empty_entry).name ≢ text e.name)
    → Distinct (set es k e)
Distinct-set es k e lt d new i j hi hj ui uj same = elim (ℕ_discrete i k) [
  | yes a ↦ elim (ℕ_discrete j k) [
    | yes b ↦ omega arith
    | no b ↦ absurd (
        new j (in_list j hj) b (used j b uj)
          (sym (ap name_of (other j b)) ∙ sym same ∙ ap name_of (here i a)))
  ]
  | no a ↦ elim (ℕ_discrete j k) [
    | yes b ↦ absurd (
        new i (in_list i hi) a (used i a ui)
          (sym (ap name_of (other i a)) ∙ same ∙ ap name_of (here j b)))
    | no b ↦
        d i j (in_list i hi) (in_list j hj) (used i a ui) (used j b uj)
          (sym (ap name_of (other i a)) ∙ same ∙ ap name_of (other j b))
  ]
]
  where
    other : (m : ℕ) → m ≢ k → get_or (set es k e) m empty_entry ≡ get_or es m empty_entry
    other m h = get_or-set_ne es k m e empty_entry (λ s. h (sym s))

    here : (m : ℕ) → m ≡ k → get_or (set es k e) m empty_entry ≡ e
    here m h = rw h (get_or-set_self es k e empty_entry lt)

    used :
        (m : ℕ)
        → m ≢ k
        → (get_or (set es k e) m empty_entry).is_used ≢ 0
        → (get_or es m empty_entry).is_used ≢ 0
    used m h u z = u (ap used_of (other m h) ∙ z)

    in_list : (m : ℕ) → m < length (set es k e) → m < length es
    in_list m h = omega (arith, h, length-set es k e)

module _ {fs : Fs} (v : IsValid fs) (d : IsDistinct fs) (name : List ℕ) where
  -- In a valid file system with distinct names, `fs_create_file`, if it succeeds on a name of at
  -- most 15 characters, keeps the names distinct.
  pub fs_create_file-IsDistinct :
      (fs' : Fs) → fs_create_file name fs ≡ (ok, fs') → length (text name) ≤ 15 → IsDistinct fs'
  fs_create_file-IsDistinct fs' e short =
      let c = created v name fs' e in
      let new = new_entry c.slot name c.block fs in
      let stored : text new.name ≡ text name =
        text-new_entry v name fs' c ∙ take-eq_of_length_le 15 (text name) short in
      subst Distinct (sym c.rootdir) (
        Distinct-set fs.fs_rootdir c.slot new c.inside d (λ i lt ne used same.
          missing i lt (All-get_or _ fs.fs_rootdir i empty_entry c.was_missing lt) used
            (same ∙ stored)))
    where
      missing :
          (i : ℕ)
          → i < length fs.fs_rootdir
          → is_file name (entry_at i fs) ≡ false
          → (entry_at i fs).is_used ≢ 0
          → text (entry_at i fs).name ≢ text name
      missing i lt no_file used same =
          ground (arith, is_file-of_text name (entry_at i fs) used same)

-- The entry in slot `i`, given up.
abbrev gone : ℕ → Fs → DirEntry
gone i fs = record (entry_at i fs) { is_used = 0 }

-- What `fs_delete_file` does to the directory.
rootdir-delete :
    (fs : Fs) (name : List ℕ) (i : ℕ)
    → fs_find_file name fs ≡ some i
    → let (r, fs') = fs_delete_file name fs in
      (r ≡ ok) × (fs'.fs_rootdir ≡ set fs.fs_rootdir i (gone i fs))
unfolding fs_find_file fs_delete_file
rootdir-delete fs name i found = ground (
  arith,
  found,
  rootdir-free
      (((entry_at i fs).first_data_block + 4294967296 - fs.fs_sb.first_data_block) % 4294967296) fs,
)

-- With distinct names no entry matches once the one that does is given up.
gone_missing :
    (fs : Fs) (name : List ℕ) (i : ℕ)
    → IsDistinct fs
    → FirstAt (is_file name) fs.fs_rootdir i
    → (j : ℕ) → j < length (set fs.fs_rootdir i (gone i fs))
    → is_file name (get_or (set fs.fs_rootdir i (gone i fs)) j empty_entry) ≡ false
gone_missing fs name i d f j lt = elim (ℕ_discrete j i) [
  | yes e ↦ rw (e, get_or-set_self fs.fs_rootdir i (gone i fs) empty_entry f.inside) refl
  | no ne ↦
      rw (get_or-set_ne fs.fs_rootdir i j (gone i fs) empty_entry (λ s. ne (sym s)))
        (elim (Bool-cases (is_file name (entry_at j fs))) [
          | inl hit ↦ absurd (
              ne (
                d j i (omega (arith, length-set fs.fs_rootdir i (gone i fs))) f.inside
                  (ground arith) (ground (arith, f.passes))
                  (text_of_is_file name (entry_at j fs) hit
                    ∙ sym (text_of_is_file name (entry_at i fs) f.passes))))
          | inr miss ↦ miss
        ])
]

module _ (fs : Fs) (name : List ℕ) (i : ℕ) (found : fs_find_file name fs ≡ some i) where
  fs_find_file-delete_self :
      IsDistinct fs
      → ((fs_delete_file name fs).0 ≡ ok) × (fs_find_file name (fs_delete_file name fs).1 ≡ none)
  unfolding fs_find_file
  fs_find_file-delete_self d =
      let f = find_slot-some (is_file name) fs.fs_rootdir i found in
      let (done, dir) = rootdir-delete fs name i found in
      (
        done,
        rw dir (
            find_slot-eq_none (is_file name) (set fs.fs_rootdir i (gone i fs)) (
              All-of_All (λ e. is_file name e ≡ false) (set fs.fs_rootdir i (gone i fs))
                (gone_missing fs name i d f))),
      )

  fs_find_file-delete_other :
      (other : List ℕ)
      → text other ≢ text name
      → fs_find_file other (fs_delete_file name fs).1 ≡ fs_find_file other fs
  unfolding fs_find_file
  fs_find_file-delete_other other ne =
      let f = find_slot-some (is_file name) fs.fs_rootdir i found in
      let here = text_of_is_file name (entry_at i fs) f.passes in
      rw (rootdir-delete fs name i found).1 (
        find_slot-set (is_file other) fs.fs_rootdir i (gone i fs)
          (sym (is_file-of_ne other (entry_at i fs) (λ s. ne (sym s ∙ here)))) f.inside)

  -- With distinct names, `fs_delete_file` on a name that is found succeeds, the name is not found
  -- any more, and another name is found where it was before, or is not found if it was not.
  pub fs_find_file-delete :
      (other : List ℕ)
      → IsDistinct fs
      → text other ≢ text name
      → ((fs_delete_file name fs).0 ≡ ok)
        × (fs_find_file name (fs_delete_file name fs).1 ≡ none)
        × (fs_find_file other (fs_delete_file name fs).1 ≡ fs_find_file other fs)
  fs_find_file-delete other d ne =
      let (done, gone) = fs_find_file-delete_self d in
      (done, gone, fs_find_file-delete_other other ne)

slot_name :
    (fs fs' : Fs) (v : IsValid fs) (name : List ℕ) (c : Created name fs fs')
    → (text (entry_at c.slot fs').name ≡ take 15 (text name))
      × ((entry_at c.slot fs').is_used ≡ 1)
      × (c.slot < length fs'.fs_rootdir)
slot_name fs fs' v name c =
    let new = new_entry c.slot name c.block fs in
    let at : entry_at c.slot fs' ≡ new =
      subst (λ es. get_or es c.slot empty_entry ≡ new) (sym c.rootdir)
        (get_or-set_self fs.fs_rootdir c.slot new empty_entry c.inside) in
    (
      ap name_of at ∙ text-new_entry v name fs' c,
      ap used_of at,
      omega (arith, ap length c.rootdir, length-set fs.fs_rootdir c.slot new, c.inside),
    )

-- If, from a valid file system on, creating a file succeeds twice in a row under the same name, then
-- the names are not distinct any more.
pub create_twice-not-IsDistinct :
    {fs fs' fs'' : Fs} (name : List ℕ)
    → IsValid fs
    → fs_create_file name fs ≡ (ok, fs')
    → fs_create_file name fs' ≡ (ok, fs'')
    → ¬ IsDistinct fs''
create_twice-not-IsDistinct {fs} {fs'} {fs''} name v first second d =
    let c = created v name fs' first in
    let v' : IsValid fs' = subst IsValid (ap (λ p. p.1) first) (fs_create_file-IsValid v name) in
    let c' = created v' name fs'' second in
    let (name_1, used_1, in_1) = slot_name fs fs' v name c in
    let (name_2, used_2, in_2) = slot_name fs' fs'' v' name c' in
    let ne : c'.slot ≢ c.slot =
      λ e. omega (arith, used_1, c'.was_unused, ap (λ k. (entry_at k fs').is_used) e) in
    let new = new_entry c'.slot name c'.block fs' in
    let same : entry_at c.slot fs'' ≡ entry_at c.slot fs' =
      subst (λ es. get_or es c.slot empty_entry ≡ entry_at c.slot fs') (sym c'.rootdir)
        (get_or-set_ne fs'.fs_rootdir c'.slot c.slot new empty_entry ne) in
    ne (
      d c'.slot c.slot in_2
        (omega (arith, ap length c'.rootdir, length-set fs'.fs_rootdir c'.slot new, in_1))
        (λ z. omega (arith, used_2)) (λ z. omega (arith, ap used_of same, used_1))
        (name_2 ∙ sym name_1 ∙ sym (ap name_of same)))
