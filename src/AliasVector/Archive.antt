-- ===== src/AliasVector/Archive.antt =====
-- include/dparallel_recursion/FillableAliasVector.h: serialize, in an archive that saves and in one that
-- loads. The archive is Boost.Serialization's: `Format` gives its bytes for a size and for an array, and
-- what it reads back.
use dparallel_recursion.Common.{
  ℕ, suc, ◌<◌, ◌≡◌, refl, sym, ap, subst, ◌∙◌, true, false, arith, Option, none, some, ◌>>=◌, ◌==◌,
  ==_iff, if◌then◌else◌, List, [], ◌∷◌, ◌++◌, length, append_assoc, Bool-cases, Option-cases,
  some_injective, inl, inr, ◌⊎◌,
}
use dparallel_recursion.AliasVector.{
  Pointer, Heap, FillableAliasVector, unset, read, write, new_array,
}
use dparallel_recursion.AliasVector.Memory.{
  length-read, read-own, write-Extends, new_array-Extends, length-unset,
}
use dparallel_recursion.AliasVector.Ownership.{contents}

pub record Format {ℓ κ} (T : Type ℓ) (B : Type κ) : Type (ℓ ⊔ κ) where
  pub size_bytes : ℕ → List B
  pub array_bytes : List T → List B
  pub get_size : List B → Option (ℕ × List B)
  pub get_array : ℕ → List B → Option (List T × List B)

-- What was written is read back, whatever follows it.
pub record IsLossless {ℓ κ} {T : Type ℓ} {B : Type κ} (f : Format T B) : Type (ℓ ⊔ κ) where
  pub size_back : (n : ℕ) (rest : List B) → f.get_size (f.size_bytes n ++ rest) ≡ some (n, rest)
  pub array_back :
      (xs : List T) (rest : List B)
      → f.get_array (length xs) (f.array_bytes xs ++ rest) ≡ some (xs, rest)

module _ {ℓ} {T : Type ℓ} where
  -- The values of cells that are all set.
  unfoldable pub all_set : List (Option T) → Option (List T)
  all_set [] = some []
  all_set (none ∷ xs) = none
  all_set (some x ∷ xs) = all_set xs >>= λ ys. some (x ∷ ys)

  unfoldable pub set_cells : List T → List (Option T)
  set_cells [] = []
  set_cells (x ∷ xs) = some x ∷ set_cells xs

  length-set_cells : (xs : List T) → length (set_cells xs) ≡ length xs
  unfolding set_cells
  length-set_cells [] = refl
  length-set_cells (x ∷ xs) = ap suc (length-set_cells xs)

  all_set-set_cells :
      (xs : List (Option T)) (ys : List T) → all_set xs ≡ some ys → set_cells ys ≡ xs
  unfolding all_set set_cells
  all_set-set_cells [] ys e = ap set_cells (sym (some_injective [] ys e))
  all_set-set_cells (none ∷ xs) ys e = cc
  all_set-set_cells (some x ∷ xs) ys e = elim (Option-cases (all_set xs)) [
    | inl n ↦ let clash : none ≡ some ys = rw n at e in cc
    | inr (zs, s) ↦
        let same : x ∷ zs ≡ ys = some_injective (x ∷ zs) ys (rw s at e) in
        ap set_cells (sym same) ∙ ap (λ l. some x ∷ l) (all_set-set_cells xs zs s)
  ]

module _ {ℓ κ} {T : Type ℓ} {B : Type κ} (format : Format T B) where
  -- serialize, where Archive::is_saving
  unfoldable pub save : FillableAliasVector → Heap T → Option (List B)
  unfolding read all_set
  save v h =
      if v.alias.sz_ == 0
      then some (format.size_bytes 0)
      else (read v.alias.data_ v.alias.sz_ h >>= λ cells.
          all_set cells >>= λ xs. some (format.size_bytes v.alias.sz_ ++ format.array_bytes xs))

  -- serialize, where the archive loads: the first part reads the size and makes the array, where there is
  -- none.
  unfoldable pub load_size :
      FillableAliasVector → List B → Heap T → Option (FillableAliasVector × List B × Heap T)
  unfolding new_array
  load_size v bytes h = format.get_size bytes >>= λ p.
      (let (start, h') = new_array p.0 h in
        elim v.alias.data_ [
          | none ↦
              if p.0 == 0
              then some (record v { alias = record v.alias { sz_ = 0 } }, p.1, h)
              else some (
                record {
                  alias = record { data_ = start; sz_ = p.0; source_data = start };
                  owned_ = true;
                },
                p.1,
                h',
              )
          | some q ↦ if p.0 == v.alias.sz_ then some (v, p.1, h) else none
        ])

  unfoldable pub load :
      FillableAliasVector → List B → Heap T → Option (FillableAliasVector × List B × Heap T)
  unfolding load_size write set_cells
  load v bytes h = load_size v bytes h >>= λ r.
      (if r.0.alias.sz_ == 0
        then some r
        else (format.get_array r.0.alias.sz_ r.1 >>= λ p.
            write r.0.alias.data_ (set_cells p.0) r.2 >>= λ h'. some (r.0, p.1, h')))

  elim_none :
      {A : Type (ℓ ⊔ κ)} (p : Option Pointer) (x y : A)
      → p ≡ none
      → (elim p [ none ↦ x | some q ↦ y ]) ≡ x
  elim_none none x y e = refl
  elim_none (some q) x y e = cc

  -- What was saved: nothing but the size, or the cells too.
  save-cases :
      (v : FillableAliasVector) (bytes : List B) (h : Heap T)
      → save v h ≡ some bytes
      → ((v.alias.sz_ ≡ 0) × (format.size_bytes 0 ≡ bytes))
        ⊎ ((xs : List T) × (0 < v.alias.sz_)
            × (contents v h ≡ some (set_cells xs))
            × (length xs ≡ v.alias.sz_)
            × (format.size_bytes v.alias.sz_ ++ format.array_bytes xs ≡ bytes))
  unfolding save contents
  save-cases v bytes h saved = elim (Bool-cases (v.alias.sz_ == 0)) [
    | inl e ↦
        inl ((==_iff v.alias.sz_ 0).0 e, some_injective (format.size_bytes 0) bytes (rw e at saved))
    | inr e ↦ elim (Option-cases (read v.alias.data_ v.alias.sz_ h)) [
      | inl n ↦ let clash : none ≡ some bytes = rw (e, n) at saved in cc
      | inr (cells, r) ↦ elim (Option-cases (all_set cells)) [
        | inl n ↦ let clash : none ≡ some bytes = rw (e, r, n) at saved in cc
        | inr (xs, s) ↦
            let same = all_set-set_cells cells xs s in
            inr (
              xs,
              ground arith,
              r ∙ ap some (sym same),
              sym (length-set_cells xs)
                  ∙ ap length same
                  ∙ length-read v.alias.data_ v.alias.sz_ h cells r,
              some_injective (format.size_bytes v.alias.sz_ ++ format.array_bytes xs) bytes
                  (rw (e, r, s) at saved),
            )
      ]
    ]
  ]

  load_size-empty :
      (w : FillableAliasVector) (bytes rest : List B) (n : ℕ) (h : Heap T)
      → format.get_size bytes ≡ some (n, rest)
      → w.alias.data_ ≡ none
      → load_size w bytes h ≡ (
          if n == 0
          then some (record w { alias = record w.alias { sz_ = 0 } }, rest, h)
          else some (
            record {
              alias = record {
                data_ = (new_array n h).0;
                sz_ = n;
                source_data = (new_array n h).0;
              };
              owned_ = true;
            },
            rest,
            (new_array n h).1,
          ))
  unfolding load_size
  load_size-empty w bytes rest n h e empty = rw (e, load_size) (elim_none w.alias.data_ _ _ empty)

  -- For an archive that reads back what was written, and a vector with no array: where a vector is
  -- saved, loading its bytes succeeds, leaves the bytes that follow, and makes a vector of the same
  -- size and cells, which owns its array unless it is empty; the arrays of before are unchanged.
  pub load-save :
      (v w : FillableAliasVector) (bytes rest : List B) (h h' : Heap T)
      → IsLossless format
      → save v h ≡ some bytes
      → w.alias.data_ ≡ none
      → (u : FillableAliasVector) × (h2 : Heap T) × (load w (bytes ++ rest) h' ≡ some (u, rest, h2))
        × (u.alias.sz_ ≡ v.alias.sz_)
        × (contents u h2 ≡ contents v h)
        × ((u.owned_ ≡ true) ⊎ (v.alias.sz_ ≡ 0))
        × ((k : ℕ) → (k == h'.next) ≡ false → h2.blocks k ≡ h'.blocks k)
  unfolding load contents read new_array
  load-save v w bytes rest h h' lossless saved empty = elim (save-cases v bytes h saved) [
    | inl (none_saved, same) ↦
        let u = record w { alias = record w.alias { sz_ = 0 } } in
        let sized : load_size w (bytes ++ rest) h' ≡ some (u, rest, h') =
          ap (λ b. load_size w (b ++ rest) h') (sym same)
          ∙ load_size-empty w (format.size_bytes 0 ++ rest) rest 0 h' (lossless.size_back 0 rest)
              empty in
        (
          u,
          h',
          rw sized refl,
          sym none_saved,
          ap (λ n. read v.alias.data_ n h) (sym none_saved),
          inr none_saved,
          λ k other. refl,
        )
    | inr (xs, some_cells, readable, long, same) ↦
        let n = v.alias.sz_ in
        let u : FillableAliasVector = record {
          alias = record { data_ = (new_array n h').0; sz_ = n; source_data = (new_array n h').0 };
          owned_ = true;
        } in
        let filled : (n == 0) ≡ false = ground arith in
        let after = format.array_bytes xs ++ rest in
        let sized : load_size w (bytes ++ rest) h' ≡ some (u, after, (new_array n h').1) =
          ap (λ b. load_size w (b ++ rest) h') (sym same)
          ∙ ap (λ b. load_size w b h')
              (append_assoc (format.size_bytes n) (format.array_bytes xs) rest)
          ∙ load_size-empty w (format.size_bytes n ++ after) after n h' (lossless.size_back n after)
              empty
          ∙ rw filled refl in
        let got : format.get_array n after ≡ some (xs, rest) =
          subst (λ m. format.get_array m after ≡ some (xs, rest)) long
            (lossless.array_back xs rest) in
        let (h2, written, x, next) =
          write-Extends h'.next (unset n) (set_cells xs) h' (new_array n h').1
            (new_array-Extends n h') (omega (arith, length-set_cells xs, length-unset T n, long)) in
        let full = length-set_cells xs ∙ long in
        (
          u,
          h2,
          rw (sized, filled, got, written) refl,
          refl,
          subst (λ m. read (new_array n h').0 m h2 ≡ some (set_cells xs)) full
                (read-own h'.next (set_cells xs) _ h' h2 x)
              ∙ sym readable,
          inl refl,
          x.others,
        )
  ]
