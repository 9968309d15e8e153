-- ===== src/AliasVector/Ownership.antt =====
-- include/dparallel_recursion/FillableAliasVector.h: the copies that own their array.
use dparallel_recursion.Common.{
  ℕ, zero, suc, ◌-◌, ◌<◌, ◌≡◌, refl, sym, ap, subst, ◌∙◌, true, false, arith, Option, none, some,
  ltb, ◌==◌, ==_iff, if◌then◌else◌, List, [], ◌++◌, length, length-append, append-nil, Bool-cases,
  inl, inr,
}
use dparallel_recursion.AliasVector.{
  Pointer, Heap, FillableAliasVector, unset, put_block, read, new_array, delete_array, destroy,
  deep_copy, resize, move_assign, same_pointer, empty_vector,
}
use dparallel_recursion.AliasVector.Memory.{
  Extends, copy_cells-Extends, read-own, read-Extends, length-read, length-unset,
}

module _ {ℓ} {T : Type ℓ} where
  -- The cells that a vector shows.
  unfoldable pub contents : FillableAliasVector → Heap T → Option (List (Option T))
  contents v h = read v.alias.data_ v.alias.sz_ h

  -- A vector owns the array of number b.
  pub record Owns (b : ℕ) (v : FillableAliasVector) (h : Heap T) : Type ℓ where
    pub owner : v.owned_ ≡ true
    pub source : v.alias.source_data ≡ some (record { block = b; place = 0 })
    pub lives : (cells : List (Option T)) × (h.blocks b ≡ some cells)

  other-block :
      (b free : ℕ) (h : Heap T) (cells : List (Option T))
      → h.blocks b ≡ some cells
      → h.blocks free ≡ none
      → ((b == free) ≡ false) × ((free == b) ≡ false)
  other-block b free h cells live no_block = elim (Bool-cases (b == free)) [
    | inl same ↦
        let clash : none ≡ some cells =
          sym no_block ∙ ap (λ k. h.blocks k) (sym ((==_iff b free).0 same)) ∙ live in
        cc
    | inr other ↦ (other, ground arith)
  ]

  delete_array-live :
      (b : ℕ) (cells : List (Option T)) (h : Heap T)
      → h.blocks b ≡ some cells
      → delete_array (some (record { block = b; place = 0 })) h ≡ some (put_block b none h)
  unfolding delete_array
  delete_array-live b cells h live = rw live refl

  -- For a vector that is not empty and whose cells can be read, and a memory whose next array is
  -- free: `deepCopy` succeeds, the copy has the same cells and owns the new array, and the vector
  -- and all other arrays are unchanged.
  pub deep_copy-contents :
      (v : FillableAliasVector) (xs : List (Option T)) (h : Heap T)
      → 0 < v.alias.sz_
      → h.blocks h.next ≡ none
      → contents v h ≡ some xs
      → (c : FillableAliasVector) × (h' : Heap T) × (deep_copy v h ≡ some (c, h'))
        × (contents c h' ≡ some xs)
        × Owns h.next c h'
        × (contents v h' ≡ some xs)
        × ((k : ℕ) → (k == h.next) ≡ false → h'.blocks k ≡ h.blocks k)
  unfolding deep_copy contents new_array
  deep_copy-contents v xs h some_cells free readable =
      let sz = v.alias.sz_ in
      let (h2, e, x, next) =
        copy_cells-Extends v.alias.data_ sz sz xs h free readable (omega arith) in
      let long = length-read v.alias.data_ sz h xs readable in
      let filled : (sz == 0) ≡ false = ground arith in
      (
        record {
          alias = record { data_ = (new_array sz h).0; sz_ = sz; source_data = (new_array sz h).0 };
          owned_ = true;
        },
        h2,
        rw (filled, e) refl,
        subst (λ n. read (some (record { block = h.next; place = 0 })) n h2 ≡ some xs) long
            (read-own h.next xs (unset (sz - sz)) h h2 x),
        record { owner = refl; source = refl; lives = (_, x.own) },
        read-Extends v.alias.data_ sz h.next _ xs h h2 free x readable,
        x.others,
      )

  -- For a vector that owns an array, whose cells can be read, and a memory whose next array is free:
  -- growing succeeds, the cells come first and the rest are not set, the vector owns the new array,
  -- the old one is freed, and all others are unchanged.
  pub resize-contents :
      (v : FillableAliasVector) (b sz : ℕ) (xs : List (Option T)) (h : Heap T)
      → h.blocks h.next ≡ none
      → Owns b v h
      → contents v h ≡ some xs
      → v.alias.sz_ < sz
      → (w : FillableAliasVector) × (h' : Heap T) × (resize sz v h ≡ some (w, h'))
        × (contents w h' ≡ some (xs ++ unset (sz - v.alias.sz_)))
        × Owns h.next w h'
        × (h'.blocks b ≡ none)
        × ((k : ℕ) → (k == h.next) ≡ false → (k == b) ≡ false → h'.blocks k ≡ h.blocks k)
  unfolding resize contents new_array delete_array put_block
  resize-contents v b sz xs h free o readable grows =
      let n = v.alias.sz_ in
      let (h2, e, x, next) =
        copy_cells-Extends v.alias.data_ n sz xs h free readable (omega arith) in
      let long = length-read v.alias.data_ n h xs readable in
      let grown : ltb n sz ≡ true = ground arith in
      let (cells, live) = o.lives in
      let (apart, apart') = other-block b h.next h cells live free in
      let zs = xs ++ unset (sz - n) in
      let h3 = put_block b none h2 in
      let freed : delete_array v.alias.source_data h2 ≡ some h3 =
        rw o.source (delete_array-live b cells h2 (x.others b apart ∙ live)) in
      let x3 : Extends h.next zs (put_block b none h) h3 = record {
        own = rw apart' x.own;
        others = λ k other. ap (λ c. if k == b then none else c) (x.others k other);
      } in
      let long' : length zs ≡ sz =
        omega (arith, length-append xs (unset (sz - n)), length-unset T (sz - n), long, grows) in
      let own : (b == b) ≡ true = ground arith in
      (
        record v {
          alias = record { data_ = (new_array sz h).0; sz_ = sz; source_data = (new_array sz h).0 };
        },
        h3,
        rw (o.owner, grown, e, freed) refl,
        subst (λ m. read (some (record { block = h.next; place = 0 })) m h3 ≡ some zs) long'
            (read-own h.next zs [] (put_block b none h) h3
              (subst (λ c. Extends h.next c (put_block b none h) h3) (sym (append-nil zs)) x3)),
        record { owner = o.owner; source = refl; lives = (zs, x3.own) },
        rw own refl,
        λ k other old. rw old (x.others k other),
      )

  read-same :
      (q : Pointer) (n : ℕ) (h h' : Heap T)
      → h'.blocks q.block ≡ h.blocks q.block
      → read (some q) n h' ≡ read (some q) n h
  unfolding read
  read-same q zero h h' e = refl
  read-same q (suc n) h h' e = rw e refl

  -- For two vectors that own different arrays, the second one with its data in its own: the
  -- assignment that moves succeeds, the first shows the cells of the second and owns its array, what
  -- is left of the second frees nothing, destroying the first succeeds, and then both arrays are
  -- freed and all others unchanged.
  pub move_assign-destroy :
      (v other : FillableAliasVector) (b c place : ℕ) (h : Heap T)
      → Owns b v h
      → Owns c other h
      → other.alias.data_ ≡ some (record { block = c; place = place })
      → (b == c) ≡ false
      → (w rest : FillableAliasVector) × (h1 : Heap T) × (h2 : Heap T) × (move_assign v other h
          ≡ some (w, rest, h1))
        × (contents w h1 ≡ contents other h)
        × Owns c w h1
        × (destroy rest h1 ≡ some h1)
        × (destroy w h1 ≡ some h2)
        × (h2.blocks b ≡ none)
        × (h2.blocks c ≡ none)
        × ((k : ℕ) → (k == b) ≡ false → (k == c) ≡ false → h2.blocks k ≡ h.blocks k)
  unfolding move_assign contents destroy put_block same_pointer empty_vector
  move_assign-destroy v other b c place h o o' start apart =
      let (cells, live) = o.lives in
      let (cells', live') = o'.lives in
      let apart' : (c == b) ≡ false = ground arith in
      let own : (b == b) ≡ true = ground arith in
      let own' : (c == c) ≡ true = ground arith in
      let h1 = put_block b none h in
      let kept : h1.blocks c ≡ some cells' = rw apart' live' in
      let freed = delete_array-live b cells h live in
      let freed' = delete_array-live c cells' h1 kept in
      (
        other,
        empty_vector,
        h1,
        put_block c none h1,
        rw (o.owner, o.source, o'.source, apart, freed) refl,
        rw start
            (read-same (record { block = c; place = place }) other.alias.sz_ h h1 (rw apart' refl)),
        record { owner = o'.owner; source = o'.source; lives = (cells', kept) },
        refl,
        rw (o'.owner, o'.source) freed',
        rw (apart, own) refl,
        rw own' refl,
        λ k one two. rw (two, one) refl,
      )
