-- ===== src/AliasVector/Memory.antt =====
-- Memory of include/dparallel_recursion/FillableAliasVector.h: what a new array holds once cells are copied
-- to it, and what it leaves as it was.
use dparallel_recursion.Common.{
  ℕ, zero, suc, ◌+◌, ◌-◌, ◌≤◌, ◌≡◌, refl, sym, ap, subst, ◌∙◌, true, false, arith, Option, none,
  some, ◌>>=◌, leb, ◌==◌, ==_iff, List, [], ◌∷◌, ◌++◌, length, Bool-cases, Option-cases,
  some_injective, inl, inr,
}
use dparallel_recursion.AliasVector.{
  Pointer, Heap, take, drop, unset, put_block, read, write, copy_cells, new_array,
}

pub length-unset {ℓ} : (T : Type ℓ) (n : ℕ) → length (unset {T = T} n) ≡ n
unfolding unset
length-unset T zero = refl
length-unset T (suc n) = ap suc (length-unset T n)

drop-unset {ℓ} : (T : Type ℓ) (m n : ℕ) → drop m (unset {T = T} n) ≡ unset (n - m)
unfolding drop unset
drop-unset T zero n = let all : n ≡ n - 0 = omega arith in ap unset all
drop-unset T (suc m) zero = let nothing : 0 ≡ 0 - suc m = omega arith in ap unset nothing
drop-unset T (suc m) (suc n) =
    let less : n - m ≡ suc n - suc m = omega arith in drop-unset T m n ∙ ap unset less

module _ {ℓ} {T : Type ℓ} where
  take-append : (xs ys : List (Option T)) → take (length xs) (xs ++ ys) ≡ xs
  unfolding take
  take-append [] ys = refl
  take-append (x ∷ xs) ys = ap (λ zs. x ∷ zs) (take-append xs ys)

  pub length-read :
      (p : Option Pointer) (n : ℕ) (h : Heap T) (xs : List (Option T))
      → read p n h ≡ some xs
      → length xs ≡ n
  unfolding read
  length-read p zero h xs e = sym (ap length (some_injective [] xs e))
  length-read none (suc n) h xs e = cc
  length-read (some p) (suc n) h xs e = elim (Option-cases (h.blocks p.block)) [
    | inl dead ↦ let clash : none ≡ some xs = rw dead at e in cc
    | inr (cells, live) ↦
        let part = take (suc n) (drop p.place cells) in
        elim (Bool-cases (length part == suc n)) [
          | inl all ↦
              let same = some_injective part xs (rw (live, all) at e) in
              ap length (sym same) ∙ (==_iff (length part) (suc n)).0 all
          | inr short ↦ let clash : none ≡ some xs = rw (live, short) at e in cc
        ]
  ]

  -- Memory after one array has been made and filled.
  pub record Extends (b : ℕ) (cells : List (Option T)) (h h' : Heap T) : Type ℓ where
    pub own : h'.blocks b ≡ some cells
    pub others : (k : ℕ) → (k == b) ≡ false → h'.blocks k ≡ h.blocks k

  -- Cells of an array that lives stay readable.
  pub read-Extends :
      (p : Option Pointer) (n b : ℕ) (cells xs : List (Option T)) (h h' : Heap T)
      → h.blocks b ≡ none
      → Extends b cells h h'
      → read p n h ≡ some xs
      → read p n h' ≡ some xs
  unfolding read
  read-Extends p zero b cells xs h h' free x e = e
  read-Extends none (suc n) b cells xs h h' free x e = e
  read-Extends (some p) (suc n) b cells xs h h' free x e = elim (Bool-cases (p.block == b)) [
    | inl same ↦
        let dead : h.blocks p.block ≡ none =
          ap (λ k. h.blocks k) ((==_iff p.block b).0 same) ∙ free in
        let clash : none ≡ some xs = rw dead at e in cc
    | inr other ↦ rw (x.others p.block other) e
  ]

  pub new_array-Extends : (n : ℕ) (h : Heap T) → Extends h.next (unset n) h (new_array n h).1
  unfolding new_array put_block
  new_array-Extends n h =
      let own : (h.next == h.next) ≡ true = ground arith in
      record { own = rw own refl; others = λ k other. rw other refl }

  pub write-Extends :
      (b : ℕ) (cells xs : List (Option T)) (h h' : Heap T)
      → Extends b cells h h'
      → length xs ≤ length cells
      → (h2 : Heap T) × (write (some (record { block = b; place = 0 })) xs h' ≡ some h2)
        × Extends b (xs ++ drop (length xs) cells) h h2
        × (h2.next ≡ h'.next)
  unfolding write drop put_block take
  write-Extends b cells [] h h' x le = (h', refl, x, refl)
  write-Extends b cells (y ∷ ys) h h' x le =
      let xs = y ∷ ys in
      let inside : leb (0 + length xs) (length cells) ≡ true = ground arith in
      let from : 0 + length xs ≡ length xs = omega arith in
      let own : (b == b) ≡ true = ground arith in
      (
        put_block b (some (xs ++ drop (length xs) cells)) h',
        rw (x.own, inside, from) refl,
        record { own = rw own refl; others = λ k other. rw other (x.others k other) },
        refl,
      )

  -- A new array with a copy of cells that can be read: the copy, and room for the rest.
  pub copy_cells-Extends :
      (src : Option Pointer) (n sz : ℕ) (xs : List (Option T)) (h : Heap T)
      → h.blocks h.next ≡ none
      → read src n h ≡ some xs
      → n ≤ sz
      → (h2 : Heap T) × (copy_cells (new_array sz h).0 src n (new_array sz h).1 ≡ some h2)
        × Extends h.next (xs ++ unset (sz - n)) h h2
        × (h2.next ≡ suc h.next)
  unfolding copy_cells new_array
  copy_cells-Extends src n sz xs h free readable le =
      let x = new_array-Extends sz h in
      let long = length-read src n h xs readable in
      let again = read-Extends src n h.next (unset sz) xs h (new_array sz h).1 free x readable in
      let (h2, e, x2, same) =
        write-Extends h.next (unset sz) xs h (new_array sz h).1 x
          (omega (arith, long, length-unset T sz, le)) in
      (
        h2,
        ap (λ m. m >>= λ zs. write (new_array sz h).0 zs (new_array sz h).1) again ∙ e,
        subst (λ zs. Extends h.next (xs ++ zs) h h2)
            (drop-unset T (length xs) sz ∙ ap (λ k. unset (sz - k)) long) x2,
        same,
      )

  -- The first cells of a new array.
  pub read-own :
      (b : ℕ) (xs ys : List (Option T)) (h h' : Heap T)
      → Extends b (xs ++ ys) h h'
      → read (some (record { block = b; place = 0 })) (length xs) h' ≡ some xs
  unfolding read drop take
  read-own b [] ys h h' x = refl
  read-own b (z ∷ zs) ys h h' x =
      let all : (length (z ∷ zs) == suc (length zs)) ≡ true = ground arith in
      rw (x.own, take-append zs ys, all) refl
