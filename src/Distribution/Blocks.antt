-- ===== src/Distribution/Blocks.antt =====
-- The processes have consecutive blocks of the level, which cover it and differ by one problem at most.
use dparallel_recursion.Common.{
  ℕ, zero, suc, ◌+◌, ◌/◌, ◌%◌, ◌≤◌, ◌<◌, ◌≡◌, refl, sym, ap, ◌∙◌, Bool, false, ltb, leb,
  if◌then◌else◌, arith, Bool-cases, inl, inr, leb→le, leb→lt,
}
use dparallel_recursion.SRange.Cut.{cut, cut-zero, cut-suc, cut-all, cut-below, cut-above}
use dparallel_recursion.Distribution.{
  Distribution, accumulate, n_local_elems, first_global_elem, redistribute_on_elems,
  set_nglobal_elems,
}

-- The blocks follow one another, and are together the `n` elements of the last level.
pub record IsBlocks (d : Distribution) (n : ℕ) : Type 0 where
  pub first : (rank : ℕ) → first_global_elem d rank ≡ accumulate d.elems_per_rank 0 rank
  pub whole : accumulate d.elems_per_rank 0 d.nprocs ≡ n
  pub counted : d.nglobal_elems ≡ n
  pub some_procs : 0 < d.nprocs

pub accumulate-last :
    (f : ℕ → ℕ) (lo n : ℕ) → accumulate f lo (suc n) ≡ accumulate f lo n + f (lo + n)
unfolding accumulate
accumulate-last f lo zero = let e : lo + 0 ≡ lo = omega arith in omega (arith, ap f e)
accumulate-last f lo (suc n) =
    let e : lo + suc n ≡ lo + 1 + n = omega arith in
    omega (arith, accumulate-last f (lo + 1) n, ap f e)

pub accumulate-cong :
    (f g : ℕ → ℕ) (lo n : ℕ) → ((i : ℕ) → f i ≡ g i) → accumulate f lo n ≡ accumulate g lo n
unfolding accumulate
accumulate-cong f g lo zero e = refl
accumulate-cong f g lo (suc n) e = omega (arith, e lo, accumulate-cong f g (lo + 1) n e)

one_more : (q c : ℕ) (b : Bool) → c + (q + (if b then 1 else 0)) ≡ c + (if b then q + 1 else q)
one_more q c b = ground arith

near : (q : ℕ) (b : Bool) → (q ≤ q + (if b then 1 else 0)) × (q + (if b then 1 else 0) ≤ q + 1)
near q b = ground arith

-- Where the block of a rank starts.
pub accumulate-n_local_elems :
    (d : Distribution) (rank : ℕ)
    → accumulate (n_local_elems d) 0 rank
      ≡ cut (d.nglobal_elems / d.nprocs) (d.nglobal_elems % d.nprocs) rank
unfolding accumulate n_local_elems
accumulate-n_local_elems d zero = sym (cut-zero _ _)
accumulate-n_local_elems d (suc rank) =
    let e : suc rank ≡ rank + 1 = omega arith in
    let e' : 0 + rank ≡ rank = omega arith in
    accumulate-last (n_local_elems d) 0 rank
    ∙ rw (e', e)
        (rw
          (
            cut-suc (d.nglobal_elems / d.nprocs) (d.nglobal_elems % d.nprocs) rank,
            accumulate-n_local_elems d rank,
          )
          (one_more (d.nglobal_elems / d.nprocs) _ (ltb rank (d.nglobal_elems % d.nprocs))))

pub shares-total :
    (d : Distribution) → 0 < d.nprocs → accumulate (n_local_elems d) 0 d.nprocs ≡ d.nglobal_elems
shares-total d pos = accumulate-n_local_elems d d.nprocs ∙ cut-all d.nglobal_elems d.nprocs pos

first_global_elem-cut :
    (d : Distribution) (rank : ℕ)
    → d.use_cost ≡ false
    → first_global_elem d rank ≡ cut (d.nglobal_elems / d.nprocs) (d.nglobal_elems % d.nprocs) rank
unfolding first_global_elem
first_global_elem-cut d rank e = elim (Bool-cases (leb (d.nglobal_elems % d.nprocs) rank)) [
  | inl le ↦ rw (e, le) (sym (cut-above _ _ rank (leb→le _ rank le)))
  | inr gt ↦
      rw (e, gt) (omega (arith, cut-below (d.nglobal_elems / d.nprocs) _ rank (leb→lt _ rank gt)))
]

unshared :
    (d : Distribution) (value : ℕ)
    → d.elems_per_rank 0 ≡ 0
    → (set_nglobal_elems d value).0 ≡ redistribute_on_elems (record d { nglobal_elems = value })
unfolding set_nglobal_elems
unshared d value e = rw e refl

-- For a distribution that has not been balanced, at least one process, and any number of problems:
-- afterwards the first problem of each rank is the number of problems that the ranks before it have,
-- whichever of the two ways the code computes it; the processes together have all the problems; and
-- each has the quotient, or one more.
pub set_nglobal_elems-blocks :
    (d : Distribution) (value : ℕ)
    → 0 < d.nprocs
    → d.elems_per_rank 0 ≡ 0
    → ((rank : ℕ)
        → first_global_elem (set_nglobal_elems d value).0 rank
          ≡ accumulate (set_nglobal_elems d value).0.elems_per_rank 0 rank)
      × (accumulate (set_nglobal_elems d value).0.elems_per_rank 0 d.nprocs ≡ value)
      × ((rank : ℕ)
          → (value / d.nprocs ≤ (set_nglobal_elems d value).0.elems_per_rank rank)
            × ((set_nglobal_elems d value).0.elems_per_rank rank ≤ value / d.nprocs + 1))
unfolding redistribute_on_elems
set_nglobal_elems-blocks d value pos e =
    let e' = record d { nglobal_elems = value } in
    rw (unshared d value e) (
      λ rank. elim (Bool-cases d.use_cost) [
        | inl cost ↦ unfold first_global_elem in rw cost refl
        | inr even ↦
            first_global_elem-cut (redistribute_on_elems e') rank even
            ∙ sym (accumulate-n_local_elems e' rank)
      ],
      shares-total e' pos,
      λ rank. near (value / d.nprocs) (ltb rank (value % d.nprocs)),
    )

pub set_nglobal_elems-IsBlocks :
    (d : Distribution) (value : ℕ)
    → 0 < d.nprocs
    → d.elems_per_rank 0 ≡ 0
    → IsBlocks (set_nglobal_elems d value).0 value
unfolding redistribute_on_elems
set_nglobal_elems-IsBlocks d value pos e =
    let (starts, total, near) = set_nglobal_elems-blocks d value pos e in
    record {
      first = starts;
      whole = rw (unshared d value e) (shares-total (record d { nglobal_elems = value }) pos);
      counted = rw (unshared d value e) refl;
      some_procs = rw (unshared d value e) pos;
    }
