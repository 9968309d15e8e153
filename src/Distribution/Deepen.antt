-- ===== src/Distribution/Deepen.antt =====
-- A level deeper and back (PrioritizeDM): the results go back to the processes that divided the problems.
use native.Mathlib.Nat.{div-add-mod, mul-div_cancel, mul-pos}
use dparallel_recursion.Common.{
  ℕ, ◌+◌, ◌*◌, ◌/◌, ◌%◌, ◌<◌, ◌≡◌, ◌≢◌, refl, sym, ap, ◌∙◌, Bool, ltb, ◌==◌, ==_iff, if◌then◌else◌,
  arith, Bool-cases, inl, inr,
}
use dparallel_recursion.Distribution.{
  Distribution, n_local_elems, set_nglobal_elems, compute_balance_on_elems, progress_dm_distr,
  commit_progress_dm_distr, progress_dm_red, commit_progress_dm_red,
}

-- Each process has its share.
pub record IsEven (d : Distribution) : Type 0 where
  pub positive : 0 < d.nprocs
  pub some_elems : 0 < d.nglobal_elems
  pub share : (i : ℕ) → d.elems_per_rank i ≡ n_local_elems d i

positive_test : (q r : ℕ) → 0 < q + r → 0 < q + (if ltb 0 r then 1 else 0)
positive_test q r pos = ground arith

first_share : (n p : ℕ) → 0 < n → 0 < n / p + (if ltb 0 (n % p) then 1 else 0)
first_share n p pos =
    let whole = div-add-mod n p in positive_test (n / p) (n % p) (grind (arith, whole))

-- With problems in the first process, the shares stay as they are.
kept :
    (d : Distribution) (value : ℕ)
    → d.elems_per_rank 0 ≢ 0
    → (set_nglobal_elems d value).0 ≡ record d { nglobal_elems = value }
unfolding set_nglobal_elems
kept d value some = elim (Bool-cases (d.elems_per_rank 0 == 0)) [
  | inl e ↦ absurd (some ((==_iff _ 0).0 e))
  | inr e ↦ rw e refl
]

n_local_elems-cong :
    (d e : Distribution) (i : ℕ)
    → d.nglobal_elems ≡ e.nglobal_elems
    → d.nprocs ≡ e.nprocs
    → n_local_elems d i ≡ n_local_elems e i
unfolding n_local_elems
n_local_elems-cong d e i g p = rw (g, p) refl

module _ (n : ℕ) (d : Distribution) (even : IsEven d) where
  open even use {some_elems, share}

  first_some : d.elems_per_rank 0 ≢ 0
  unfolding n_local_elems
  first_some e =
      let some = first_share d.nglobal_elems d.nprocs some_elems in omega (arith, share 0, some, e)

  pub distr-eq : (progress_dm_distr n d).0 ≡ record d {
    nglobal_elems = d.nglobal_elems * n;
    elems_per_rank = λ i. d.elems_per_rank i * n;
    next_elems_per_rank = n_local_elems (record d { nglobal_elems = d.nglobal_elems * n });
  }
  unfolding progress_dm_distr
  distr-eq = rw (kept d (d.nglobal_elems * n) first_some) refl

  red-eq : (progress_dm_red n d).0 ≡ record d {
    nglobal_elems = d.nglobal_elems / n;
    elems_per_rank = λ i. n_local_elems (record d { nglobal_elems = d.nglobal_elems / n }) i * n;
    next_elems_per_rank = d.elems_per_rank;
  }
  unfolding progress_dm_red
  red-eq = rw (kept d (d.nglobal_elems / n) first_some) refl

module _ (within : ℕ → ℕ → Bool) (lenient slow : Bool) where
  commit-Same :
      (d : Distribution)
      → ((commit_progress_dm_distr within lenient slow d).elems_per_rank ≡ d.next_elems_per_rank)
        × ((commit_progress_dm_distr within lenient slow d).nglobal_elems ≡ d.nglobal_elems)
        × ((commit_progress_dm_distr within lenient slow d).nprocs ≡ d.nprocs)
  unfolding commit_progress_dm_distr compute_balance_on_elems
  commit-Same d = elim (Bool-cases (ltb d.nglobal_elems d.nprocs)) [
    | inl e ↦ (rw e refl, rw e refl, rw e refl)
    | inr e ↦ elim (Bool-cases d.balance) [
      | inl b ↦ (rw (e, b) refl, rw (e, b) refl, rw (e, b) refl)
      | inr b ↦ (rw (e, b) refl, rw (e, b) refl, rw (e, b) refl)
    ]
  ]

  -- A level deeper, where the problems have moved.
  abbrev pub deepened : ℕ → Distribution → Distribution
  deepened n d = commit_progress_dm_distr within lenient slow (progress_dm_distr n d).0

  module _ (n : ℕ) (d : Distribution) (even : IsEven d) (pos : 0 < n) where
    open even use {positive, some_elems, share}

    deepened-Same :
        ((deepened n d).elems_per_rank
          ≡ n_local_elems (record d { nglobal_elems = d.nglobal_elems * n }))
        × ((deepened n d).nglobal_elems ≡ d.nglobal_elems * n)
        × ((deepened n d).nprocs ≡ d.nprocs)
    deepened-Same =
        let (elems, total, procs) = commit-Same (progress_dm_distr n d).0 in
        let e = distr-eq n d even in
        (
          elems ∙ ap (λ x. x.next_elems_per_rank) e,
          total ∙ ap (λ x. x.nglobal_elems) e,
          procs ∙ ap (λ x. x.nprocs) e,
        )

    -- Where each process has its share of a level with problems, and these are divided into at least one
    -- each: it has its share of the next level too.
    pub deepened-IsEven : IsEven (deepened n d)
    deepened-IsEven =
        let (elems, total, procs) = deepened-Same in
        record {
          positive = rw procs positive;
          some_elems = rw total (mul-pos some_elems pos);
          share = λ i.
              ap (λ f. f i) elems
              ∙ n_local_elems-cong (record d { nglobal_elems = d.nglobal_elems * n }) (deepened n d)
                  i (sym total) (sym procs);
        }

    -- Where each process has its share of a level with problems, and these are divided into at least
    -- one each and moved, on the way back: every process gets the results of as many problems as it
    -- has divided, and had as many as it held after the move; and the reduction leaves it with the
    -- share that it had at the level above, and the level with as many problems.
    pub progress_dm_red-deepened :
        (i : ℕ)
        → ((progress_dm_red n (deepened n d)).0.elems_per_rank i
            ≡ (progress_dm_distr n d).0.elems_per_rank i)
          × ((progress_dm_red n (deepened n d)).0.next_elems_per_rank i
              ≡ (progress_dm_distr n d).0.next_elems_per_rank i)
          × ((commit_progress_dm_red n (progress_dm_red n (deepened n d)).0).elems_per_rank i
              ≡ d.elems_per_rank i)
          × ((commit_progress_dm_red n (progress_dm_red n (deepened n d)).0).nglobal_elems
              ≡ d.nglobal_elems)
    unfolding commit_progress_dm_red
    progress_dm_red-deepened i =
        let (elems, total, procs) = deepened-Same in
        let down = distr-eq n d even in
        let up = red-eq n (deepened n d) deepened-IsEven in
        let back : (deepened n d).nglobal_elems / n ≡ d.nglobal_elems =
          rw total (mul-div_cancel d.nglobal_elems pos) in
        let shares =
          n_local_elems-cong
            (record (deepened n d) { nglobal_elems = (deepened n d).nglobal_elems / n }) d i back
            procs
          ∙ sym (share i) in
        let divided = ap (λ x. x.elems_per_rank i) up ∙ ap (λ k. k * n) shares in
        (
          divided ∙ sym (ap (λ x. x.elems_per_rank i) down),
          ap (λ x. x.next_elems_per_rank i) up
              ∙ ap (λ f. f i) elems
              ∙ sym (ap (λ x. x.next_elems_per_rank i) down),
          ap (λ k. k / n) divided ∙ mul-div_cancel (d.elems_per_rank i) pos,
          ap (λ x. x.nglobal_elems) up ∙ back,
        )
