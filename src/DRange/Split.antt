-- ===== src/DRange/Split.antt =====
-- The processes cut the range, and the tasks of a process cut its part, which may be one shorter than the
-- longest, so that its last task may be empty.
use native.Mathlib.Nat.{le-div_iff_mul-le}
use dparallel_recursion.Common.{
  ℕ, ◌+◌, ◌-◌, ◌*◌, ◌/◌, ◌%◌, ◌≤◌, ◌<◌, ◌≡◌, refl, sym, ap, ap₂, ◌∙◌, arith, true, false, ltb, ◌==◌,
  ==_iff, if◌then◌else◌,
}
use dparallel_recursion.SRange.Cut.{cut, cut-zero, cut-suc, cut-all, cut-above, div-twice}
use dparallel_recursion.Range.{Range, exclusive_size, exclusive_max_chunk, exclusive_range_info}
use dparallel_recursion.Range.Split.{bound, task-bounds}
use dparallel_recursion.DRange.{
  RangeDInfo, exclusive_range_dinfo, for_processes, d_is_base, d_child,
}
use dparallel_recursion.DRange.Clip.{
  between, sub_child-clipped, task_bound, cut-le, chunk_of, differ, clipped-le, clipped-ge,
  not_less, too_many, end-past, one_over, shorter,
}

module _ (r : Range) (nprocs ntasks : ℕ) (many : 2 ≤ nprocs) (pos : 0 < ntasks)
    (ordered : r.start ≤ r.end) (enough : nprocs * ntasks ≤ exclusive_size r) where
  abbrev pub dinfo : RangeDInfo
  dinfo = exclusive_range_dinfo r nprocs ntasks

  abbrev pub longest : ℕ
  longest = exclusive_max_chunk r nprocs

  procs : (if ltb nprocs 2 then 0 else nprocs) ≡ nprocs
  procs = ground arith

  some_procs : (nprocs == 0) ≡ false
  some_procs = ground arith

  share : ntasks ≤ exclusive_size r / nprocs
  share = (le-div_iff_mul-le (omega arith)).1 (omega (arith, enough))

  longest-le : longest ≤ exclusive_size r / nprocs + 1
  unfolding exclusive_max_chunk
  longest-le = ground arith

  longest-ge : exclusive_size r / nprocs ≤ longest
  unfolding exclusive_max_chunk
  longest-ge = omega arith

  longest-lt : longest < exclusive_size r
  unfolding exclusive_max_chunk
  longest-lt =
      let twice = div-twice (exclusive_size r) nprocs many in
      shorter (exclusive_size r / nprocs) (exclusive_size r % nprocs) (exclusive_size r) twice
        (omega (arith, share, pos))

  d_child-process :
      (i : ℕ)
      → i < nprocs
      → d_child dinfo i r
        ≡ record { start = bound nprocs r i; end = bound nprocs r (i + 1); nchildren = 0 }
  unfolding d_child for_processes exclusive_range_dinfo exclusive_range_info
  d_child-process i lt =
      let same : (exclusive_size r == exclusive_size r) ≡ true = (==_iff _ _).1 refl in
      rw (procs, some_procs, same) (task-bounds nprocs i r lt ordered)

  task-fits :
      (p : Range) (i : ℕ)
      → p.start ≤ p.end
      → longest ≤ exclusive_size p + 1
      → i < ntasks
      → p.start + cut (longest / ntasks) (longest % ntasks) i ≤ p.end
  unfolding exclusive_size
  task-fits p i p_ordered ge lt =
      let next = cut-suc (longest / ntasks) (longest % ntasks) i in
      let some_more : 1 ≤ longest / ntasks =
        (le-div_iff_mul-le pos).1 (omega (arith, longest-ge, share)) in
      let grown : longest / ntasks
          ≤ (if ltb i (longest % ntasks) then longest / ntasks + 1 else longest / ntasks) =
        ground arith in
      let e : i + 1 + (ntasks - (i + 1)) ≡ ntasks = omega arith in
      let rest = cut-le (longest / ntasks) (longest % ntasks) (i + 1) (ntasks - (i + 1)) in
      let all = cut-all longest ntasks pos in
      omega (
        arith,
        ge,
        p_ordered,
        next,
        some_more,
        grown,
        rest,
        ap (cut (longest / ntasks) (longest % ntasks)) e,
        all,
      )

  d_child-task :
      (p : Range) (i : ℕ)
      → p.start ≤ p.end
      → longest ≤ exclusive_size p + 1
      → exclusive_size p ≤ longest
      → i < ntasks
      → d_child dinfo i p ≡ record {
        start = task_bound longest ntasks p i;
        end = task_bound longest ntasks p (i + 1);
        nchildren = 0;
      }
  unfolding d_child for_processes exclusive_range_dinfo
  d_child-task p i p_ordered ge le lt =
      let other : (exclusive_size p == exclusive_size r) ≡ false =
        differ _ _ (omega (arith, le, longest-lt)) in
      let starts =
        clipped-le p.end (p.start + cut (longest / ntasks) (longest % ntasks) i)
          (task-fits p i p_ordered ge lt) in
      rw (procs, some_procs, other, chunk_of longest ntasks)
        (sub_child-clipped (longest / ntasks) (longest % ntasks) i p
          ∙ ap (λ a. between a (task_bound longest ntasks p (i + 1))) (sym starts))

  -- The part of the process `k`.
  abbrev pub part : ℕ → Range
  part k = between (bound nprocs r k) (bound nprocs r (k + 1))

  part-size :
      (k : ℕ)
      → k < nprocs
      → (exclusive_size (part k) ≡ (
          if ltb k (exclusive_size r % nprocs)
          then exclusive_size r / nprocs + 1
          else exclusive_size r / nprocs))
        × ((part k).start ≤ (part k).end)
  unfolding exclusive_size
  part-size k lt =
      let next = cut-suc (exclusive_size r / nprocs) (exclusive_size r % nprocs) k in
      (omega (arith, next), omega (arith, next))

  near :
      (q m k size : ℕ)
      → size ≡ (if ltb k m then q + 1 else q)
      → (q + (if m == 0 then 0 else 1) ≤ size + 1) × (size ≤ q + (if m == 0 then 0 else 1))
  near q m k size e = ground arith

  -- For at least two processes and one task, and a range with at least as many elements as they have
  -- tasks together: each process has the elements between its bound and the next; its tasks run from
  -- one bound to the next, where a bound past the end of its part is the end; and they begin and end
  -- with the part.
  pub d_child-tasks :
      (k : ℕ)
      → k < nprocs
      → (d_child dinfo k r ≡ part k)
        × ((i : ℕ)
            → i < ntasks
            → d_child dinfo i (part k) ≡ record {
              start = task_bound longest ntasks (part k) i;
              end = task_bound longest ntasks (part k) (i + 1);
              nchildren = 0;
            })
        × (task_bound longest ntasks (part k) 0 ≡ (part k).start)
        × (task_bound longest ntasks (part k) ntasks ≡ (part k).end)
  unfolding exclusive_max_chunk
  d_child-tasks k lt =
      let (size, p_ordered) = part-size k lt in
      let (ge, le) = near (exclusive_size r / nprocs) (exclusive_size r % nprocs) k _ size in
      let start = cut-zero (longest / ntasks) (longest % ntasks) in
      let all = cut-all longest ntasks pos in
      (
        d_child-process k lt,
        λ i i_lt. d_child-task (part k) i p_ordered ge le i_lt,
        clipped-le (part k).end _ (omega (arith, start, p_ordered)) ∙ omega (arith, start),
        clipped-ge (part k).end _ (omega (arith, all, end-past (part k) (longest) le)),
      )

  longest-one :
      exclusive_size r / nprocs ≡ ntasks → exclusive_size r % nprocs ≡ 1 → longest ≡ ntasks * 1 + 1
  unfolding exclusive_max_chunk
  longest-one q m = rw (q, m) (omega arith)

  -- For at least two processes of at least three tasks, and a range with one element more than these
  -- are: the part of any process but the first is no base case, and its last task is empty.
  pub d_child-empty :
      (k : ℕ)
      → exclusive_size r ≡ nprocs * ntasks + 1
      → 3 ≤ ntasks
      → 1 ≤ k
      → k < nprocs
      → (d_is_base dinfo (part k) ≡ false)
        × (d_child dinfo (ntasks - 1) (part k) ≡ between (part k).end (part k).end)
  unfolding d_is_base exclusive_range_dinfo
  d_child-empty k one three first lt =
      let (q, m) = one_over nprocs ntasks many in
      let q' : exclusive_size r / nprocs ≡ ntasks = ap (λ x. x / nprocs) one ∙ q in
      let m' : exclusive_size r % nprocs ≡ 1 = ap (λ x. x % nprocs) one ∙ m in
      let long : longest ≡ ntasks * 1 + 1 = longest-one q' m' in
      let (t, u) = one_over ntasks 1 (omega arith) in
      let t' : longest / ntasks ≡ 1 = ap (λ x. x / ntasks) long ∙ t in
      let u' : longest % ntasks ≡ 1 = ap (λ x. x % ntasks) long ∙ u in
      let (size, p_ordered) = part-size k lt in
      let short : ltb k (exclusive_size r % nprocs) ≡ false = rw m' (not_less k first) in
      let size' : exclusive_size (part k) ≡ ntasks = size ∙ rw short q' in
      let last = cut-above 1 1 (ntasks - 1) (omega arith) in
      let past = end-past (part k) ntasks (omega (arith, size')) in
      (
        rw (procs, some_procs, chunk_of longest ntasks)
            (rw (size', t', u') (too_many ntasks three)),
        d_child-task (part k) (ntasks - 1) p_ordered (omega (arith, size', long))
              (omega (arith, size', long)) (omega arith)
            ∙ ap₂ between (rw (t', u') (clipped-ge (part k).end _ (omega (arith, last, past)))) (
                rw (t', u')
                  (clipped-ge (part k).end _
                    (omega (arith, last, past, cut-le 1 1 (ntasks - 1) 1)))),
      )
