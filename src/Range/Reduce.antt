-- ===== src/Range/Reduce.antt =====
-- A loop with a reduction over a range that is divided into tasks returns what the loop returns.
use dparallel_recursion.Common.{
  ℕ, zero, suc, ◌+◌, ◌-◌, ◌/◌, ◌%◌, ◌≤◌, ◌<◌, ◌≡◌, refl, sym, ap, ap₂, ◌∙◌, arith, ltb, leb, ◌==◌,
  lt→ltb, dec_lt, if◌then◌else◌, true, false, Bool-cases, inl, inr, some, segment, ◌>>=◌,
}
use dparallel_recursion.Common.Reduction.{IsReduction, sum_below, identity_left}
use dparallel_recursion.ArrayRecursion.{ArrayInfo, ArrayBody, array_node, array_serial}
use dparallel_recursion.ArrayRecursion.Total.{results_from-all}
use dparallel_recursion.SRange.{psr_tmp_func}
use dparallel_recursion.SRange.Cut.{cut, cut-suc}
use dparallel_recursion.SRange.Loop.{iterations, iterations-sum, psr_tmp_func-iterations}
use dparallel_recursion.Range.{
  Range, exclusive_size, exclusive_max_chunk, exclusive_range_info, array_info, reduce_results,
  post_results, generic_pr_for_reduce_body,
}
use dparallel_recursion.Range.Split.{bound, bound-all, bound-le, task, task-bounds, bound-zero}

le→leb : (a b : ℕ) → a ≤ b → leb a b ≡ true
le→leb a b le = ground arith

step-size :
    (q m i a c c' : ℕ)
    → c' ≡ c + (if ltb i m then q + 1 else q)
    → a + c' - (a + c) ≤ q + (if m == 0 then 0 else 1)
step-size q m i a c c' e = elim (dec_lt i m) [
  | yes lt ↦
      let some_left : (m == 0) ≡ false = ground arith in
      let grown = e ∙ ap (λ b. c + (if b then q + 1 else q)) (lt→ltb i m lt) in
      rw some_left (omega (arith, grown))
  | no ge ↦ ground arith
]

module _ {κ} {R : Type κ} (reducer : R → R → R) (unit : R) (law : IsReduction reducer unit)
    (fn : ℕ → R) (n : ℕ) (pos : 0 < n) (range : Range) (ordered : range.start ≤ range.end) where
  abbrev pub tasks_info : ArrayInfo Range
  tasks_info = array_info (exclusive_range_info range n)

  abbrev pub tasks_body : ArrayBody Range R
  tasks_body = generic_pr_for_reduce_body (psr_tmp_func reducer fn unit) reducer unit

  abbrev run : ℕ → ℕ → R
  run = iterations reducer unit law fn

  reduce_results-sum :
      (v : ℕ → R) (m i : ℕ)
      → reduce_results reducer (sum_below reducer unit v i) m (segment v i m)
        ≡ sum_below reducer unit v (i + m)
  unfolding reduce_results segment sum_below
  reduce_results-sum v zero i = let e : i + 0 ≡ i = omega arith in rw e refl
  reduce_results-sum v (suc m) i =
      let e : i + suc m ≡ suc i + m = omega arith in
      let e' : i + 1 ≡ suc i = omega arith in rw (e, e') (reduce_results-sum v m (suc i))

  -- `post` over the results of `m` tasks, at least one, is their reduction.
  post_results-sum :
      (v : ℕ → R) (m : ℕ) (r : Range)
      → r.nchildren ≡ suc m
      → post_results reducer unit r (segment v 0 (suc m)) ≡ sum_below reducer unit v (suc m)
  unfolding post_results segment sum_below
  post_results-sum v m r e =
      let one_less : r.nchildren - 1 ≡ m = omega arith in
      let first : 0 + 1 ≡ 1 = omega arith in
      rw (one_less, first)
        (ap (λ x. reduce_results reducer x m (segment v 1 m))
            (sym (identity_left reducer unit law (v 0)))
          ∙ reduce_results-sum v m 1
          ∙ ap (sum_below reducer unit v) (let e' : 1 + m ≡ suc m = omega arith in e'))

  abbrev counted : Range
  counted = record range { nchildren = n }

  base-run :
      (f a b : ℕ)
      → b - a ≤ (exclusive_range_info range n).base_size
      → array_serial tasks_info tasks_body (suc f) (record { start = a; end = b; nchildren = 0 })
        ≡ some (run a b)
  unfolding array_serial array_node exclusive_size
  base-run f a b small =
      rw (le→leb (b - a) (exclusive_range_info range n).base_size small)
        (ap some (psr_tmp_func-iterations reducer unit law fn a b))

  -- Each task is a base case, and runs its stretch of the iterations.
  task-run :
      (f i : ℕ)
      → i < n
      → array_serial tasks_info tasks_body (suc f) (task n i counted)
        ≡ some (run (bound n counted i) (bound n counted (i + 1)))
  unfolding exclusive_range_info exclusive_max_chunk exclusive_size
  task-run f i lt =
      let q = (range.end - range.start) / n in
      let m = (range.end - range.start) % n in
      ap (array_serial tasks_info tasks_body (suc f)) (task-bounds n i counted lt ordered)
      ∙ base-run f (bound n counted i) (bound n counted (i + 1))
          (step-size q m i range.start (cut q m i) (cut q m (i + 1)) (cut-suc q m i))

  all_tasks :
      post_results reducer unit counted
        (segment (λ i. run (bound n counted i) (bound n counted (i + 1))) 0 n)
      ≡ run range.start range.end
  all_tasks =
      let e : n ≡ suc (n - 1) = omega arith in
      ap
        (λ m.
          post_results reducer unit counted
            (segment (λ i. run (bound n counted i) (bound n counted (i + 1))) 0 m))
        e
      ∙ post_results-sum (λ i. run (bound n counted i) (bound n counted (i + 1))) (n - 1) counted e
      ∙ ap (sum_below reducer unit (λ i. run (bound n counted i) (bound n counted (i + 1)))) (sym e)
      ∙ iterations-sum reducer unit law fn (bound n counted) (λ i. bound-le n i counted) n
      ∙ ap₂ run (bound-zero n counted) (bound-all n counted pos ordered)

  -- A loop with a reduction by a commutative monoid, over a range that starts at or before its end
  -- and is divided into at least one task: with fuel for two levels, or more, the sequential
  -- recursion returns, with the reduction over all iterations.
  pub pfor_reduce-iterations :
      (f : ℕ)
      → array_serial tasks_info tasks_body (suc (suc f)) range
        ≡ some (sum_below reducer unit (λ i. fn (range.start + i)) (range.end - range.start))
  unfolding array_serial array_node iterations exclusive_range_info
  pfor_reduce-iterations f = elim (Bool-cases (tasks_info.is_base range)) [
    | inl e ↦ rw e (ap some (psr_tmp_func-iterations reducer unit law fn range.start range.end))
    | inr e ↦ rw e (
        ap (λ o. o >>= (λ rs. some (post_results reducer unit counted rs)))
          (results_from-all (array_serial tasks_info tasks_body (suc f)) (λ i. task n i counted)
            (λ i. run (bound n counted i) (bound n counted (i + 1))) n 0
            (λ k lt. task-run f k (omega arith)))
        ∙ ap some all_tasks)
  ]
