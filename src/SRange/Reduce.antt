-- ===== src/SRange/Reduce.antt =====
-- A parallel loop with a reduction returns what the sequential loop returns.
use dparallel_recursion.Common.{
  ℕ, zero, suc, ◌+◌, ◌-◌, ◌≤◌, ◌<◌, ◌≡◌, ap, ap₂, ◌∙◌, arith, Bool-cases, inl, inr, Option, some,
}
use dparallel_recursion.Common.Reduction.{IsReduction, sum_below, sum_below-cong, identity_left}
use dparallel_recursion.Skeleton.{Info, Body, Config}
use dparallel_recursion.Skeleton.Tree.{IsRanked, value, value-base, value-node}
use dparallel_recursion.Serial.{do_it_serial}
use dparallel_recursion.Serial.Total.{SerialFuncAgrees, do_it_serial-value}
use dparallel_recursion.StealStack.{StealStack}
use dparallel_recursion.Threads.{System, Reach, finished, joined}
use dparallel_recursion.Threads.Balance.{joined-value}
use dparallel_recursion.SRange.{
  SRange, srange, child, is_base, srange_info, generic_psr_for_reduce_body, psr_tmp_func,
}
use dparallel_recursion.SRange.Split.{
  IsValid, child-bounds, bound, bound-le, bound-zero, bound-all, child-shorter, srange-IsValid,
  child-IsPartition, start_of, end_of,
}
use dparallel_recursion.SRange.Loop.{iterations, iterations-sum, psr_tmp_func-iterations}

module _ {κ} {R : Type κ} (reducer : R → R → R) (unit : R) (law : IsReduction reducer unit)
    (fn : ℕ → R) (dchunk : ℕ) (two : 2 ≤ dchunk) (limit : Option ℕ) where
  abbrev pub loop_info : Info SRange R
  loop_info = srange_info dchunk limit

  abbrev pub loop_body : Body SRange R
  loop_body = generic_psr_for_reduce_body (psr_tmp_func reducer fn unit) reducer unit

  abbrev pub loop-IsRanked : IsRanked loop_info loop_body
  loop-IsRanked = record {
    rank = λ sr. sr.range_len;
    child-lt = λ sr i inner lt. child-shorter dchunk i sr two inner;
  }

  -- The tree of subranges has no `do_serial_func`.
  pub loop-SerialFuncAgrees : SerialFuncAgrees loop_info loop_body unit law loop-IsRanked
  loop-SerialFuncAgrees g d r e = cc

  abbrev run : ℕ → ℕ → R
  run = iterations reducer unit law fn

  value-iterations-below :
      (m : ℕ) (sr : SRange)
      → sr.range_len < m
      → IsValid sr
      → value loop_info loop_body unit loop-IsRanked sr
        ≡ iterations reducer unit law fn sr.start sr.end
  unfolding srange
  value-iterations-below zero sr lt w = absurd (omega arith)
  value-iterations-below (suc m) sr lt w = elim (Bool-cases (is_base dchunk sr)) [
    | inl e ↦
        value-base loop_info loop_body unit loop-IsRanked sr e
        ∙ psr_tmp_func-iterations reducer unit law fn sr.start sr.end
    | inr e ↦
        value-node loop_info loop_body unit loop-IsRanked sr e
        ∙ identity_left reducer unit law _
        ∙ sum_below-cong reducer unit _ _ dchunk (λ i lt'.
          value-iterations-below m (child dchunk i sr)
            (let smaller = child-shorter dchunk i sr two e in omega arith)
            ((child-IsPartition dchunk sr (omega arith) w).valid i)
          ∙ ap₂ run (ap start_of (child-bounds dchunk i sr)) (ap end_of (child-bounds dchunk i sr)))
        ∙ iterations-sum reducer unit law fn (bound dchunk sr) (λ i. bound-le dchunk i sr) dchunk
        ∙ ap₂ run (bound-zero dchunk sr) (bound-all dchunk sr (omega arith) w)
  ]

  -- The tree of a well-formed range means the reduction over its iterations.
  pub value-iterations :
      (sr : SRange)
      → IsValid sr
      → value loop_info loop_body unit loop-IsRanked sr ≡ run sr.start sr.end
  value-iterations sr w = value-iterations-below (suc sr.range_len) sr (omega arith) w

  -- A loop with a reduction by a commutative monoid, divided in at least two children at each level:
  -- with fuel above the length of the range, the sequential recursion over its tree of subranges
  -- returns, and adds the reduction over all iterations to the accumulator.
  pub do_it_serial-loop :
      (config : Config) (f : ℕ) (r : R) (a b : ℕ)
      → a ≤ b
      → b - a < f
      → do_it_serial loop_info loop_body config f r (srange a b)
        ≡ some (reducer r (sum_below reducer unit (λ i. fn (a + i)) (b - a)))
  unfolding srange iterations
  do_it_serial-loop config f r a b le lt =
      do_it_serial-value loop_info loop_body unit law loop-IsRanked loop-SerialFuncAgrees config f r
        (srange a b) lt
      ∙ ap (λ x. some (reducer r x)) (value-iterations (srange a b) (srange-IsValid a b le))

  -- A loop with a reduction by a commutative monoid, divided in at least two children at each level,
  -- on at least one thread with chunks of at least one element: in any interleaving, when all
  -- threads have returned, `run` returns the reduction over all iterations.
  pub joined-loop :
      (config : Config) (fresh : SRange) (n k a b : ℕ) {raw : ℕ → StealStack SRange} {size : ℕ}
      {s : System SRange R}
      → 0 < n
      → 0 < k
      → a ≤ b
      → Reach config loop_info loop_body unit fresh (srange a b) n k raw size s
      → ((i : ℕ) → i < n → s.pc i ≡ finished)
      → joined config loop_info loop_body unit fresh (srange a b) n k s
        ≡ sum_below reducer unit (λ i. fn (a + i)) (b - a)
  unfolding srange iterations
  joined-loop config fresh n k a b lt pos le reached over =
      joined-value config loop_info loop_body unit fresh (srange a b) n k pos law loop-IsRanked
        loop-SerialFuncAgrees lt reached over
      ∙ value-iterations (srange a b) (srange-IsValid a b le)
