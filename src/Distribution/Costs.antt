-- ===== src/Distribution/Costs.antt =====
-- include/dparallel_recursion/DInfo.h, redistribute with UseCost: the first distribution by costs, one problem
-- after the other. Costs are floating-point numbers, of which nothing is assumed.
pub mod Greedy
use dparallel_recursion.Common.{
  ℕ, zero, suc, ◌+◌, ◌-◌, ◌≤◌, ◌<◌, ◌≡◌, ◌≢◌, refl, sym, ap, ◌∙◌, Bool, true, false, not, ◌&&◌, ltb,
  ltb→lt, lt→ltb, ◌==◌, ==_iff, if◌then◌else◌, List, [], ◌∷◌, length, update, arith, Bool-cases,
  inl, inr, ℕ_discrete, dec_lt,
}

-- `over` divides by an int, and `inverse` is one divided by it.
pub record Float {ℓ} (F : Type ℓ) : Type ℓ where
  pub nought : F
  pub plus : F → F → F
  pub over : F → ℕ → F
  pub inverse : ℕ → F
  pub least : F → F → F
  pub gt : F → F → Bool

pub record CostShares {ℓ} (F : Type ℓ) : Type ℓ where
  pub cur_proc : ℕ
  pub elems_per_rank : ℕ → ℕ
  pub process_costs : ℕ → F

module _ {ℓ} {F : Type ℓ} (float : Float F) where
  unfoldable pub sum_costs : F → List F → F
  sum_costs acc [] = acc
  sum_costs acc (c ∷ cs) = sum_costs (float.plus acc c) cs

  -- The average cost of a process, and some more.
  unfoldable pub upper_limit : F → ℕ → List F → F
  unfolding sum_costs
  upper_limit half_imbalance nprocs costs =
      float.plus (float.over (sum_costs float.nought costs) nprocs)
        (float.least (float.inverse (length costs)) half_imbalance)

  module _ (limit : F) (nprocs : ℕ) where
    -- Whether the process has a problem, and another would be too much, and it is not the last.
    unfoldable pub is_full : CostShares F → F → Bool
    is_full s c =
        not (s.elems_per_rank s.cur_proc == 0)
        && (float.gt (float.plus (s.process_costs s.cur_proc) c) limit
            && ltb s.cur_proc (nprocs - 1))

    unfoldable pub give_elem : CostShares F → F → CostShares F
    unfolding is_full
    give_elem s c =
        let p = if is_full s c then s.cur_proc + 1 else s.cur_proc in
        record {
          cur_proc = p;
          elems_per_rank = update s.elems_per_rank p (s.elems_per_rank p + 1);
          process_costs = update s.process_costs p (float.plus (s.process_costs p) c);
        }

    unfoldable pub give_elems : CostShares F → List F → CostShares F
    unfolding give_elem
    give_elems s [] = s
    give_elems s (c ∷ cs) = give_elems (give_elem s c) cs

  unfoldable pub redistribute_on_costs : F → ℕ → List F → CostShares F
  unfolding give_elems upper_limit
  redistribute_on_costs half_imbalance nprocs costs =
      give_elems (upper_limit half_imbalance nprocs costs) nprocs
        (record { cur_proc = 0; elems_per_rank = λ i. 0; process_costs = λ i. float.nought }) costs
