-- ===== src/Tests/Distributed.antt =====
-- The theorems on the distributed skeleton at the Fibonacci recursion, on two processes, and at a level of
-- four problems that eight processes share.
use dparallel_recursion.Common.{
  none, ℕ, zero, suc, ◌+◌, ◌-◌, ◌/◌, ◌%◌, ◌≤◌, ◌<◌, ◌≡◌, refl, arith, Bool, true, false, some, ltb,
  leb, if◌then◌else◌, List, [], ◌∷◌, length, segment,
}
use dparallel_recursion.ArrayRecursion.{
  ArrayInfo, ArrayBody, results_from, array_node, array_serial,
}
use dparallel_recursion.Distribution.{
  Distribution, accumulate, n_local_elems, first_global_elem, set_nglobal_elems, redistribute,
  progress_dm_distr, progress_dm_red, commit_progress_dm_red, excess, lack,
  destination_first_external_problem, source_first_external_problem, skip_senders, skip_partners,
}
use dparallel_recursion.Distribution.Blocks.{set_nglobal_elems-blocks}
use dparallel_recursion.Distribution.Deepen.{IsEven, deepened, progress_dm_red-deepened}
use dparallel_recursion.Distribution.Partners.{
  IsSplit, destination_first_external_problem-found, source_first_external_problem-found,
}
use dparallel_recursion.Distribution.Moves.{progress_dm_distr-IsSplit}
use dparallel_recursion.DistributedTree.{
  Tree, pre_parallel, decompose, next_entry, next_part, next_parts, next_level_size, reduction,
  create_levels, create_tree,
}
use dparallel_recursion.DistributedTree.Repeatable.{IsRepeatable, results_of}
use dparallel_recursion.DistributedTree.Whole.{reduction-array_serial}
use dparallel_recursion.DistributedTree.Depth.{HasChildren, create_tree-some}
use dparallel_recursion.DistributedRun.{
  run_step, tagged, run_writes, receive, collect, Arrives, local_results, send_results, reduce,
}
use dparallel_recursion.Distribution.Costs.{Float, upper_limit, redistribute_on_costs}
use dparallel_recursion.Distribution.Costs.Greedy.{redistribute_on_costs-shares}
use dparallel_recursion.DistributedRun.Local.{run-collect}
use dparallel_recursion.DistributedRun.Whole.{IsUnshared, reduce-create_tree}

abbrev earlier : ℕ → ℕ → ℕ
earlier zero d = d - 1
earlier (suc i) d = d - 2

abbrev pairs : ArrayInfo ℕ
pairs = record { is_base = λ d. ltb d 2; num_children = λ d. (d, 2); child = earlier }

abbrev total : List ℕ → ℕ
total [] = 0
total (x ∷ xs) = x + total xs

abbrev adding : ArrayBody ℕ ℕ
adding = record { pre = λ d. d; pre_rec = λ d. d; base = λ d. d; post = λ d rs. total rs }

pairs-IsRepeatable : IsRepeatable pairs adding
pairs-IsRepeatable = record {
  num_children_same = λ d. refl;
  pre_again = λ d. refl;
  pre_after_rec = λ d. refl;
  pre_rec_again = λ d. refl;
  is_base_same = λ d. refl;
}

pairs-HasChildren : HasChildren pairs adding
pairs-HasChildren = record { some_child = λ d node. omega arith }

-- Two processes, not shared out yet.
abbrev fresh : ℕ → Distribution
fresh nprocs = record {
  rank = 0;
  nprocs = nprocs;
  nglobal_elems = 0;
  elems_per_rank = λ i. 0;
  next_elems_per_rank = λ i. 0;
  max_elems_per_rank = 50;
  use_cost = false;
  balance = false;
  is_balanced = false;
}

abbrev ask : Distribution → List ℕ → Distribution × Bool
ask d ds = redistribute (λ most least. leb most (least + 1)) false false d (length ds)

-- Three processes want three problems: the root 4 becomes 3 and 2, then 2, 1, 1 and 0.
abbrev fib_tree : Tree ℕ
fib_tree = record {
  root = 4;
  decomposed = true;
  above = (some 3 ∷ some 2 ∷ []) ∷ [];
  last = 2 ∷ 1 ∷ 1 ∷ 0 ∷ [];
}

serial_4 : array_serial pairs adding 5 4 ≡ some 3
unfolding array_serial array_node results_from
serial_4 = refl

built_4 :
    create_tree pairs adding ask 5 (fresh 3) 4
    ≡ some (record (fresh 3) { nglobal_elems = 4; is_balanced = true }, fib_tree)
unfolding create_tree create_levels decompose next_parts next_part next_entry next_level_size
    pre_parallel redistribute segment
built_4 = refl

abbrev shared_4 : Distribution
shared_4 = (set_nglobal_elems (fresh 3) 4).0

set_nglobal_elems-blocks_example :
    ((rank : ℕ) → first_global_elem shared_4 rank ≡ accumulate shared_4.elems_per_rank 0 rank)
    × (accumulate shared_4.elems_per_rank 0 3 ≡ 4)
    × ((rank : ℕ)
        → (4 / 3 ≤ shared_4.elems_per_rank rank) × (shared_4.elems_per_rank rank ≤ 4 / 3 + 1))
set_nglobal_elems-blocks_example = set_nglobal_elems-blocks (fresh 3) 4 (omega arith) refl

reduction-array_serial_example :
    (rs : List ℕ) × (results_of (array_serial pairs adding 5) fib_tree.last ≡ some rs)
    × (reduction pairs adding fib_tree rs ≡ some 3)
reduction-array_serial_example =
    reduction-array_serial pairs adding pairs-IsRepeatable ask 5 5 (fresh 3) _ 4 fib_tree 3 serial_4
      built_4

create_tree-some_example :
    (p : Distribution × Tree ℕ) × (create_tree pairs adding ask 5 (fresh 3) 4 ≡ some p)
create_tree-some_example =
    create_tree-some pairs adding pairs-IsRepeatable ask pairs-HasChildren 5 5 (fresh 3) 4 3
      (omega arith) serial_4

-- Of a root with no children, no tree is made.
abbrev barren : ArrayInfo ℕ
barren = record { is_base = λ d. false; num_children = λ d. (d, 0); child = earlier }

no_tree : create_tree barren adding ask 5 (fresh 3) 4 ≡ none
unfolding create_tree create_levels decompose redistribute segment
no_tree = refl

-- A level of three problems on four processes, the rank that sends or receives, and each divided in two.
abbrev level_3 : ℕ → Distribution
level_3 rank = record {
  rank = rank;
  nprocs = 4;
  nglobal_elems = 3;
  elems_per_rank = λ i. 3 / 4 + (if ltb i (3 % 4) then 1 else 0);
  next_elems_per_rank = λ i. 0;
  max_elems_per_rank = 50;
  use_cost = false;
  balance = false;
  is_balanced = false;
}

level_3-IsEven : (rank : ℕ) → IsEven (level_3 rank)
unfolding n_local_elems
level_3-IsEven rank = record { positive = omega arith; some_elems = omega arith; share = λ i. refl }

progress_dm_red-deepened_example :
    ((progress_dm_red 2 (deepened (λ most least. true) false false 2 (level_3 0))).0.elems_per_rank
        1
      ≡ (progress_dm_distr 2 (level_3 0)).0.elems_per_rank 1)
    × ((progress_dm_red 2
            (deepened (λ most least. true) false false 2 (level_3 0))).0.next_elems_per_rank
          1
        ≡ (progress_dm_distr 2 (level_3 0)).0.next_elems_per_rank 1)
    × ((commit_progress_dm_red 2
            (progress_dm_red 2
              (deepened (λ most least. true) false false 2 (level_3 0))).0).elems_per_rank
          1
        ≡ (level_3 0).elems_per_rank 1)
    × ((commit_progress_dm_red 2
          (progress_dm_red 2
            (deepened (λ most least. true) false false 2 (level_3 0))).0).nglobal_elems
        ≡ 3)
progress_dm_red-deepened_example =
    progress_dm_red-deepened (λ most least. true) false false 2 (level_3 0) (level_3-IsEven 0)
      (omega arith) 1

progress_dm_distr-IsSplit_example :
    (m : ℕ) × (m ≤ 4) × IsSplit (3 % 4) m (progress_dm_distr 2 (level_3 0)).0
progress_dm_distr-IsSplit_example =
    progress_dm_distr-IsSplit 2 (level_3 0) (level_3-IsEven 0) (omega arith)

-- The level of a process that has `rank` when two processes have too much, and two lack some.
abbrev uneven : ℕ → Distribution
uneven rank = record (level_3 rank) {
  elems_per_rank = λ i. if ltb i 2 then 3 else 0;
  next_elems_per_rank = λ i. if ltb i 2 then 2 else 1;
}

uneven-IsSplit : (rank : ℕ) → IsSplit 2 4 (uneven rank)
unfolding accumulate
uneven-IsSplit rank = record {
  senders = λ i lt. ground arith;
  receivers = λ i ge lt. ground arith;
  same_total = refl;
}

destination_first_external_problem-found_example :
    (i : ℕ) × (before : ℕ) × (destination_first_external_problem 4 (uneven 1) ≡ some (i, before))
    × (2 ≤ i)
    × (i < 4)
    × (before < lack (uneven 1) i)
    × (accumulate (lack (uneven 1)) 2 (i - 2) + before ≡ accumulate (excess (uneven 1)) 0 1)
destination_first_external_problem-found_example =
    destination_first_external_problem-found 2 4 (uneven 1) (uneven-IsSplit 1) 4 (omega arith)
      (omega arith) (omega arith)

source_first_external_problem-found_example :
    (i : ℕ) × (before : ℕ) × (source_first_external_problem 4 (uneven 3) ≡ some (i, before))
    × (i < 2)
    × (before < excess (uneven 3) i)
    × (accumulate (excess (uneven 3)) 0 i + before ≡ accumulate (lack (uneven 3)) 2 (3 - 2))
source_first_external_problem-found_example =
    source_first_external_problem-found 2 4 (uneven 3) (uneven-IsSplit 3) 4 (omega arith)
      (omega arith) (omega arith)

-- The second sender's problem goes to the second receiver.
destination_runs : destination_first_external_problem 4 (uneven 1) ≡ some (3, 0)
unfolding destination_first_external_problem skip_senders skip_partners accumulate
destination_runs = refl

-- Two tasks compute a block of four problems.
run-collect_example :
    (run_writes
        (array_serial pairs adding 5)
        (length fib_tree.last + 1)
        fib_tree.last
        (run_step 2 (length fib_tree.last))
        0
      ≡ some (tagged 0 (1 ∷ 1 ∷ 1 ∷ 0 ∷ [])))
    × ((order : List (ℕ × ℕ))
        → Arrives (tagged 0 (1 ∷ 1 ∷ 1 ∷ 0 ∷ [])) order
        → collect (receive (λ k. none) order) 0 (length fib_tree.last) ≡ some (1 ∷ 1 ∷ 1 ∷ 0 ∷ []))
unfolding results_of array_serial array_node results_from
run-collect_example =
    run-collect (array_serial pairs adding 5) fib_tree.last (1 ∷ 1 ∷ 1 ∷ 0 ∷ []) 2 (omega arith)
      refl

-- Costs that are whole numbers; the limit is the average and one more.
abbrev whole : Float ℕ
whole = record {
  nought = 0;
  plus = λ x y. x + y;
  over = λ x n. x / n;
  inverse = λ n. 1 / n;
  least = λ x y. if ltb y x then y else x;
  gt = λ x y. ltb y x;
}

redistribute_on_costs-shares_example :
    (accumulate (redistribute_on_costs whole 1 3 (4 ∷ 4 ∷ 1 ∷ 3 ∷ [])).elems_per_rank 0 3 ≡ 4)
    × ((p q : ℕ)
        → p < q
        → 0 < (redistribute_on_costs whole 1 3 (4 ∷ 4 ∷ 1 ∷ 3 ∷ [])).elems_per_rank q
        → 0 < (redistribute_on_costs whole 1 3 (4 ∷ 4 ∷ 1 ∷ 3 ∷ [])).elems_per_rank p)
    × ((p : ℕ)
        → p + 1 < 3
        → 2 ≤ (redistribute_on_costs whole 1 3 (4 ∷ 4 ∷ 1 ∷ 3 ∷ [])).elems_per_rank p
        → ltb
            (upper_limit whole 1 3 (4 ∷ 4 ∷ 1 ∷ 3 ∷ []))
            ((redistribute_on_costs whole 1 3 (4 ∷ 4 ∷ 1 ∷ 3 ∷ [])).process_costs p)
          ≡ false)
redistribute_on_costs-shares_example =
    redistribute_on_costs-shares whole 1 3 (4 ∷ 4 ∷ 1 ∷ 3 ∷ []) (omega arith)

fresh-IsUnshared : IsUnshared (fresh 3)
fresh-IsUnshared = record { some_procs = omega arith; not_shared = refl; no_balance = refl }

reduce-create_tree_example :
    (made : Distribution × Tree ℕ) × (own : List ℕ) × (sent : List (ℕ × ℕ)) × (create_tree pairs
        adding ask 5
        (fresh 3)
        4
      ≡ some made)
    × (local_results pairs adding 5 (set_nglobal_elems made.0 (length made.1.last)).0 made.1.last 0
        ≡ some own)
    × (send_results pairs adding 5
          (set_nglobal_elems made.0 (length made.1.last)).0
          made.1.last
          1
          ((set_nglobal_elems made.0 (length made.1.last)).0.nprocs - 1)
        ≡ some sent)
    × (length sent
        ≡ (set_nglobal_elems made.0 (length made.1.last)).0.nglobal_elems
          - (set_nglobal_elems made.0 (length made.1.last)).0.elems_per_rank 0)
    × ((arrived : List (ℕ × ℕ))
        → Arrives sent arrived
        → reduce pairs adding (set_nglobal_elems made.0 (length made.1.last)).0 made.1 own arrived
          ≡ some 3)
reduce-create_tree_example =
    reduce-create_tree (λ most least. leb most (least + 1)) false false pairs adding
      pairs-IsRepeatable pairs-HasChildren 5 5 (fresh 3) 4 3 fresh-IsUnshared (omega arith) serial_4
