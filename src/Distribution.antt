-- ===== src/Distribution.antt =====
-- include/dparallel_recursion/DInfo.h, struct Distribution: how many of the problems at a level of the tree
-- each process has. The arrays of nprocs_ entries are functions, read below `nprocs`.
pub mod Blocks
pub mod Deepen
pub mod Partners
pub mod Moves
pub mod Costs
use dparallel_recursion.Common.{
  ℕ, zero, suc, ◌+◌, ◌-◌, ◌*◌, ◌/◌, ◌%◌, Bool, true, false, not, ◌||◌, ◌&&◌, Option, none, some,
  ◌>>=◌, ltb, leb, ◌==◌, if◌then◌else◌, update, max, min,
}

-- std::accumulate over `n` entries from `lo` on
unfoldable pub accumulate : (ℕ → ℕ) → ℕ → ℕ → ℕ
accumulate f lo zero = 0
accumulate f lo (suc n) = f lo + accumulate f (lo + 1) n

-- std::minmax_element over the entries below `n + 1`
unfoldable pub smallest : (ℕ → ℕ) → ℕ → ℕ
smallest f zero = f 0
smallest f (suc n) = min (smallest f n) (f (suc n))

unfoldable pub largest : (ℕ → ℕ) → ℕ → ℕ
largest f zero = f 0
largest f (suc n) = max (largest f n) (f (suc n))

-- `use_cost` and `balance` are the flags UseCost and Balance; prevPeriod_ is left to the clock.
pub record Distribution : Type 0 where
  pub rank : ℕ
  pub nprocs : ℕ
  pub nglobal_elems : ℕ
  pub elems_per_rank : ℕ → ℕ
  pub next_elems_per_rank : ℕ → ℕ
  pub max_elems_per_rank : ℕ
  pub use_cost : Bool
  pub balance : Bool
  pub is_balanced : Bool

-- nLocalElems(rank, false)
unfoldable pub n_local_elems : Distribution → ℕ → ℕ
n_local_elems d rank =
    d.nglobal_elems / d.nprocs + (if ltb rank (d.nglobal_elems % d.nprocs) then 1 else 0)

unfoldable pub first_global_elem : Distribution → ℕ → ℕ
unfolding accumulate
first_global_elem d rank =
    if d.use_cost
    then accumulate d.elems_per_rank 0 rank
    else (if leb (d.nglobal_elems % d.nprocs) rank
        then d.nglobal_elems / d.nprocs * rank + d.nglobal_elems % d.nprocs
        else d.nglobal_elems / d.nprocs * rank + rank)

unfoldable pub redistribute_on_elems : Distribution → Distribution
unfolding n_local_elems
redistribute_on_elems d = record d { elems_per_rank = n_local_elems d }

-- The new state, and the number of elements of this process.
unfoldable pub set_nglobal_elems : Distribution → ℕ → Distribution × ℕ
unfolding redistribute_on_elems
set_nglobal_elems d value =
    let e = record d { nglobal_elems = value } in
    let e' = if d.elems_per_rank 0 == 0 then redistribute_on_elems e else e in
    (e', e'.elems_per_rank e'.rank)

-- init: a first entry of 0 tells that the distribution is not balanced yet.
unfoldable pub distribution_init : Distribution → ℕ → ℕ → Bool → Bool → Distribution
distribution_init d rank nprocs use_cost balance = record d {
  rank = rank;
  nprocs = nprocs;
  use_cost = use_cost;
  balance = balance;
  is_balanced = nprocs == 1;
  elems_per_rank = update d.elems_per_rank 0 0;
}

-- All data in process 0.
unfoldable pub init_distr : Distribution → ℕ → ℕ → Bool → Bool → Distribution
unfolding distribution_init set_nglobal_elems
init_distr d rank nprocs use_cost balance =
    (set_nglobal_elems
      (record (distribution_init d rank nprocs use_cost balance) {
        elems_per_rank = update (λ i. 0) 0 1;
      })
      1).0

-- heuristicRebalanceMustStop: `slow` is the answer of the clock.
unfoldable pub heuristic_rebalance_must_stop : Distribution → Bool → Bool
heuristic_rebalance_must_stop d slow = leb (d.max_elems_per_rank * d.nprocs) d.nglobal_elems || slow

-- computeBalanceOnElems: `within most least` tells whether the imbalance (most - least) / least of
-- floating-point numbers is allowed, and `lenient` whether 1e3 is.
unfoldable pub compute_balance_on_elems : (ℕ → ℕ → Bool) → Bool → Bool → Distribution → Distribution
unfolding heuristic_rebalance_must_stop smallest largest
compute_balance_on_elems within lenient slow d =
    let least = smallest d.elems_per_rank (d.nprocs - 1) in
    let most = largest d.elems_per_rank (d.nprocs - 1) in
    let allowed = if least == 0 then lenient else within most least in
    record d { is_balanced = allowed || heuristic_rebalance_must_stop d slow }

-- redistribute, at a level of `size` problems, without costs
unfoldable pub redistribute : (ℕ → ℕ → Bool) → Bool → Bool → Distribution → ℕ → Distribution × Bool
unfolding redistribute_on_elems compute_balance_on_elems
redistribute within lenient slow d size =
    let e = record d { nglobal_elems = size } in
    let few : Distribution × Bool = (e, e.is_balanced) in
    let at_once : Distribution × Bool = (record e { is_balanced = true }, true) in
    let balanced = compute_balance_on_elems within lenient slow (redistribute_on_elems e) in
    if d.is_balanced
    then (d, true)
    else (if ltb size d.nprocs
        then few
        else (if e.balance then (balanced, balanced.is_balanced) else at_once))

-- progress_DMdistr: each problem has been divided into `nchildren`, and none has moved yet.
unfoldable pub progress_dm_distr : ℕ → Distribution → Distribution × ℕ
unfolding set_nglobal_elems n_local_elems
progress_dm_distr nchildren d =
    let e = (set_nglobal_elems d (d.nglobal_elems * nchildren)).0 in
    let e' = record e {
      elems_per_rank = λ i. e.elems_per_rank i * nchildren;
      next_elems_per_rank = n_local_elems e;
    } in
    (e', e'.next_elems_per_rank e'.rank)

unfoldable pub commit_progress_dm_distr : (ℕ → ℕ → Bool) → Bool → Bool → Distribution → Distribution
unfolding compute_balance_on_elems
commit_progress_dm_distr within lenient slow d =
    let e = record d { elems_per_rank = d.next_elems_per_rank } in
    let balanced = compute_balance_on_elems within lenient slow e in
    if ltb e.nglobal_elems e.nprocs
    then e
    else (if e.balance then balanced else record e { is_balanced = true })

-- progress_DMred: the results move to where their problem was divided.
unfoldable pub progress_dm_red : ℕ → Distribution → Distribution × ℕ
unfolding set_nglobal_elems n_local_elems
progress_dm_red nchildren d =
    let e = (set_nglobal_elems d (d.nglobal_elems / nchildren)).0 in
    let e' = record e {
      next_elems_per_rank = e.elems_per_rank;
      elems_per_rank = λ i. n_local_elems e i * nchildren;
    } in
    (e', e'.elems_per_rank e'.rank)

unfoldable pub commit_progress_dm_red : ℕ → Distribution → Distribution
commit_progress_dm_red nchildren d = record d {
  elems_per_rank = λ i. d.elems_per_rank i / nchildren;
}

-- Whether this process has what it needs after `nreceives`, or sent what it had to after `nsends`; the
-- difference of `int`s is written as a sum on the other side.
unfoldable pub finished_receives : Distribution → ℕ → ℕ → Bool
finished_receives d rank nreceives =
    leb (d.next_elems_per_rank rank) (d.elems_per_rank rank + nreceives)

unfoldable pub finished_sends : Distribution → ℕ → ℕ → Bool
finished_sends d rank nsends = leb (d.elems_per_rank rank) (d.next_elems_per_rank rank + nsends)

-- The first rank from `i` on that lacks elements, within `fuel` ranks.
unfoldable pub skip_senders : ℕ → Distribution → ℕ → Option ℕ
skip_senders zero d i = none
skip_senders (suc fuel) d i =
    let rest = skip_senders fuel d (i + 1) in
    if leb (d.next_elems_per_rank i) (d.elems_per_rank i) then rest else some i

-- From rank `i` on, where `left` elements go to, or come from, before those of this rank: the rank that
-- is the first to have some left, and how many of its own went before.
unfoldable pub skip_partners : ℕ → (ℕ → ℕ) → ℕ → ℕ → Option (ℕ × ℕ)
skip_partners zero amount left i = none
skip_partners (suc fuel) amount left i =
    let rest = skip_partners fuel amount (left - amount i) (i + 1) in
    if leb (amount i) left then rest else some (i, left)

-- What a rank sends, and what it receives, where that is not negative.
abbrev pub excess : Distribution → ℕ → ℕ
excess d i = d.elems_per_rank i - d.next_elems_per_rank i

abbrev pub lack : Distribution → ℕ → ℕ
lack d i = d.next_elems_per_rank i - d.elems_per_rank i

-- The destination, and previous_excess; the loops end within `fuel` ranks each.
unfoldable pub destination_first_external_problem : ℕ → Distribution → Option (ℕ × ℕ)
unfolding skip_senders skip_partners accumulate
destination_first_external_problem fuel d = skip_senders fuel d (d.rank + 1) >>= λ i.
    skip_partners fuel (lack d) (accumulate (excess d) 0 d.rank) i

-- The source, and previously_sent.
unfoldable pub source_first_external_problem : ℕ → Distribution → Option (ℕ × ℕ)
unfolding skip_senders skip_partners accumulate
source_first_external_problem fuel d = skip_senders fuel d 0 >>= λ i.
    skip_partners fuel (excess d) (accumulate (lack d) i (d.rank - i)) 0
