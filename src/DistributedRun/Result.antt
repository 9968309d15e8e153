-- ===== src/DistributedRun/Result.antt =====
-- The distributed run and the sequential recursion have the same result.
use dparallel_recursion.Common.{
  ℕ, zero, suc, ◌+◌, ◌-◌, ◌≤◌, ◌<◌, ◌≡◌, refl, sym, ap, subst, ◌∙◌, Bool, true, false, ◌||◌, Option,
  none, some, >>=-eq-some, List, [], ◌∷◌, ◌++◌, length, length-append, arith, some_injective,
  dec_lt,
}
use dparallel_recursion.ArrayRecursion.{ArrayInfo, ArrayBody, array_serial}
use dparallel_recursion.Distribution.{Distribution, accumulate, first_global_elem}
use dparallel_recursion.Distribution.Blocks.{IsBlocks, accumulate-last}
use dparallel_recursion.DistributedTree.{Tree, reduction, create_tree}
use dparallel_recursion.DistributedTree.Repeatable.{IsRepeatable, results_of}
use dparallel_recursion.DistributedTree.Whole.{reduction-array_serial}
use dparallel_recursion.DistributedRun.{
  slice, tagged, receive, collect, Arrives, local_results, send_results, reduce,
}
use dparallel_recursion.DistributedRun.Gather.{
  has_tag, AllRight, AllRight-append, none_left, has_tag-append, receive-Arrives, collect-nth,
  Arrives-prefix, receive-append, length-slice, length-tagged, block-AllRight, has_tag-tagged,
}

module _ {ℓ κ} {T : Type ℓ} {R : Type κ} where
  slice-cons :
      (rec : T → Option R) (d : T) (ds : List T) (r : R) (ts : List R)
      → rec d ≡ some r
      → ((b n : ℕ) → results_of rec (slice b n ds) ≡ some (slice b n ts))
      → (b n : ℕ) → results_of rec (slice b n (d ∷ ds)) ≡ some (slice b n (r ∷ ts))
  unfolding results_of slice
  slice-cons rec d ds r ts first rest zero zero = refl
  slice-cons rec d ds r ts first rest zero (suc n) = rw (first, rest 0 n) refl
  slice-cons rec d ds r ts first rest (suc b) n = rest b n

  pub results_of-slice :
      (rec : T → Option R) (ds : List T) (rs : List R) (b n : ℕ)
      → results_of rec ds ≡ some rs
      → results_of rec (slice b n ds) ≡ some (slice b n rs)
  unfolding results_of slice
  results_of-slice rec [] rs b n e = let e' = some_injective [] rs e in rw (← e') refl
  results_of-slice rec (d ∷ ds) rs b n e =
      let (r, first, rest) = >>=-eq-some (rec d) _ e in
      let (ts, all, last) = >>=-eq-some (results_of rec ds) _ rest in
      subst (λ x. results_of rec (slice b n (d ∷ ds)) ≡ some (slice b n x))
        (some_injective (r ∷ ts) rs last)
        (slice-cons rec d ds r ts first (λ c k. results_of-slice rec ds ts c k all) b n)

  pub results_of-length :
      (rec : T → Option R) (ds : List T) (rs : List R)
      → results_of rec ds ≡ some rs
      → length rs ≡ length ds
  unfolding results_of
  results_of-length rec [] rs e = cc
  results_of-length rec (d ∷ ds) rs e =
      let (r, first, rest) = >>=-eq-some (rec d) _ e in
      let (ts, all, last) = >>=-eq-some (results_of rec ds) _ rest in
      let ih = results_of-length rec ds ts all in cc

pub false-true : false ≡ true → ⊥
false-true e = cc

pub or_true : (b : Bool) → (b || true) ≡ true
or_true true = refl
or_true false = refl

module _ {ℓ} {A : Type ℓ} (d : Distribution) (l : List A) (blocks : IsBlocks d (length l)) where
  open blocks use {first, whole}

  -- The messages of `n` processes from `rank` on, for the results `l` of all problems.
  blocks_from : ℕ → ℕ → List (ℕ × A)
  blocks_from rank zero = []
  blocks_from rank (suc n) =
      tagged (first_global_elem d rank) (slice (first_global_elem d rank) (d.elems_per_rank rank) l)
      ++ blocks_from (rank + 1) n

  first-suc :
      (rank : ℕ) → first_global_elem d (rank + 1) ≡ first_global_elem d rank + d.elems_per_rank rank
  first-suc rank =
      let e : rank + 1 ≡ suc rank = omega arith in
      let e' : 0 + rank ≡ rank = omega arith in
      let last = accumulate-last d.elems_per_rank 0 rank in
      omega (
        arith,
        first (rank + 1),
        first rank,
        ap (accumulate d.elems_per_rank 0) e,
        last,
        ap d.elems_per_rank e',
      )

  -- Up to the last process, the messages have the results of the places, one for each.
  blocks_from-AllRight :
      (rank n : ℕ)
      → rank + n ≡ d.nprocs
      → AllRight l (blocks_from rank n)
        × (length (blocks_from rank n) + first_global_elem d rank ≡ length l)
        × ((k : ℕ)
            → first_global_elem d rank ≤ k
            → k < length l
            → has_tag k (blocks_from rank n) ≡ true)
  unfolding blocks_from
  blocks_from-AllRight rank zero e =
      let e' : rank ≡ d.nprocs = omega (arith, e) in
      let all = first rank ∙ ap (accumulate d.elems_per_rank 0) e' ∙ whole in
      (none_left, omega (arith, all), λ k le lt. absurd (omega (arith, all, le, lt)))
  blocks_from-AllRight rank (suc n) e =
      let (right, count, tags) = blocks_from-AllRight (rank + 1) n (omega (arith, e)) in
      let b = first_global_elem d rank in
      let block = slice b (d.elems_per_rank rank) l in
      let next = first-suc rank in
      let fits : b + d.elems_per_rank rank ≤ length l = omega (arith, count, next) in
      let size = length-tagged b block ∙ length-slice l b (d.elems_per_rank rank) fits in
      (
        AllRight-append l _ _ (block-AllRight l b (d.elems_per_rank rank) fits) right,
        omega (arith, length-append (tagged b block) (blocks_from (rank + 1) n), size, count, next),
        λ k le lt.
            has_tag-append k (tagged b block) (blocks_from (rank + 1) n)
            ∙ elim (dec_lt k (first_global_elem d (rank + 1))) [
              | yes here ↦
                  let in_block =
                    has_tag-tagged k block b le
                      (omega (arith, length-slice l b (d.elems_per_rank rank) fits, here, next)) in
                  rw in_block refl
              | no later ↦
                  rw (tags k (omega (arith, later)) lt) (or_true (has_tag k (tagged b block)))
            ],
      )

  -- What process 0 waits for.
  blocks_from-count : length (blocks_from 1 (d.nprocs - 1)) ≡ d.nglobal_elems - d.elems_per_rank 0
  unfolding accumulate
  blocks_from-count =
      let (right, count, tags) =
        blocks_from-AllRight 1 (d.nprocs - 1) (omega (arith, blocks.some_procs)) in
      let next = first-suc 0 in
      let start : first_global_elem d 0 ≡ 0 = blocks.first 0 in
      omega (arith, count, next, start, blocks.counted)

module _ {ℓ κ} {T : Type ℓ} {R : Type κ} (info : ArrayInfo T) (body : ArrayBody T R) where
  send_results-blocks :
      (f : ℕ) (d : Distribution) (last : List T) (rs : List R) (blocks : IsBlocks d (length rs))
      (rank n : ℕ)
      → results_of (array_serial info body f) last ≡ some rs
      → send_results info body f d last rank n ≡ some (blocks_from d rs blocks rank n)
  unfolding send_results local_results blocks_from
  send_results-blocks f d last rs blocks rank zero e = refl
  send_results-blocks f d last rs blocks rank (suc n) e =
      rw
        (
          results_of-slice (array_serial info body f) last rs (first_global_elem d rank)
              (d.elems_per_rank rank) e,
          send_results-blocks f d last rs blocks (rank + 1) n e,
        )
        refl

  -- The results that process 0 has and receives are those of all problems, in their order.
  reduce-reduction :
      (d : Distribution) (t : Tree T) (rs : List R) (blocks : IsBlocks d (length rs))
      (arrived : List (ℕ × R))
      → Arrives (blocks_from d rs blocks 1 (d.nprocs - 1)) arrived
      → reduce info body d t (slice (first_global_elem d 0) (d.elems_per_rank 0) rs) arrived
        ≡ reduction info body t rs
  unfolding reduce blocks_from accumulate has_tag
  reduce-reduction d t rs blocks arrived a =
      let own = slice (first_global_elem d 0) (d.elems_per_rank 0) rs in
      let start : first_global_elem d 0 ≡ 0 = blocks.first 0 in
      let (right, count, tags) =
        blocks_from-AllRight d rs blocks 0 (suc (d.nprocs - 1))
          (omega (arith, blocks.some_procs)) in
      let sent = blocks_from d rs blocks 1 (d.nprocs - 1) in
      let all = tagged (first_global_elem d 0) own ++ sent in
      let came = tagged (first_global_elem d 0) own ++ arrived in
      let filled =
        receive-Arrives rs (λ k. none) all came
          (Arrives-prefix (tagged (first_global_elem d 0) own) sent arrived a) right
          (λ k lt missing.
            let clash = sym missing ∙ tags k (omega (arith, start)) lt in
            absurd (false-true clash)) in
      let store = receive-append (λ k. none) (tagged (first_global_elem d 0) own) arrived in
      let gathered : collect
            (receive (receive (λ k. none) (tagged (first_global_elem d 0) own)) arrived) 0
            (length rs)
          ≡ some rs =
        rw (← store) (
          collect-nth rs (receive (λ k. none) came) 0
            (λ k lt. let e : 0 + k ≡ k = omega arith in rw e (filled k lt refl))) in
      let gathered' : collect (receive (receive (λ k. none) (tagged 0 own)) arrived) 0 (length rs)
          ≡ some rs =
        subst
          (λ b.
            collect (receive (receive (λ k. none) (tagged b own)) arrived) 0 (length rs) ≡ some rs)
          start gathered in
      let whole =
        subst (λ n. collect (receive (receive (λ k. none) (tagged 0 own)) arrived) 0 n ≡ some rs)
          (sym blocks.counted) gathered' in
      rw whole refl

  -- For hooks that may be repeated, a tree that the construction made for the root, blocks that
  -- cover its last level, and a result of the recursion for the root: process 0 has the results of
  -- its block and the other processes send those of theirs; as many messages are on their way as
  -- process 0 waits for; and in whatever order they arrive, its reduction has the result of the
  -- recursion.
  pub reduce-array_serial {κ'} :
      {D : Type κ'} (redistribute : D → List T → D × Bool) (law : IsRepeatable info body)
      (f fuel : ℕ) (s s' : D) (root : T) (t : Tree T) (d : Distribution) (r : R)
      → array_serial info body f root ≡ some r
      → create_tree info body redistribute fuel s root ≡ some (s', t)
      → IsBlocks d (length t.last)
      → (own : List R) × (sent : List (ℕ × R)) × (local_results info body f d t.last 0 ≡ some own)
        × (send_results info body f d t.last 1 (d.nprocs - 1) ≡ some sent)
        × (length sent ≡ d.nglobal_elems - d.elems_per_rank 0)
        × ((arrived : List (ℕ × R))
            → Arrives sent arrived
            → reduce info body d t own arrived ≡ some r)
  unfolding local_results
  reduce-array_serial redistribute law f fuel s s' root t d r value built covers =
      let (rs, all, up) =
        reduction-array_serial info body law redistribute f fuel s s' root t r value built in
      let blocks : IsBlocks d (length rs) =
        subst (IsBlocks d) (sym (results_of-length (array_serial info body f) t.last rs all))
          covers in
      (
        slice (first_global_elem d 0) (d.elems_per_rank 0) rs,
        blocks_from d rs blocks 1 (d.nprocs - 1),
        results_of-slice (array_serial info body f) t.last rs _ _ all,
        send_results-blocks f d t.last rs blocks 1 (d.nprocs - 1) all,
        blocks_from-count d rs blocks,
        λ arrived a. reduce-reduction d t rs blocks arrived a ∙ up,
      )
