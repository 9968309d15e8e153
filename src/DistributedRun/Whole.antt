-- ===== src/DistributedRun/Whole.antt =====
-- The whole distributed recursion without balance, from the root to its result.
use dparallel_recursion.Common.{
  ℕ, zero, suc, ◌-◌, ◌≤◌, ◌<◌, ◌≡◌, subst, Bool, true, false, Option, some, >>=-eq-some,
  some_injective, ◌==◌, ltb, if◌then◌else◌, List, [], ◌∷◌, map, length, Bool-cases, inl, inr,
}
use dparallel_recursion.ArrayRecursion.{ArrayInfo, ArrayBody, array_serial}
use dparallel_recursion.Distribution.{Distribution, redistribute, set_nglobal_elems}
use dparallel_recursion.Distribution.Blocks.{set_nglobal_elems-IsBlocks}
use dparallel_recursion.DistributedTree.{
  Tree, pre_parallel, next_level_size, create_levels, create_tree,
}
use dparallel_recursion.DistributedTree.Repeatable.{IsRepeatable}
use dparallel_recursion.DistributedTree.Depth.{HasChildren, create_tree-some}
use dparallel_recursion.DistributedRun.{Arrives, local_results, send_results, reduce}
use dparallel_recursion.DistributedRun.Result.{reduce-array_serial}

module _ {ℓ κ κ' κ''} {T : Type ℓ} {R : Type κ} {D : Type κ'} (info : ArrayInfo T)
    (body : ArrayBody T R) (redistribute : D → List T → D × Bool) (P : D → Type κ'')
    (keep : (s : D) (ds : List T) → P s → P (redistribute s ds).0) where
  create_levels-keeps :
      (fuel : ℕ) (s : D) (above : List (List (Option T))) (ds : List T)
      (p : D × List (List (Option T)) × List T)
      → P s
      → create_levels info body redistribute fuel s above ds ≡ some p
      → P p.0
  unfolding create_levels
  create_levels-keeps zero s above ds p held run = cc
  create_levels-keeps (suc fuel) s above [] p held run = cc
  create_levels-keeps (suc fuel) s above (x ∷ xs) p held run =
      let ds = x ∷ xs in
      let next = keep s ds held in
      elim (Bool-cases (redistribute s ds).1) [
        | inl stop ↦ subst (λ q. P q.0) (some_injective _ p (rw stop at run)) next
        | inr go ↦
            elim (Bool-cases (next_level_size (map (pre_parallel info body) ds) == length ds)) [
              | inl all_base ↦
                  subst (λ q. P q.0) (some_injective _ p (rw (go, all_base) at run)) next
              | inr more ↦ create_levels-keeps fuel _ _ _ p next (rw (go, more) at run)
            ]
      ]

  create_tree-keeps :
      (fuel : ℕ) (s : D) (root : T) (p : D × Tree T)
      → P s
      → create_tree info body redistribute fuel s root ≡ some p
      → P p.0
  unfolding create_tree
  create_tree-keeps fuel s root p held run =
      let next = keep s (root ∷ []) held in
      elim (Bool-cases (redistribute s (root ∷ [])).1) [
        | inl stop ↦ subst (λ q. P q.0) (some_injective _ p (rw stop at run)) next
        | inr go ↦ elim (Bool-cases (info.is_base (body.pre root))) [
          | inl base ↦ subst (λ q. P q.0) (some_injective _ p (rw (go, base) at run)) next
          | inr node ↦
              let (q, levels, built) =
                >>=-eq-some (create_levels info body redistribute fuel _ [] _) _
                  (rw (go, node) at run) in
              subst (λ x. P x.0) (some_injective _ p built)
                (create_levels-keeps fuel _ [] _ q next levels)
        ]
      ]

-- A distribution without balance, as `init` makes it.
pub record IsUnshared (d : Distribution) : Type 0 where
  pub some_procs : 0 < d.nprocs
  pub not_shared : d.elems_per_rank 0 ≡ 0
  pub no_balance : d.balance ≡ false

one_of {ℓ κ} :
    {A : Type ℓ} (P : A → Type κ) (a b c : Bool) (x y z w : A)
    → P x
    → P y
    → P w
    → c ≡ false
    → P (if a then x else (if b then y else (if c then z else w)))
one_of P true b c x y z w p q r e = p
one_of P false true c x y z w p q r e = q
one_of P false false true x y z w p q r e = cc
one_of P false false false x y z w p q r e = r

module _ (within : ℕ → ℕ → Bool) (lenient slow : Bool) where
  -- `redistribute` on a level.
  abbrev pub at_level {ℓ} : {T : Type ℓ} → Distribution → List T → Distribution × Bool
  at_level d ds = redistribute within lenient slow d (length ds)

  redistribute-IsUnshared :
      (d : Distribution) (size : ℕ)
      → IsUnshared d
      → IsUnshared (redistribute within lenient slow d size).0
  unfolding redistribute
  redistribute-IsUnshared d size u =
      one_of {A = Distribution × Bool} (λ q. IsUnshared q.0) d.is_balanced (ltb size d.nprocs)
        d.balance _ _ _ _ u
        (record { some_procs = u.some_procs; not_shared = u.not_shared; no_balance = u.no_balance })
        (record { some_procs = u.some_procs; not_shared = u.not_shared; no_balance = u.no_balance })
        u.no_balance

  -- For hooks that may be repeated, problems that have children unless they are base cases, a
  -- distribution without balance on at least one process that has not been shared, and as many
  -- rounds as the recursion has levels of fuel: where the recursion returns for the root, the tree
  -- is made; process 0 has the results of its block of the last level, and the other processes send
  -- those of theirs; as many messages are on their way as process 0 waits for; and in whatever order
  -- they arrive, its reduction has the result of the recursion.
  pub reduce-create_tree {ℓ κ} :
      {T : Type ℓ} {R : Type κ} (info : ArrayInfo T) (body : ArrayBody T R)
      (law : IsRepeatable info body) (has : HasChildren info body) (f fuel : ℕ) (d : Distribution)
      (root : T) (r : R)
      → IsUnshared d
      → f ≤ fuel
      → array_serial info body f root ≡ some r
      → (made : Distribution × Tree T) × (own : List R) × (sent : List (ℕ × R)) × (create_tree info
            body at_level fuel d root
          ≡ some made)
        × (local_results info body f (set_nglobal_elems made.0 (length made.1.last)).0 made.1.last 0
            ≡ some own)
        × (send_results info body f
              (set_nglobal_elems made.0 (length made.1.last)).0
              made.1.last
              1
              ((set_nglobal_elems made.0 (length made.1.last)).0.nprocs - 1)
            ≡ some sent)
        × (length sent
            ≡ (set_nglobal_elems made.0 (length made.1.last)).0.nglobal_elems
              - (set_nglobal_elems made.0 (length made.1.last)).0.elems_per_rank 0)
        × ((arrived : List (ℕ × R))
            → Arrives sent arrived
            → reduce info body (set_nglobal_elems made.0 (length made.1.last)).0 made.1 own arrived
              ≡ some r)
  reduce-create_tree info body law has f fuel d root r unshared le value =
      let (made, built) = create_tree-some info body law at_level has f fuel d root r le value in
      let u =
        create_tree-keeps info body at_level IsUnshared
          (λ s ds held. redistribute-IsUnshared s (length ds) held) fuel d root made unshared
          built in
      let (own, sent, mine, others, count, result) =
        reduce-array_serial info body at_level law f fuel d made.0 root made.1
          (set_nglobal_elems made.0 (length made.1.last)).0 r value built
          (set_nglobal_elems-IsBlocks made.0 (length made.1.last) u.some_procs u.not_shared) in
      (made, own, sent, built, mine, others, count, result)
