-- ===== src/DistributedRun/Local.antt =====
-- The tasks of one process: which problem of its block each computes, and the level below which they
-- run sequentially.
use native.Mathlib.Nat.{
  div-add-mod, mod-lt, le-div_iff_mul-le, div-lt_iff_lt-mul, mul-le-mul_left, mul-le-mul_right,
}
use dparallel_recursion.Common.{
  ℕ, zero, suc, ◌+◌, ◌-◌, ◌*◌, ◌/◌, ◌^◌, ◌≤◌, ◌<◌, ◌≡◌, refl, sym, ap, subst, ◌∙◌, true, Option,
  none, some, ltb, leb, lt→ltb, ltb→lt, ltb→ge, List, [], ◌∷◌, ◌++◌, append-nil, length, min, arith,
  Bool-cases, inl, inr, dec_lt,
}
use dparallel_recursion.Arity.Levels.{levels_for_ntasks-least}
use dparallel_recursion.DistributedTree.Repeatable.{results_of}
use dparallel_recursion.DistributedRun.{
  slice, elements, tagged, receive, collect, Arrives, run_step, run_level, compute, run_writes,
}
use dparallel_recursion.DistributedRun.Gather.{
  has_tag, AllRight, receive-Arrives, collect-nth, block-AllRight, has_tag-tagged,
}
use dparallel_recursion.DistributedRun.Result.{results_of-slice, results_of-length, false-true}

run_step-pos : (ntasks n : ℕ) → 0 < ntasks → 0 < run_step ntasks n
unfolding run_step
run_step-pos ntasks n pos = elim (Bool-cases (ltb n ntasks)) [
  | inl few ↦ rw few (omega arith)
  | inr many ↦
      let le = ltb→ge n ntasks many in rw many ((le-div_iff_mul-le pos).1 (omega (arith, le)))
]

module _ {ℓ} {A : Type ℓ} where
  slice-none : (l : List A) (b : ℕ) → slice b 0 l ≡ []
  unfolding slice
  slice-none [] b = refl
  slice-none (x ∷ l) zero = refl
  slice-none (x ∷ l) (suc b) = slice-none l b

  slice-all : (l : List A) → slice 0 (length l) l ≡ l
  unfolding slice
  slice-all [] = refl
  slice-all (x ∷ l) = ap (λ k. x ∷ k) (slice-all l)

  -- Two blocks, one after the other, have the messages of both together.
  tagged-slice :
      (l : List A) (b i n m : ℕ)
      → i + n ≤ length l
      → tagged b (slice i n l) ++ tagged (b + n) (slice (i + n) m l) ≡ tagged b (slice i (n + m) l)
  unfolding tagged slice
  tagged-slice [] b i n m le = refl
  tagged-slice (x ∷ l) b zero zero m le =
      let e : b + 0 ≡ b = omega arith in
      let e' : 0 + 0 ≡ 0 = omega arith in let e'' : 0 + m ≡ m = omega arith in rw (e, e', e'') refl
  tagged-slice (x ∷ l) b zero (suc n) m le =
      let e : b + suc n ≡ b + 1 + n = omega arith in
      let e' : 0 + suc n ≡ suc (0 + n) = omega arith in
      let e'' : suc n + m ≡ suc (n + m) = omega arith in
      rw (e, e', e'') (ap (λ ms. (b, x) ∷ ms) (tagged-slice l (b + 1) 0 n m (omega arith)))
  tagged-slice (x ∷ l) b (suc i) n m le =
      let e : suc i + n ≡ suc (i + n) = omega arith in rw e (tagged-slice l b i n m (omega arith))

  -- A task's messages and those of the tasks after it.
  tagged-min :
      (l : List A) (step i : ℕ)
      → i < length l
      → tagged i (slice i (min (i + step) (length l) - i) l)
          ++ tagged (i + step) (slice (i + step) (length l - (i + step)) l)
        ≡ tagged i (slice i (length l - i) l)
  unfolding tagged
  tagged-min l step i lt = elim (dec_lt (length l) (i + step)) [
    | yes short ↦
        let e : min (i + step) (length l) - i ≡ length l - i = omega (arith, short) in
        let e' : length l - (i + step) ≡ 0 = omega (arith, short) in
        rw (e, e', slice-none l (i + step)) (append-nil (tagged i (slice i (length l - i) l)))
    | no long ↦
        let e : min (i + step) (length l) - i ≡ step = omega (arith, long) in
        let e' : length l - i ≡ step + (length l - (i + step)) = omega (arith, long) in
        rw (e, e') (tagged-slice l i i step (length l - (i + step)) (omega (arith, long)))
  ]

module _ {ℓ κ} {T : Type ℓ} {R : Type κ} (rec : T → Option R) (roots : List T) (rs : List R)
    (all : results_of rec roots ≡ some rs) (step : ℕ) (pos : 0 < step) where
  -- The tasks write each result from `i` on once, to its place.
  run_writes-tagged :
      (fuel i : ℕ)
      → 0 < fuel
      → length rs < i + fuel
      → run_writes rec fuel roots step i ≡ some (tagged i (slice i (length rs - i) rs))
  unfolding run_writes compute elements tagged
  run_writes-tagged zero i some_fuel lt = absurd (omega arith)
  run_writes-tagged (suc fuel) i some_fuel lt =
      let same = results_of-length rec roots rs all in
      elim (Bool-cases (ltb i (length roots))) [
        | inl more ↦
            let i_lt = ltb→lt i (length roots) more in
            let rest =
              run_writes-tagged fuel (i + step) (omega (arith, same, i_lt)) (omega arith) in
            let n = min (i + step) (length roots) - i in
            let fits : leb (i + n) (length roots) ≡ true =
              (let le : i + n ≤ length roots = omega (arith, i_lt) in ground arith) in
            let here = results_of-slice rec roots rs i n all in
            let joined = tagged-min rs step i (omega (arith, same, i_lt)) in
            rw (more, fits, here, rest)
              (ap some (
                subst
                  (λ k.
                    tagged i (slice i (min (i + step) k - i) rs)
                      ++ tagged (i + step) (slice (i + step) (length rs - (i + step)) rs)
                    ≡ tagged i (slice i (length rs - i) rs))
                  same joined))
        | inr done ↦
            let i_ge = ltb→ge i (length roots) done in
            let e : length rs - i ≡ 0 = omega (arith, same, i_ge) in
            rw (done, e, slice-none rs i) refl
      ]

-- The results of a list are in place whatever the order of their messages.
tagged-collect {ℓ} :
    {A : Type ℓ} (rs : List A) (order : List (ℕ × A))
    → Arrives (tagged 0 rs) order
    → collect (receive (λ k. none) order) 0 (length rs) ≡ some rs
unfolding has_tag
tagged-collect rs order a =
    let right =
      subst (λ l. AllRight rs (tagged 0 l)) (slice-all rs)
        (block-AllRight rs 0 (length rs) (omega arith)) in
    let filled =
      receive-Arrives rs (λ k. none) (tagged 0 rs) order a right
        (λ k lt missing.
          let found = has_tag-tagged k rs 0 (omega arith) (omega (arith, lt)) in
          absurd (false-true (sym missing ∙ found))) in
    collect-nth rs (receive (λ k. none) order) 0
      (λ k lt. let e : 0 + k ≡ k = omega arith in rw e (filled k lt refl))

-- For at least one task, and a result for each problem of the block: the loop over the tasks of
-- `run` ends and writes the results of the block one after the other, each once and to its place;
-- and in whatever order the writes happen, the results of the block are then in their places.
pub run-collect {ℓ κ} :
    {T : Type ℓ} {R : Type κ} (rec : T → Option R) (roots : List T) (rs : List R) (ntasks : ℕ)
    → 0 < ntasks
    → results_of rec roots ≡ some rs
    → (run_writes rec (length roots + 1) roots (run_step ntasks (length roots)) 0
        ≡ some (tagged 0 rs))
      × ((order : List (ℕ × R))
          → Arrives (tagged 0 rs) order
          → collect (receive (λ k. none) order) 0 (length roots) ≡ some rs)
run-collect rec roots rs ntasks pos all =
    let same = results_of-length rec roots rs all in
    let written =
      run_writes-tagged rec roots rs all (run_step ntasks (length roots))
        (run_step-pos ntasks (length roots) pos) (length roots + 1) 0 (omega arith)
        (omega (arith, same)) in
    let e : length rs - 0 ≡ length rs = omega arith in
    (
      written ∙ ap (λ l. some (tagged 0 l)) (rw e (slice-all rs)),
      λ order a. rw (← same) (tagged-collect rs order a),
    )

below : (m n : ℕ) → 0 < n → 1 * m ≤ n * m → m + (n - 1) < (m + 1) * n
below m n pos grow = grind arith

-- For an arity of at least 2, fewer problems than tasks, but some, and products that fit: the problems
-- together have at least as many nodes at the level down to which they make tasks as there are tasks.
pub run_level-enough :
    (fuel arity ntasks n : ℕ)
    → 2 ≤ arity
    → 0 < n
    → n < ntasks
    → ntasks * arity ≤ 2 ^ 32
    → ntasks ≤ fuel
    → (level : ℕ) × (run_level fuel arity ntasks n ≡ some level) × (ntasks ≤ n * arity ^ level)
unfolding run_level
run_level-enough fuel arity ntasks n two some_elems few fits enough =
    let share = (ntasks + (n - 1)) / n in
    let whole = div-add-mod (ntasks + (n - 1)) n in
    let rest = mod-lt (ntasks + (n - 1)) some_elems in
    let covers : ntasks ≤ n * share = omega (arith, whole, rest) in
    let grow = mul-le-mul_right {m = 1} {n = n} ntasks some_elems in
    let most : share < ntasks + 1 =
      (div-lt_iff_lt-mul some_elems).1 (below ntasks n some_elems grow) in
    let one : 1 ≤ share = (le-div_iff_mul-le some_elems).1 (omega (arith, few)) in
    let fits' = mul-le-mul_right {m = share} {n = ntasks} arity (omega (arith, most)) in
    let (level, found, least, above) =
      levels_for_ntasks-least fuel arity share two (omega (arith, fits', fits)) one
        (omega (arith, most, enough)) in
    let nodes = mul-le-mul_left {m = share} {n = arity ^ level} n least in
    (level, rw (lt→ltb n ntasks few) found, omega (arith, covers, nodes))
