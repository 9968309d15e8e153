-- ===== src/Distribution/Costs/Greedy.antt =====
-- The first distribution by costs gives every problem to a process, none too much.
use dparallel_recursion.Common.{
  ℕ, zero, suc, ◌+◌, ◌-◌, ◌≤◌, ◌<◌, ◌≡◌, ◌≢◌, refl, sym, ap, ◌∙◌, Bool, true, false, not, ◌&&◌, ltb,
  ◌==◌, ==_iff, List, [], ◌∷◌, length, update, arith, Bool-cases, inl, inr, ℕ_discrete, dec_lt,
}
use dparallel_recursion.Distribution.{accumulate}
use dparallel_recursion.Distribution.Costs.{
  Float, CostShares, upper_limit, is_full, give_elem, give_elems, redistribute_on_costs,
}

full_parts :
    (a cur n : ℕ) (g : Bool)
    → (not (a == 0) && (g && ltb cur (n - 1))) ≡ true
    → (0 < a) × (cur + 1 < n)
full_parts a cur n g e = ground arith

room_parts :
    (a cur n : ℕ) (g : Bool)
    → (not (a == 0) && (g && ltb cur (n - 1))) ≡ false
    → cur + 1 < n
    → 0 < a
    → g ≡ false
room_parts a cur n g e lt pos = ground arith

-- One entry grows.
update-same {ℓ} : {A : Type ℓ} (f : ℕ → A) (q : ℕ) (a : A) → update f q a q ≡ a
update-same f q a = let e : (q == q) ≡ true = (==_iff q q).1 refl in rw e refl

update-other {ℓ} : {A : Type ℓ} (f : ℕ → A) (q j : ℕ) (a : A) → q ≢ j → update f q a j ≡ f j
update-other f q j a ne = elim (Bool-cases (q == j)) [
  | inl e ↦ absurd (ne ((==_iff q j).0 e))
  | inr e ↦ rw e refl
]

accumulate-above :
    (f : ℕ → ℕ) (q a lo n : ℕ) → q < lo → accumulate (update f q a) lo n ≡ accumulate f lo n
unfolding accumulate
accumulate-above f q a lo zero lt = refl
accumulate-above f q a lo (suc n) lt = omega (
  arith,
  update-other f q lo a (λ e. omega (arith, e, lt)),
  accumulate-above f q a (lo + 1) n (omega arith),
)

accumulate-grow :
    (f : ℕ → ℕ) (q lo n : ℕ)
    → lo ≤ q
    → q < lo + n
    → accumulate (update f q (f q + 1)) lo n ≡ accumulate f lo n + 1
unfolding accumulate
accumulate-grow f q lo zero le lt = absurd (omega arith)
accumulate-grow f q lo (suc n) le lt = elim (ℕ_discrete q lo) [
  | yes e ↦
      let here = update-same f q (f q + 1) in
      let rest = accumulate-above f q (f q + 1) (lo + 1) n (omega arith) in
      rw (← e) (omega (arith, here, rw (← e) at rest))
  | no ne ↦
      let here = update-other f q lo (f q + 1) ne in
      let rest = accumulate-grow f q (lo + 1) n (omega arith) (omega arith) in
      omega (arith, here, rest)
]

module _ {ℓ} {F : Type ℓ} (float : Float F) (limit : F) (nprocs : ℕ) where
  -- After `seen` problems.
  record IsShared (s : CostShares F) (seen : ℕ) : Type 0 where
    total : accumulate s.elems_per_rank 0 nprocs ≡ seen
    current : s.cur_proc < nprocs
    after : (p : ℕ) → s.cur_proc < p → s.elems_per_rank p ≡ 0
    before : (p : ℕ) → p < s.cur_proc → 0 < s.elems_per_rank p
    within :
        (p : ℕ)
        → p + 1 < nprocs
        → 2 ≤ s.elems_per_rank p
        → float.gt (s.process_costs p) limit ≡ false

  given-IsShared :
      (s : CostShares F) (c : F) (seen p : ℕ)
      → IsShared s seen
      → p < nprocs
      → ((q : ℕ) → p < q → s.elems_per_rank q ≡ 0)
      → ((q : ℕ) → q < p → 0 < s.elems_per_rank q)
      → (p + 1 < nprocs
          → 0 < s.elems_per_rank p
          → float.gt (float.plus (s.process_costs p) c) limit ≡ false)
      → IsShared
          (record {
            cur_proc = p;
            elems_per_rank = update s.elems_per_rank p (s.elems_per_rank p + 1);
            process_costs = update s.process_costs p (float.plus (s.process_costs p) c);
          })
          (seen + 1)
  given-IsShared s c seen p shared lt after' before' room = record {
    total =
        accumulate-grow s.elems_per_rank p 0 nprocs (omega arith) (omega arith)
        ∙ ap (λ n. n + 1) shared.total;
    current = lt;
    after =
        λ q q_gt. update-other s.elems_per_rank p q _ (λ e. omega (arith, e, q_gt)) ∙ after' q q_gt;
    before = λ q q_lt.
        rw
          (update-other s.elems_per_rank p q (s.elems_per_rank p + 1) (λ e. omega (arith, e, q_lt)))
          (before' q q_lt);
    within = λ q q_lt two. elim (ℕ_discrete p q) [
      | yes e ↦
          ap (λ x. float.gt (update s.process_costs p (float.plus (s.process_costs p) c) x) limit)
            (sym e)
          ∙ ap (λ x. float.gt x limit)
              (update-same s.process_costs p (float.plus (s.process_costs p) c))
          ∙ room (omega (arith, e, q_lt)) (
              omega (
                arith,
                two,
                ap (update s.elems_per_rank p (s.elems_per_rank p + 1)) e,
                update-same s.elems_per_rank p (s.elems_per_rank p + 1),
              ))
      | no ne ↦
          ap (λ x. float.gt x limit)
            (update-other s.process_costs p q (float.plus (s.process_costs p) c) ne)
          ∙ shared.within q q_lt
              (rw (update-other s.elems_per_rank p q (s.elems_per_rank p + 1) ne) at two)
    ];
  }

  give_elem-IsShared :
      (s : CostShares F) (c : F) (seen : ℕ)
      → IsShared s seen
      → IsShared (give_elem float limit nprocs s c) (seen + 1)
  unfolding give_elem is_full
  give_elem-IsShared s c seen shared = elim (Bool-cases (is_full float limit nprocs s c)) [
    | inl full ↦
        let (some_elems, next) =
          full_parts (s.elems_per_rank s.cur_proc) s.cur_proc nprocs _ full in
        rw full (
          given-IsShared s c seen (s.cur_proc + 1) shared next
            (λ q gt. shared.after q (omega (arith, gt)))
            (λ q lt. elim (ℕ_discrete q s.cur_proc) [
              | yes e ↦ rw e some_elems
              | no ne ↦ shared.before q (omega (arith, ne, lt))
            ])
            (λ h pos. absurd (omega (arith, pos, shared.after (s.cur_proc + 1) (omega arith)))))
    | inr room ↦ rw room (
        given-IsShared s c seen s.cur_proc shared shared.current shared.after shared.before
          (λ next pos. room_parts (s.elems_per_rank s.cur_proc) s.cur_proc nprocs _ room next pos))
  ]

  give_elems-IsShared :
      (s : CostShares F) (cs : List F) (seen : ℕ)
      → IsShared s seen
      → IsShared (give_elems float limit nprocs s cs) (seen + length cs)
  unfolding give_elems
  give_elems-IsShared s [] seen shared = let e : seen + 0 ≡ seen = omega arith in rw e shared
  give_elems-IsShared s (c ∷ cs) seen shared =
      let e : seen + suc (length cs) ≡ seen + 1 + length cs = omega arith in
      rw e (
        give_elems-IsShared (give_elem float limit nprocs s c) cs (seen + 1)
          (give_elem-IsShared s c seen shared))

  -- The processes that have problems come first.
  IsShared-first :
      (s : CostShares F) (seen : ℕ)
      → IsShared s seen
      → (p q : ℕ) → p < q
      → 0 < s.elems_per_rank q
      → 0 < s.elems_per_rank p
  IsShared-first s seen shared p q lt some_q = elim (dec_lt s.cur_proc q) [
    | yes above ↦ absurd (omega (arith, shared.after q above, some_q))
    | no within ↦ shared.before p (omega (arith, lt, within))
  ]

accumulate-none : (lo n : ℕ) → accumulate (λ i. 0) lo n ≡ 0
unfolding accumulate
accumulate-none lo zero = refl
accumulate-none lo (suc n) = omega (arith, accumulate-none (lo + 1) n)

-- For at least one process, whatever the costs and the arithmetic on them: the first distribution by
-- costs gives as many problems as there are; the processes that have problems come first; and a
-- process but the last has at most one problem, or no more cost than the limit.
pub redistribute_on_costs-shares {ℓ} :
    {F : Type ℓ} (float : Float F) (half_imbalance : F) (nprocs : ℕ) (costs : List F)
    → 0 < nprocs
    → (accumulate (redistribute_on_costs float half_imbalance nprocs costs).elems_per_rank 0 nprocs
        ≡ length costs)
      × ((p q : ℕ)
          → p < q
          → 0 < (redistribute_on_costs float half_imbalance nprocs costs).elems_per_rank q
          → 0 < (redistribute_on_costs float half_imbalance nprocs costs).elems_per_rank p)
      × ((p : ℕ)
          → p + 1 < nprocs
          → 2 ≤ (redistribute_on_costs float half_imbalance nprocs costs).elems_per_rank p
          → float.gt
              ((redistribute_on_costs float half_imbalance nprocs costs).process_costs p)
              (upper_limit float half_imbalance nprocs costs)
            ≡ false)
unfolding redistribute_on_costs
redistribute_on_costs-shares float half_imbalance nprocs costs pos =
    let shared =
      give_elems-IsShared float (upper_limit float half_imbalance nprocs costs) nprocs
        (record { cur_proc = 0; elems_per_rank = λ i. 0; process_costs = λ i. float.nought }) costs
        0
        (record {
          total = accumulate-none 0 nprocs;
          current = pos;
          after = λ p lt. refl;
          before = λ p lt. absurd (omega arith);
          within = λ p lt two. absurd (omega arith);
        }) in
    (
      shared.total ∙ omega arith,
      λ p q lt some_q.
          IsShared-first float (upper_limit float half_imbalance nprocs costs) nprocs _ _ shared p q
            lt some_q,
      shared.within,
    )
