-- ===== src/ChunkSelector/Ends/Explore.antt =====
-- include/dparallel_recursion/ChunkSelector.h: phase 1, and the way a round of phase 2 fills the queue.
use dparallel_recursion.Common.{
  ℕ, ◌+◌, ◌≤◌, ◌≡◌, refl, ◌∙◌, true, arith, none, some, List, ◌∷◌, length, ◌⊎◌, inl, inr,
}
use dparallel_recursion.ChunkSelector.Keyed.{mem, has}
use dparallel_recursion.ChunkSelector.{
  Double, ChunkOptions, Selector, calculate_score, discard_chunks, add_neighbors,
}
use dparallel_recursion.ChunkSelector.Rounds.{phase_1}
use dparallel_recursion.ChunkSelector.Bounds.{
  Same, Same-trans, Shrinks-Same, Inv, Shrinks-trans, calculate_score-Shrinks,
  discard_chunks-Shrinks,
}
use dparallel_recursion.ChunkSelector.Queue.{
  add_neighbors-Same, slack, popped, pop_front-cases, popped-Inv, add_neighbors-slack,
}
use dparallel_recursion.ChunkSelector.Ends.{
  Next-at, Same-potential, rounds, potential, Ok, Next, Same-Level, shrunk-Inv,
}

module _ {ℓ} {D : Type ℓ} (double : Double D) (o : ChunkOptions) (l : ℕ) where
  pub record Passed (s t : Selector D) : Type 0 where
    pub inv : Inv l t
    pub most : slack l t ≤ slack l s
    pub same : Same s t

  -- A chunk is taken for its test.
  pub taken-Next :
      (c : ℕ) (cs : List ℕ) (s : Selector D)
      → s.to_check_chunks ≡ c ∷ cs
      → Ok o l s
      → Next o l (potential o l s) (some c, popped cs s)
  unfolding Next potential rounds
  taken-Next c cs s e k =
      let (i, own, less) = popped-Inv double l c cs s e k.inv in
      (
        record {
          inv = i;
          level = λ m. let v = k.level m in record { few = v.few; running = v.running };
        },
        own,
        omega (arith, less),
      )

  pub phase_1-Next :
      (s : Selector D)
      → o.max_num_chunks_test_allowed ≤ l
      → Ok o l s
      → ((c : ℕ) × (t : Selector D) × (phase_1 double o s ≡ (some c, t))
          × (t.phase ≡ s.phase)
          × Next o l (potential o l s) (some c, t))
        ⊎ ((t : Selector D) × (phase_1 double o s ≡ (none, t)) × Passed s t)
  unfolding phase_1 slack
  phase_1-Next s le k = elim (pop_front-cases double o s) [
    | inr (c, cs, e, p) ↦ inl (c, popped cs s, rw (p, phase_1) p, refl, taken-Next c cs s e k)
    | inl (e, p) ↦
        let s' = discard_chunks double (calculate_score double o s) in
        let k' =
          Shrinks-trans double (calculate_score-Shrinks double o s)
            (discard_chunks-Shrinks double _) in
        let (i', same) = shrunk-Inv l e k' k.inv in
        let u = add_neighbors double o s' in
        let (i, same') = add_neighbors-slack double o l s' le i' in
        let (kept, phase') = add_neighbors-Same double o s' in
        let all = Same-trans double (Shrinks-Same double k') kept in
        let few : slack l u ≤ slack l s = omega (arith, same, same') in
        elim (pop_front-cases double o u) [
          | inr (c, cs, e', p') ↦ inl (
            c,
            popped cs u,
            rw (p, phase_1, p') p',
            phase' ∙ k'.same_phase,
            Next-at o l (potential o l u) (potential o l s) (some c, popped cs u)
                (Same-potential o l all few)
                (taken-Next c cs u e'
                  (record { inv = i; level = λ m. Same-Level all (k.level m) })),
          )
          | inl (e', p') ↦ inr (
            record u { phase = u.phase + 1 },
            rw (p, phase_1, p') refl,
            record {
              inv = record { small = i.small; bounded = i.bounded; queued = i.queued };
              most = few;
              same = record {
                i_kept = all.i_kept;
                j_kept = all.j_kept;
                block_kept = all.block_kept;
              };
            },
          )
        ]
  ]

  -- A full queue for one round of phase 2.
  pub filled-Inv :
      (qs : List ℕ) (s : Selector D)
      → length qs ≤ length s.selected_chunks
      → ((d : ℕ) → mem d qs ≡ true → has d s.selected_chunks ≡ true)
      → Inv l s
      → Inv l (popped qs s) × (slack l (popped qs s) ≤ l)
  unfolding slack
  filled-Inv qs s few own i = (
    record { small = i.small; bounded = i.bounded; queued = own },
    omega (arith, few, i.small, i.bounded),
  )
