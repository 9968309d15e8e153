-- ===== src/ChunkSelector/Bounds.antt =====
-- include/dparallel_recursion/ChunkSelector.h: the steps that score chunks and that discard them.
use dparallel_recursion.Common.{
  ℕ, ◌≤◌, ◌≡◌, refl, ◌∙◌, Bool, true, ◌||◌, arith, none, ltb, ◌==◌, List, [], ◌∷◌, ◌++◌, length,
  Bool-cases, Option-cases, inl, inr,
}
use dparallel_recursion.ChunkSelector.Keyed.{
  mem, has, map_values, retain, length-map_values, length-retain,
}
use dparallel_recursion.ChunkSelector.{
  Double, ChunkAttr, ChunkOptions, Selector, score_by, calculate_score, get_best_scored_chunk,
  get_worst_scored_chunk, discard_worst_chunk, discard_chunks, calculate_mean, calculate_median,
  get_best_speed_chunk, int_max,
}

pub mem-append : (c : ℕ) (xs ys : List ℕ) → mem c (xs ++ ys) ≡ (mem c xs || mem c ys)
unfolding mem
mem-append c [] ys = refl
mem-append c (x ∷ xs) ys = elim (Bool-cases (x == c)) [
  | inl e ↦ rw e refl
  | inr e ↦ rw e (mem-append c xs ys)
]

-- A step of the selector that tests nothing and explores nothing: the chunks get fewer at most.
pub record Shrinks {ℓ} {D : Type ℓ} (s t : Selector D) : Type 0 where
  pub fewer : length t.selected_chunks ≤ length s.selected_chunks
  pub same_history : t.history_of_chunks ≡ s.history_of_chunks
  pub same_queue : t.to_check_chunks ≡ s.to_check_chunks
  pub same_phase : t.phase ≡ s.phase
  pub same_i : t.phase2_i ≡ s.phase2_i
  pub same_j : t.phase2_j ≡ s.phase2_j
  pub same_block : t.actual_block ≡ s.actual_block

-- The fields of phase 2.
pub record Same {ℓ} {D : Type ℓ} (s t : Selector D) : Type 0 where
  pub i_kept : t.phase2_i ≡ s.phase2_i
  pub j_kept : t.phase2_j ≡ s.phase2_j
  pub block_kept : t.actual_block ≡ s.actual_block

-- What holds between two tests: every chunk that is selected has been in the history, and every chunk
-- that waits for its test is selected.
pub record Inv {ℓ} {D : Type ℓ} (limit : ℕ) (s : Selector D) : Type 0 where
  pub small : length s.selected_chunks ≤ length s.history_of_chunks
  pub bounded : length s.history_of_chunks ≤ limit
  pub queued : (c : ℕ) → mem c s.to_check_chunks ≡ true → has c s.selected_chunks ≡ true

module _ {ℓ} {D : Type ℓ} (double : Double D) where
  nothing-Shrinks : (s : Selector D) → Shrinks s s
  nothing-Shrinks s = record {
    fewer = omega arith;
    same_history = refl;
    same_queue = refl;
    same_phase = refl;
    same_i = refl;
    same_j = refl;
    same_block = refl;
  }

  pub Shrinks-trans : {s t u : Selector D} → Shrinks s t → Shrinks t u → Shrinks s u
  Shrinks-trans a b = record {
    fewer = omega (arith, a.fewer, b.fewer);
    same_history = b.same_history ∙ a.same_history;
    same_queue = b.same_queue ∙ a.same_queue;
    same_phase = b.same_phase ∙ a.same_phase;
    same_i = b.same_i ∙ a.same_i;
    same_j = b.same_j ∙ a.same_j;
    same_block = b.same_block ∙ a.same_block;
  }

  rescored-Shrinks :
      (f : ChunkAttr D → ChunkAttr D) (s : Selector D)
      → Shrinks s (record s { selected_chunks = map_values f s.selected_chunks })
  rescored-Shrinks f s = record {
    fewer = omega (arith, length-map_values f s.selected_chunks);
    same_history = refl;
    same_queue = refl;
    same_phase = refl;
    same_i = refl;
    same_j = refl;
    same_block = refl;
  }

  retained-Shrinks :
      (p : ℕ → ChunkAttr D → Bool) (s : Selector D)
      → Shrinks s (record s { selected_chunks = retain p s.selected_chunks })
  retained-Shrinks p s = record {
    fewer = length-retain p s.selected_chunks;
    same_history = refl;
    same_queue = refl;
    same_phase = refl;
    same_i = refl;
    same_j = refl;
    same_block = refl;
  }

  score_by-Shrinks : (measure : List D → D) (s : Selector D) → Shrinks s (score_by double measure s)
  unfolding score_by
  score_by-Shrinks measure s =
      elim (Option-cases
        (get_best_speed_chunk double measure (none, double.minus_one) s.selected_chunks).0) [
          | inl e ↦ rw (e, score_by) (nothing-Shrinks s)
          | inr (c, e) ↦ rw (e, score_by) (rescored-Shrinks _ s)
        ]

  pub calculate_score-Shrinks :
      (o : ChunkOptions) (s : Selector D) → Shrinks s (calculate_score double o s)
  unfolding calculate_score
  calculate_score-Shrinks o s = elim (Bool-cases (o.calc_mode == 2)) [
    | inl e ↦ rw e (rescored-Shrinks _ s)
    | inr e ↦ elim (Bool-cases (o.calc_mode == 1)) [
      | inl e' ↦ rw (e, e') (score_by-Shrinks (calculate_median double) s)
      | inr e' ↦ rw (e, e') (score_by-Shrinks (calculate_mean double) s)
    ]
  ]

  pub discard_chunks-Shrinks : (s : Selector D) → Shrinks s (discard_chunks double s)
  unfolding discard_chunks
  discard_chunks-Shrinks s =
      elim (Option-cases (get_best_scored_chunk double none s.selected_chunks)) [
        | inl e ↦ rw (e, discard_chunks) (nothing-Shrinks s)
        | inr (b, e) ↦ rw (e, discard_chunks) (retained-Shrinks _ s)
      ]

  pub discard_worst_chunk-Shrinks : (s : Selector D) → Shrinks s (discard_worst_chunk double s)
  unfolding discard_worst_chunk
  discard_worst_chunk-Shrinks s = elim (Bool-cases (ltb 1 (length s.selected_chunks))) [
    | inl e ↦
        elim (Option-cases
          (get_worst_scored_chunk double (none, int_max double) s.selected_chunks).0) [
            | inl e' ↦ rw (e, e') (nothing-Shrinks s)
            | inr (w, e') ↦ rw (e, e') (retained-Shrinks _ s)
          ]
    | inr e ↦ rw e (nothing-Shrinks s)
  ]

  pub Shrinks-Same : {s t : Selector D} → Shrinks s t → Same s t
  Shrinks-Same k = record { i_kept = k.same_i; j_kept = k.same_j; block_kept = k.same_block }

  pub Same-trans : {s t u : Selector D} → Same s t → Same t u → Same s u
  Same-trans a b = record {
    i_kept = b.i_kept ∙ a.i_kept;
    j_kept = b.j_kept ∙ a.j_kept;
    block_kept = b.block_kept ∙ a.block_kept;
  }
