-- ===== src/ChunkSelector/Ends/Modes.antt =====
-- include/dparallel_recursion/ChunkSelector.h: a call of getNextChunk in the modes 1, 2 and 3.
use dparallel_recursion.Common.{
  ℕ, suc, ◌+◌, ◌-◌, ◌≤◌, ◌≡◌, refl, sym, ap, ◌∙◌, Bool, true, false, ◌&&◌, arith, Option, none,
  some, ltb, ltb→lt, ◌==◌, if◌then◌else◌, List, ◌∷◌, ◌++◌, length, length-append, Bool-cases,
  and_parts, inl, inr,
}
use dparallel_recursion.ChunkSelector.Keyed.{mem, keys, has, length-keys, mem-keys}
use dparallel_recursion.ChunkSelector.{Double, ChunkOptions, Selector, calculate_score}
use dparallel_recursion.ChunkSelector.Rounds.{
  refill, phase_2, finish, time_out, end_round, get_next_chunk_m1_m2_m3,
}
use dparallel_recursion.ChunkSelector.Bounds.{
  Inv, Shrinks, Shrinks-trans, calculate_score-Shrinks, discard_chunks-Shrinks,
  discard_worst_chunk-Shrinks,
}
use dparallel_recursion.ChunkSelector.Queue.{slack, popped, pop_front-cases, popped-Inv}
use dparallel_recursion.ChunkSelector.Ends.{
  Next-at, Same-potential, rounds, potential, Ok, Next, Same-Level, shrunk-Inv, round-less,
}
use dparallel_recursion.ChunkSelector.Ends.Explore.{taken-Next, phase_1-Next, filled-Inv}

module _ {ℓ} {D : Type ℓ} (double : Double D) (o : ChunkOptions) (l : ℕ) where
  end_round-Shrinks : (m : ℕ) (s : Selector D) → Shrinks s (end_round double o m s)
  unfolding end_round
  end_round-Shrinks m s = elim (Bool-cases (m == 3)) [
    | inl e ↦ rw e (
        Shrinks-trans double (calculate_score-Shrinks double o s)
          (discard_worst_chunk-Shrinks double _))
    | inr e ↦ elim (Bool-cases (m == 1)) [
      | inl e' ↦
          let k =
            Shrinks-trans double (calculate_score-Shrinks double o s)
              (discard_chunks-Shrinks double _) in
          rw (e, e')
            (record {
              fewer = k.fewer;
              same_history = k.same_history;
              same_queue = k.same_queue;
              same_phase = k.same_phase;
              same_i = k.same_i;
              same_j = k.same_j;
              same_block = k.same_block;
            })
      | inr e' ↦ rw (e, e') (calculate_score-Shrinks double o s)
    ]
  ]

  pub finish-Next :
      (discard : Bool) (bound : ℕ) (p : Option ℕ × Selector D)
      → Next o l bound p
      → Next o l bound (finish double o discard p)
  unfolding finish Next
  finish-Next discard bound (some c, t) n = n
  finish-Next true bound (none, t) n =
      let k =
        Shrinks-trans double (calculate_score-Shrinks double o t)
          (discard_chunks-Shrinks double _) in
      rw k.same_history n
  finish-Next false bound (none, t) n = rw (calculate_score-Shrinks double o t).same_history n

  time_out-history :
      (m : ℕ) (s : Selector D) → (time_out double o m s).history_of_chunks ≡ s.history_of_chunks
  unfolding time_out
  time_out-history m s =
      let k = calculate_score-Shrinks double o s in
      elim (Bool-cases ((m == 3) && ltb 1 (calculate_score double o s).phase)) [
        | inl late ↦ rw late ((discard_worst_chunk-Shrinks double _).same_history ∙ k.same_history)
        | inr early ↦ elim (Bool-cases (m == 1)) [
          | inl one ↦ rw (early, one) k.same_history
          | inr many ↦ rw (early, many) k.same_history
        ]
      ]

  rounds-other : (s : Selector D) → (o.mode == 0) ≡ false → rounds o s ≡ o.sub_mode - s.phase2_i
  unfolding rounds
  rounds-other s other = rw other refl

  -- The queue is filled with the chunks that are selected, and one is taken.
  pub filled-Next :
      (c : ℕ) (cs qs : List ℕ) (s : Selector D)
      → qs ≡ c ∷ cs
      → length qs ≤ length s.selected_chunks
      → ((d : ℕ) → mem d qs ≡ true → has d s.selected_chunks ≡ true)
      → Inv l s
      → Inv l (popped cs s) × (has c s.selected_chunks ≡ true) × (suc (slack l (popped cs s)) ≤ l)
  filled-Next c cs qs s e few own i =
      let (full, most) = filled-Inv double o l qs s few own i in
      let (rest, selected, less) = popped-Inv double l c cs (popped qs s) e full in
      (
        record { small = rest.small; bounded = rest.bounded; queued = rest.queued },
        selected,
        omega (arith, most, less),
      )

  phase_2-Next :
      (m : ℕ) (s : Selector D)
      → (o.mode == 0) ≡ false
      → Ok o l s
      → Next o l (potential o l s) (phase_2 double o m s)
  unfolding phase_2 Next potential refill slack
  phase_2-Next m s other k = elim (pop_front-cases double o s) [
    | inr (c, cs, e, p) ↦ rw (p, phase_2) (rw p (taken-Next double o l c cs s e k))
    | inl (e, p) ↦
        let s' = end_round double o m s in
        let qs = keys s'.selected_chunks in
        let shrunk = end_round-Shrinks m s in
        let (i', same) = shrunk-Inv l e shrunk k.inv in
        elim (Bool-cases (ltb 1 (length s'.selected_chunks) && ltb s'.phase2_i o.sub_mode)) [
          | inr done ↦ rw (p, phase_2, done) i'.bounded
          | inl more ↦
              let (two, round) = and_parts _ _ more in
              elim (pop_front-cases double o (refill double o s')) [
                | inl (e', p') ↦
                    let none_left : length (s'.to_check_chunks ++ qs) ≡ 0 = ap length e' in
                    absurd (
                      omega (
                        arith,
                        none_left,
                        length-append s'.to_check_chunks qs,
                        length-keys s'.selected_chunks,
                        ltb→lt 1 (length s'.selected_chunks) two,
                      ))
                | inr (c, cs, e', p') ↦
                    let e'' : qs ≡ c ∷ cs = sym (ap (λ q. q ++ qs) (shrunk.same_queue ∙ e)) ∙ e' in
                    let (i, own, less) =
                      filled-Next c cs qs s' e'' (omega (arith, length-keys s'.selected_chunks))
                        (λ d inside. sym (mem-keys d s'.selected_chunks) ∙ inside) i' in
                    rw (p, phase_2, more, p')
                      (
                        record {
                          inv = record { small = i.small; bounded = i.bounded; queued = i.queued };
                          level = λ zeroth. let clash : (o.mode == 0) ≡ true = ground arith in cc;
                        },
                        own,
                        rw other (
                            round-less _ l (o.sub_mode - s.phase2_i)
                              (o.sub_mode - (s'.phase2_i + 1)) (slack l s) less
                              (omega (arith, shrunk.same_i, ltb→lt s'.phase2_i o.sub_mode round))),
                      )
              ]
        ]
  ]

  last-Next :
      (m bound : ℕ) (s : Selector D)
      → (o.mode == 0) ≡ false
      → Ok o l s
      → potential o l s ≤ bound
      → Next o l bound (if s.phase == 2 then phase_2 double o m s else (none, s))
  unfolding Next
  last-Next m bound s other k le = elim (Bool-cases (s.phase == 2)) [
    | inl two ↦
        rw two
          (Next-at o l (potential o l s) bound (phase_2 double o m s) le (phase_2-Next m s other k))
    | inr done ↦ rw done k.inv.bounded
  ]

  pub get_next_chunk_m1_m2_m3-Next :
      (m : ℕ) (late : Bool) (s : Selector D)
      → (o.mode == 0) ≡ false
      → o.max_num_chunks_test_allowed ≤ l
      → Ok o l s
      → Next o l (potential o l s) (get_next_chunk_m1_m2_m3 double o m late s)
  unfolding get_next_chunk_m1_m2_m3 Next
  get_next_chunk_m1_m2_m3-Next m true s other le k =
      finish-Next (m == 1) (potential o l s) (none, time_out double o m s)
        (rw (time_out-history m s) k.inv.bounded)
  get_next_chunk_m1_m2_m3-Next m false s other le k =
      finish-Next (m == 1) (potential o l s) _ (elim (Bool-cases (s.phase == 1)) [
        | inr late ↦ rw late (last-Next m (potential o l s) s other k (omega arith))
        | inl one ↦ elim (phase_1-Next double o l s le k) [
          | inl (c, t, p, phase', n) ↦
              let first : (t.phase == 2) ≡ false = ground arith in rw (one, p, first) n
          | inr (t, p, passed) ↦
              rw (one, p)
                (last-Next m (potential o l s) t other
                  (record { inv = passed.inv; level = λ z. Same-Level passed.same (k.level z) })
                  (Same-potential o l passed.same passed.most))
        ]
      ])
