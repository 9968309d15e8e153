-- ===== src/ChunkSelector/Ends/Iterations.antt =====
-- include/dparallel_recursion/ChunkSelector.h: phase 2 of mode 0, whose rounds are the iterations of its levels.
use dparallel_recursion.Common.{
  ℕ, suc, ◌+◌, ◌-◌, ◌*◌, ◌≤◌, ◌<◌, ◌≡◌, refl, sym, ap, subst, ◌∙◌, Bool, true, false, ◌&&◌, arith,
  none, ltb, leb, ltb→lt, leb→lt, ◌==◌, ==_iff, if◌then◌else◌, ◌∷◌, ◌++◌, length, length-append,
  Bool-cases, some_injective, and_parts, inl, inr,
}
use dparallel_recursion.ChunkSelector.Keyed.{keys, has, length-keys}
use dparallel_recursion.ChunkSelector.{
  Double, ChunkOptions, Selector, calculate_score, discard_chunks,
}
use dparallel_recursion.ChunkSelector.Rounds.{
  level_tests, levels, rotated, skip_levels, next_iteration, least_tested, refill_m0, phase_2_m0,
  get_next_chunk_m0,
}
use dparallel_recursion.ChunkSelector.Bounds.{
  Inv, Shrinks-trans, calculate_score-Shrinks, discard_chunks-Shrinks,
}
use dparallel_recursion.ChunkSelector.Queue.{slack, popped, pop_front-cases}
use dparallel_recursion.ChunkSelector.Ends.{
  Next-at, Same-potential, potential, Level, Ok, Next, Same-Level, shrunk-Inv, round-less,
}
use dparallel_recursion.ChunkSelector.Ends.Explore.{taken-Next, phase_1-Next}
use dparallel_recursion.ChunkSelector.Ends.Modes.{filled-Next, finish-Next}
use dparallel_recursion.ChunkSelector.Ends.Levels.{
  level_tests-le, length-rotated, rounds-zeroth, early-queue, skip_levels-Skipped,
}

fewer_rounds : (x i i' j j' : ℕ) → i' ≡ i → j' ≡ j → x < 17 * (4 - i') - j' → x < 17 * (4 - i) - j
fewer_rounds x i i' j j' e e' less = omega arith

module _ {ℓ} {D : Type ℓ} (double : Double D) (o : ChunkOptions) (l : ℕ) where
  -- One iteration of a level, or a new level.
  next_iteration-Level :
      (s : Selector D)
      → s.phase2_i < 4
      → s.phase2_j ≤ 15
      → Level (next_iteration double o s)
        × (17 * (4 - (next_iteration double o s).phase2_i) - (next_iteration double o s).phase2_j
            < 17 * (4 - s.phase2_i) - s.phase2_j)
  unfolding next_iteration
  next_iteration-Level s lt few =
      elim (Bool-cases (leb (level_tests o.sub_mode s.phase2_i) (s.phase2_j + 1))) [
        | inl over ↦ rw over (
          record {
            few = omega arith;
            running = λ b e. inr (omega (arith, some_injective s.phase2_i b e), refl);
          },
          omega (arith, lt, few),
        )
        | inr again ↦ rw again (
          record {
            few = omega (
              arith,
              level_tests-le o.sub_mode s.phase2_i,
              leb→lt (level_tests o.sub_mode s.phase2_i) (s.phase2_j + 1) again,
            );
            running = λ b e. inl (some_injective s.phase2_i b e);
          },
          omega (arith, lt, few),
        )
      ]

  next_iteration-Inv :
      (c : ℕ) (s : Selector D)
      → Inv l s
      → has c s.selected_chunks ≡ true
      → Inv l (next_iteration double o s)
        × (has c (next_iteration double o s).selected_chunks ≡ true)
        × (slack l (next_iteration double o s) ≡ slack l s)
  unfolding next_iteration slack
  next_iteration-Inv c s i own =
      elim (Bool-cases (leb (level_tests o.sub_mode s.phase2_i) (s.phase2_j + 1))) [
        | inl over ↦
            rw over (record { small = i.small; bounded = i.bounded; queued = i.queued }, own, refl)
        | inr again ↦
            rw again (record { small = i.small; bounded = i.bounded; queued = i.queued }, own, refl)
      ]

  phase_2_m0-Next :
      (s : Selector D)
      → (o.mode == 0) ≡ true
      → Ok o l s
      → Next o l (potential o l s) (phase_2_m0 double o s)
  unfolding phase_2_m0 Next potential refill_m0 slack
  phase_2_m0-Next s m k = elim (pop_front-cases double o s) [
    | inr (c, cs, e, p) ↦ rw (p, phase_2_m0) (rw p (taken-Next double o l c cs s e k))
    | inl (e, p) ↦
        let s' = discard_chunks double (calculate_score double o s) in
        let shrunk =
          Shrinks-trans double (calculate_score-Shrinks double o s)
            (discard_chunks-Shrinks double _) in
        let (i', same) = shrunk-Inv l e shrunk k.inv in
        let w = least_tested double o (0, none) s'.selected_chunks in
        let qs = rotated double o w (keys s'.selected_chunks) in
        let v = k.level ((==_iff o.mode 0).0 m) in
        elim (Bool-cases (ltb 1 (length s'.selected_chunks) && ltb s'.phase2_i 4)) [
          | inr done ↦ rw (p, phase_2_m0, done) i'.bounded
          | inl more ↦
              let (two, round) = and_parts _ _ more in
              elim (pop_front-cases double o (refill_m0 double o s')) [
                | inl (e', p') ↦
                    let none_left : length (s'.to_check_chunks ++ qs) ≡ 0 = ap length e' in
                    absurd (
                      omega (
                        arith,
                        none_left,
                        length-append s'.to_check_chunks qs,
                        length-rotated double o w (keys s'.selected_chunks),
                        length-keys s'.selected_chunks,
                        ltb→lt 1 (length s'.selected_chunks) two,
                      ))
                | inr (c, cs, e', p') ↦
                    let e'' : qs ≡ c ∷ cs = sym (ap (λ q. q ++ qs) (shrunk.same_queue ∙ e)) ∙ e' in
                    let (few, has_own) = early-queue double o l true w s'.selected_chunks in
                    let (i, own, less) = filled-Next double o l c cs qs s' e'' few has_own i' in
                    let (v', round') =
                      next_iteration-Level (popped cs (refill_m0 double o s'))
                        (ltb→lt s'.phase2_i 4 round) (omega (arith, shrunk.same_j, v.few)) in
                    let t = popped cs (refill_m0 double o s') in
                    let (i'', own', less') =
                      next_iteration-Inv c t
                        (record { small = i.small; bounded = i.bounded; queued = i.queued }) own in
                    rw (p, phase_2_m0, more, p')
                      (
                        record { inv = i''; level = λ z. v' },
                        own',
                        rw
                            (
                              rounds-zeroth double o s m,
                              rounds-zeroth double o (next_iteration double o t) m,
                            )
                            (round-less (slack l (next_iteration double o t)) l _ _ (slack l s)
                              (subst (λ x. suc x ≤ l) (sym less') less)
                              (fewer_rounds _ _ _ _ _ shrunk.same_i shrunk.same_j round')),
                      )
              ]
        ]
  ]

  last_m0-Next :
      (bound : ℕ) (s : Selector D)
      → (o.mode == 0) ≡ true
      → Ok o l s
      → potential o l s ≤ bound
      → Next o l bound (phase_2_m0 double o s)
  last_m0-Next bound s m k le =
      Next-at o l (potential o l s) bound (phase_2_m0 double o s) le (phase_2_m0-Next s m k)

  pub get_next_chunk_m0-Next :
      (late : Bool) (block_late : ℕ → Bool) (s : Selector D)
      → (o.mode == 0) ≡ true
      → o.max_num_chunks_test_allowed ≤ l
      → Ok o l s
      → Next o l (potential o l s) (get_next_chunk_m0 double o late block_late s)
  unfolding get_next_chunk_m0 Next
  get_next_chunk_m0-Next true block_late s m le k =
      finish-Next double o l true (potential o l s)
        (none, record s { tolerance = o.final_tolerance }) k.inv.bounded
  get_next_chunk_m0-Next false block_late s m le k =
      finish-Next double o l true (potential o l s) _ (elim (Bool-cases (s.phase == 1)) [
        | inr after ↦ rw after (level_run s (omega arith) k)
        | inl one ↦ elim (phase_1-Next double o l s le k) [
          | inl (c, t, p, phase', n) ↦
              let first : (t.phase == 2) ≡ false = ground arith in rw (one, p, first) n
          | inr (t, p, passed) ↦
              rw (one, p)
                (level_run t (Same-potential o l passed.same passed.most)
                  (record { inv = passed.inv; level = λ z. Same-Level passed.same (k.level z) }))
        ]
      ])
    where
      level_run :
          (t : Selector D)
          → potential o l t ≤ potential o l s
          → Ok o l t
          → Next o l (potential o l s) (
              if t.phase == 2
              then phase_2_m0 double o (skip_levels double o (levels double o) block_late t)
              else (none, t))
      level_run t less ok = elim (Bool-cases (t.phase == 2)) [
        | inr over ↦ rw over ok.inv.bounded
        | inl two ↦
            let u = skip_levels-Skipped double o l (levels double o) block_late t m ok in
            rw two (last_m0-Next (potential o l s) _ m u.ok (omega (arith, u.most, less)))
      ]
