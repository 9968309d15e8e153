-- ===== src/ChunkSelector/Rounds.antt =====
-- include/dparallel_recursion/ChunkSelector.h: getNextChunk in its modes, and the loop over tests of
-- `run_test` in parallel_stack_recursion.h.
use dparallel_recursion.Common.{
  ℕ, zero, suc, ◌+◌, ◌-◌, Bool, true, ◌&&◌, Option, none, some, ltb, leb, ◌==◌, if◌then◌else◌, List,
  [], ◌∷◌, ◌++◌, length,
}
use dparallel_recursion.ChunkSelector.Keyed.{IntMap, keys}
use dparallel_recursion.ChunkSelector.{
  Double, ChunkAttr, ChunkOptions, Selector, set_chunk_speed, calculate_score, discard_worst_chunk,
  discard_chunks, add_neighbors,
}

abbrev row : ℕ → ℕ → ℕ → ℕ → ℕ → ℕ
row a b c d level =
    if level == 0 then a else (if level == 1 then b else (if level == 2 then c else d))

-- nLevelTestsPresets[subMode][level]
unfoldable pub level_tests : ℕ → ℕ → ℕ
level_tests sub_mode level =
    if sub_mode == 0
    then row 2 4 6 16 level
    else (if sub_mode == 1
        then row 2 4 6 8 level
        else (if sub_mode == 2
            then row 1 2 3 8 level
            else (if sub_mode == 3
                then row 1 2 3 4 level
                else (if sub_mode == 4
                    then row 1 1 2 8 level
                    else (if sub_mode == 5
                        then row 1 1 2 4 level
                        else (if sub_mode == 6 then row 1 1 1 4 level else row 1 1 1 2 level))))))

module _ {ℓ} {D : Type ℓ} (double : Double D) (o : ChunkOptions) where
  -- getLevelTolerance, for a level that is not negative.
  unfoldable pub get_level_tolerance : ℕ → ℕ → ℕ
  get_level_tolerance level max_level =
      if leb max_level level
      then o.final_tolerance
      else double.gradual o.init_tolerance o.final_tolerance level max_level

  -- r = toCheckChunks.front(), toCheckChunks.pop(), where there is one
  unfoldable pub pop_front : Selector D → Option ℕ × Selector D
  pop_front s = elim s.to_check_chunks [
    | [] ↦ (none, s)
    | c ∷ cs ↦ (some c, record s { to_check_chunks = cs })
  ]

  -- Phase 1. Where there is nothing more to explore, phase 2 begins.
  unfoldable pub phase_1 : Selector D → Option ℕ × Selector D
  unfolding pop_front
  phase_1 s = elim (pop_front s).0 [
    | some c ↦ pop_front s
    | none ↦
        let s' = add_neighbors double o (discard_chunks double (calculate_score double o s)) in
        elim (pop_front s').0 [
          | some c ↦ pop_front s'
          | none ↦ (none, record s' { phase = s'.phase + 1 })
        ]
  ]

  -- The end of a round of phase 2, in the modes 1, 2 and 3.
  unfoldable pub end_round : ℕ → Selector D → Selector D
  unfolding get_level_tolerance
  end_round m s =
      let s' = calculate_score double o s in
      if m == 3
      then discard_worst_chunk double s'
      else (if m == 1
          then (record (discard_chunks double s') {
            tolerance = get_level_tolerance s'.phase2_i o.sub_mode;
          })
          else s')

  unfoldable pub refill : Selector D → Selector D
  refill s = record s { to_check_chunks = s.to_check_chunks ++ keys s.selected_chunks }

  unfoldable pub phase_2 : ℕ → Selector D → Option ℕ × Selector D
  unfolding pop_front end_round refill
  phase_2 m s = elim (pop_front s).0 [
    | some c ↦ pop_front s
    | none ↦
        let s' = end_round m s in
        let (r, t) = pop_front (refill s') in
        if ltb 1 (length s'.selected_chunks) && ltb s'.phase2_i o.sub_mode
        then (r, record t { phase2_i = t.phase2_i + 1 })
        else (none, s')
  ]

  -- After the last test the scores are computed once more.
  unfoldable pub finish : Bool → Option ℕ × Selector D → Option ℕ × Selector D
  finish discard p = elim p.0 [
    | some c ↦ p
    | none ↦
        let s' = calculate_score double o p.1 in
        (none, if discard then discard_chunks double s' else s')
  ]

  unfoldable pub time_out : ℕ → Selector D → Selector D
  time_out m s =
      let s' = calculate_score double o s in
      if (m == 3) && ltb 1 s'.phase
      then discard_worst_chunk double s'
      else (if m == 1 then (record s' { tolerance = o.final_tolerance }) else s')

  -- getNextChunk_m1_m2_m3: `late` says that there is a time limit, and that it has passed.
  unfoldable pub get_next_chunk_m1_m2_m3 : ℕ → Bool → Selector D → Option ℕ × Selector D
  unfolding phase_1 phase_2 finish time_out
  get_next_chunk_m1_m2_m3 m late s =
      let first = if s.phase == 1 then phase_1 s else (none, s) in
      let both = if first.1.phase == 2 then phase_2 m first.1 else first in
      finish (m == 1) (if late then (none, time_out m s) else both)

  -- The chunks from `who_next` on, and then those before it.
  unfoldable pub from_chunk : (ℕ → Bool) → List ℕ → List ℕ
  from_chunk p [] = []
  from_chunk p (c ∷ cs) = let rest = from_chunk p cs in if p c then c ∷ rest else rest

  unfoldable pub rotated : ℕ → List ℕ → List ℕ
  unfolding from_chunk
  rotated who_next cs = from_chunk (λ c. leb who_next c) cs ++ from_chunk (λ c. ltb c who_next) cs

  -- The chunk with the fewest tests; the first `whoNext`, -1, comes before all chunks, as 0 does.
  unfoldable pub least_tested : ℕ × Option ℕ → IntMap (ChunkAttr D) → ℕ
  least_tested found [] = found.0
  least_tested found (e ∷ es) =
      least_tested
        (elim found.1 [
          | none ↦ (e.0, some (length e.1.speed_arr))
          | some size ↦
              if ltb (length e.1.speed_arr) size then (e.0, some (length e.1.speed_arr)) else found
        ])
        es

  abbrev pub levels : ℕ
  levels = 4

  -- One round of the loop on the partial time limits, which skips to the next level.
  unfoldable pub skip_level : ℕ → Selector D → Selector D
  unfolding get_level_tolerance rotated
  skip_level block s =
      let who_next : ℕ = elim s.to_check_chunks [ [] ↦ 0 | c ∷ cs ↦ c ] in
      let s' = discard_chunks double (calculate_score double o s) in
      record s' {
        to_check_chunks =
            if ltb 1 (length s'.selected_chunks) && ltb (block + 1) levels
            then rotated who_next (keys s'.selected_chunks)
            else [];
        phase2_j = 1;
        phase2_i = block + 1;
        actual_block = some (block + 1);
        tolerance = get_level_tolerance (block + 1) levels;
      }

  -- The loop itself: `block_late` says that the time of a level has passed.
  unfoldable pub skip_levels : ℕ → (ℕ → Bool) → Selector D → Selector D
  unfolding skip_level
  skip_levels zero block_late s = s
  skip_levels (suc fuel) block_late s = elim s.actual_block [
    | none ↦ s
    | some block ↦
        let again = skip_levels fuel block_late (skip_level block s) in
        if ltb block (levels - 1) && block_late block then again else s
  ]

  -- The next iteration of a level, or the first of the next level.
  unfoldable pub next_iteration : Selector D → Selector D
  next_iteration s =
      if leb (level_tests o.sub_mode s.phase2_i) (s.phase2_j + 1)
      then (record s { actual_block = some s.phase2_i; phase2_j = 0; phase2_i = s.phase2_i + 1 })
      else (record s { actual_block = some s.phase2_i; phase2_j = s.phase2_j + 1 })

  unfoldable pub refill_m0 : Selector D → Selector D
  unfolding rotated least_tested get_level_tolerance
  refill_m0 s = record s {
    tolerance = get_level_tolerance s.phase2_i levels;
    to_check_chunks =
        s.to_check_chunks
        ++ rotated (least_tested (0, none) s.selected_chunks) (keys s.selected_chunks);
  }

  unfoldable pub phase_2_m0 : Selector D → Option ℕ × Selector D
  unfolding pop_front refill_m0 next_iteration
  phase_2_m0 s = elim (pop_front s).0 [
    | some c ↦ pop_front s
    | none ↦
        let s' = discard_chunks double (calculate_score double o s) in
        let (r, t) = pop_front (refill_m0 s') in
        if ltb 1 (length s'.selected_chunks) && ltb s'.phase2_i levels
        then (r, next_iteration t)
        else (none, s')
  ]

  -- getNextChunk_m0
  unfoldable pub get_next_chunk_m0 : Bool → (ℕ → Bool) → Selector D → Option ℕ × Selector D
  unfolding phase_1 phase_2_m0 finish skip_levels
  get_next_chunk_m0 late block_late s =
      let first = if s.phase == 1 then phase_1 s else (none, s) in
      let both =
        if first.1.phase == 2 then phase_2_m0 (skip_levels levels block_late first.1) else first in
      finish true (if late then (none, record s { tolerance = o.final_tolerance }) else both)

  -- getNextChunk
  unfoldable pub get_next_chunk : Bool → (ℕ → Bool) → Selector D → Option ℕ × Selector D
  unfolding get_next_chunk_m1_m2_m3 get_next_chunk_m0
  get_next_chunk late block_late s =
      if o.mode == 0
      then get_next_chunk_m0 late block_late s
      else get_next_chunk_m1_m2_m3 o.mode late s

  -- while (checkNo > 0): the tests one after another. `speeds` tells of each test its speed, or that it
  -- failed, and the clock at the call that follows it. `none` is fuel that ran out.
  unfoldable pub run_tests :
      ℕ → (ℕ → Option D) → (ℕ → Bool) → (ℕ → ℕ → Bool) → Option ℕ × Selector D → Option (Selector D)
  unfolding get_next_chunk set_chunk_speed
  run_tests fuel speeds late block_late (none, s) = some s
  run_tests zero speeds late block_late (some c, s) = none
  run_tests (suc fuel) speeds late block_late (some c, s) = elim (speeds fuel) [
    | none ↦ some s
    | some v ↦
        run_tests fuel speeds late block_late
          (get_next_chunk (late fuel) (block_late fuel) (set_chunk_speed double c v s))
  ]
