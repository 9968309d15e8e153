-- ===== src/ChunkSelector/Options.antt =====
-- include/dparallel_recursion/ChunkSelector.h: the two constructors that clamp the options of a search,
-- one after the other.
use dparallel_recursion.Common.{ℕ, ◌≤◌, ◌≡◌, ◌==◌, max, ltb, if◌then◌else◌, arith}
use dparallel_recursion.Common.Int.{ℤ, pos, ◌≤ℤ◌, leb_ℤ, ltb_ℤ, is_zero}

-- The options that both constructors clamp.
pub record AutomaticChunkOptions : Type 0 where
  pub init_tolerance : ℤ
  pub final_tolerance : ℤ
  pub max_num_chunks_test_allowed : ℕ
  pub mode : ℤ
  pub sub_mode : ℤ
  pub calc_mode : ℤ

-- The constructor of ChunkSelector.
unfoldable pub clamp_options : AutomaticChunkOptions → AutomaticChunkOptions
clamp_options o =
    let init = if ltb_ℤ (pos 0) o.init_tolerance then o.init_tolerance else pos 1 in
    let mode =
      if ltb_ℤ o.mode (pos 4) then (if leb_ℤ (pos 0) o.mode then o.mode else pos 0) else pos 3 in
    let sub_mode = if leb_ℤ (pos 0) o.sub_mode then o.sub_mode else pos 0 in
    record {
      init_tolerance = init;
      final_tolerance = if leb_ℤ o.final_tolerance init then o.final_tolerance else init;
      max_num_chunks_test_allowed =
          if ltb 0 o.max_num_chunks_test_allowed
          then (if ltb o.max_num_chunks_test_allowed 5 then 5 else o.max_num_chunks_test_allowed)
          else 50;
      mode = mode;
      sub_mode =
          if is_zero mode then (if ltb_ℤ o.sub_mode (pos 8) then sub_mode else pos 7) else sub_mode;
      calc_mode =
          if ltb_ℤ o.calc_mode (pos 3)
          then (if leb_ℤ (pos 0) o.calc_mode then o.calc_mode else pos 0)
          else pos 2;
    }

-- The constructor of AutomaticChunkOptions, before that.
unfoldable pub automatic_options : AutomaticChunkOptions → AutomaticChunkOptions
automatic_options o =
    let init = if ltb_ℤ (pos 0) o.init_tolerance then o.init_tolerance else pos 1 in
    let mode =
      if ltb_ℤ o.mode (pos 4) then (if leb_ℤ (pos 0) o.mode then o.mode else pos 0) else pos 3 in
    let sub_mode = if leb_ℤ (pos 0) o.sub_mode then o.sub_mode else pos 0 in
    record {
      init_tolerance = init;
      final_tolerance = if leb_ℤ o.final_tolerance init then o.final_tolerance else init;
      max_num_chunks_test_allowed = o.max_num_chunks_test_allowed;
      mode = mode;
      sub_mode =
          if is_zero mode then (if ltb_ℤ o.sub_mode (pos 7) then sub_mode else pos 6) else sub_mode;
      calc_mode =
          if ltb_ℤ o.calc_mode (pos 3)
          then (if leb_ℤ (pos 0) o.calc_mode then o.calc_mode else pos 0)
          else pos 2;
    }

-- The limits that the selector relies on.
pub record IsClamped (o : AutomaticChunkOptions) : Type 0 where
  pub tolerant : pos 1 ≤ℤ o.init_tolerance
  pub narrower : o.final_tolerance ≤ℤ o.init_tolerance
  pub several : 5 ≤ o.max_num_chunks_test_allowed
  pub some_mode : pos 0 ≤ℤ o.mode
  pub known_mode : o.mode ≤ℤ pos 3
  pub some_preset : pos 0 ≤ℤ o.sub_mode
  pub known_preset : o.mode ≡ pos 0 → o.sub_mode ≤ℤ pos 7
  pub some_score : pos 0 ≤ℤ o.calc_mode
  pub known_score : o.calc_mode ≤ℤ pos 2

abbrev max_ℤ : ℤ → ℤ → ℤ
max_ℤ a b = if leb_ℤ a b then b else a

abbrev min_ℤ : ℤ → ℤ → ℤ
min_ℤ a b = if leb_ℤ a b then a else b

-- The integer from 0 to `most` that is nearest.
abbrev clip : ℕ → ℤ → ℤ
clip most a = max_ℤ (pos 0) (min_ℤ a (pos most))

-- Each option of `c` is the nearest one to what `o` asks for: tolerances from 1 on, the final one up to
-- the initial one, a mode up to 3, a preset up to `most_preset` where the mode asked for is 0 or less, any
-- number of rounds where it is not, and a calculation up to 2.
pub record IsNearest (most_preset : ℕ) (o c : AutomaticChunkOptions) : Type 0 where
  pub tolerance_from_1 : c.init_tolerance ≡ max_ℤ (pos 1) o.init_tolerance
  pub final_below : c.final_tolerance ≡ min_ℤ o.final_tolerance (max_ℤ (pos 1) o.init_tolerance)
  pub nearest_mode : c.mode ≡ clip 3 o.mode
  pub nearest_sub_mode :
      c.sub_mode
      ≡ (if leb_ℤ o.mode (pos 0) then clip most_preset o.sub_mode else max_ℤ (pos 0) o.sub_mode)
  pub nearest_calc_mode : c.calc_mode ≡ clip 2 o.calc_mode

clamp_options-IsClamped : (o : AutomaticChunkOptions) → IsClamped (clamp_options o)
unfolding clamp_options
clamp_options-IsClamped o = record {
  tolerant = ground arith;
  narrower = ground arith;
  several = ground arith;
  some_mode = ground arith;
  known_mode = ground arith;
  some_preset = ground arith;
  known_preset = ground arith;
  some_score = ground arith;
  known_score = ground arith;
}

clamp_options-IsNearest : (o : AutomaticChunkOptions) → IsNearest 7 o (clamp_options o)
unfolding clamp_options
clamp_options-IsNearest o = record {
  tolerance_from_1 = ground arith;
  final_below = ground arith;
  nearest_mode = ground arith;
  nearest_sub_mode = ground arith;
  nearest_calc_mode = ground arith;
}

automatic_options-IsNearest : (o : AutomaticChunkOptions) → IsNearest 6 o (automatic_options o)
unfolding automatic_options
automatic_options-IsNearest o = record {
  tolerance_from_1 = ground arith;
  final_below = ground arith;
  nearest_mode = ground arith;
  nearest_sub_mode = ground arith;
  nearest_calc_mode = ground arith;
}

both-IsNearest : (o : AutomaticChunkOptions) → IsNearest 6 o (clamp_options (automatic_options o))
unfolding clamp_options automatic_options
both-IsNearest o = record {
  tolerance_from_1 = ground arith;
  final_below = ground arith;
  nearest_mode = ground arith;
  nearest_sub_mode = ground arith;
  nearest_calc_mode = ground arith;
}

-- For any options, negative ones too: each constructor gives the nearest options to those asked for,
-- with presets up to 6 in that of AutomaticChunkOptions and up to 7 in that of ChunkSelector, and
-- one after the other with presets up to 6; what ChunkSelector is made with is then within its
-- limits, with at least 5 chunks, or 50 if none were asked for.
pub clamp_options-automatic_options :
    (o : AutomaticChunkOptions)
    → IsNearest 6 o (automatic_options o)
      × IsNearest 7 o (clamp_options o)
      × IsNearest 6 o (clamp_options (automatic_options o))
      × IsClamped (clamp_options o)
      × ((clamp_options (automatic_options o)).max_num_chunks_test_allowed ≡ (
          if o.max_num_chunks_test_allowed == 0 then 50 else max 5 o.max_num_chunks_test_allowed))
unfolding clamp_options automatic_options
clamp_options-automatic_options o = (
  automatic_options-IsNearest o,
  clamp_options-IsNearest o,
  both-IsNearest o,
  clamp_options-IsClamped o,
  ground arith,
)
