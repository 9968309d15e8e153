-- ===== src/Tests/Chunks.antt =====
-- The theorems on the choice of a chunk size at concrete runs, with speeds that are numbers.
use dparallel_recursion.Common.{
  ℕ, ◌+◌, ◌*◌, ◌/◌, ◌≤◌, ◌≡◌, refl, true, false, Option, none, some, arith, ltb, List, [], ◌∷◌,
  length, ◌↔◌, ◌⊎◌,
}
use mathlib.Core.List.{Memᴰ}
use dparallel_recursion.ChunkSelector.{
  Double, ChunkAttr, ChunkOptions, Selector, last_score, discard_chunks, get_best_scored_chunk,
  tolerated, selector_init,
}
use dparallel_recursion.ChunkSelector.Keyed.{retain}
use dparallel_recursion.ChunkSelector.Rounds.{get_next_chunk, run_tests}
use dparallel_recursion.ChunkSelector.Ends.Search.{most_chunks, most_tests, run_tests-ends}
use dparallel_recursion.ChunkSelector.Options.{
  AutomaticChunkOptions, clamp_options, automatic_options, IsNearest, IsClamped,
  clamp_options-automatic_options,
}
use dparallel_recursion.Common.Int.{pos, negsuc}
use dparallel_recursion.ChunkSelector.Best.{discard_chunks-best}

abbrev defaults : ChunkOptions
defaults = record {
  init_tolerance = 60000;
  final_tolerance = 10000;
  max_num_chunks_test_allowed = 18;
  mode = 0;
  sub_mode = 7;
  calc_mode = 0;
}

-- The options of precision level 1, with a calculation below 0.
abbrev asked : AutomaticChunkOptions
asked = record {
  init_tolerance = pos 60000;
  final_tolerance = pos 10000;
  max_num_chunks_test_allowed = 18;
  mode = pos 0;
  sub_mode = pos 7;
  calc_mode = negsuc 0;
}

clamp_options-automatic_options_example :
    IsNearest 6 asked (automatic_options asked)
    × IsNearest 7 asked (clamp_options asked)
    × IsNearest 6 asked (clamp_options (automatic_options asked))
    × IsClamped (clamp_options asked)
    × ((clamp_options (automatic_options asked)).max_num_chunks_test_allowed ≡ 18)
clamp_options-automatic_options_example = clamp_options-automatic_options asked

-- The preset with the fewest tests is 7; what is chosen is 6.
preset_of_asked :
    ((automatic_options asked).sub_mode ≡ pos 6) × ((automatic_options asked).calc_mode ≡ pos 0)
unfolding automatic_options
preset_of_asked = (refl, refl)

insert_speed : ℕ → List ℕ → List ℕ
insert_speed x [] = x ∷ []
insert_speed x (y ∷ ys) = elim (ltb y x) [ true ↦ y ∷ insert_speed x ys | false ↦ x ∷ y ∷ ys ]

sort_speeds : List ℕ → List ℕ
unfolding insert_speed
sort_speeds [] = []
sort_speeds (x ∷ xs) = insert_speed x (sort_speeds xs)

-- Speeds in whole units.
abbrev whole : Double ℕ
whole = record {
  nought = 0;
  minus_one = 0;
  plus = λ x y. x + y;
  over = λ x n. x / n;
  gt = λ x y. ltb y x;
  sorted = sort_speeds;
  per_million = λ x y. x * 1000000 / y;
  share = λ x y. x * 1000000 / y;
  gradual = λ init final level levels. init;
}

abbrev speed_of : ℕ → Option ℕ
speed_of k = some 100

run_tests-ends_example :
    (t : Selector ℕ) × (run_tests whole defaults 1242 speed_of
        (λ k. false)
        (λ k b. false)
        (get_next_chunk whole defaults false (λ b. false) (selector_init whole defaults 3))
      ≡ some t)
    × (length t.history_of_chunks ≤ most_chunks defaults)
unfolding most_tests most_chunks
run_tests-ends_example =
    run_tests-ends whole defaults 3 1242 speed_of (λ k. false) (λ k b. false) (omega arith)

abbrev tested : Selector ℕ
tested = record {
  selected_chunks =
      (1, record { speed_arr = 10 ∷ []; score_arr = 500000 ∷ [] })
      ∷ (2, record { speed_arr = 20 ∷ []; score_arr = 1000000 ∷ [] })
      ∷ [];
  history_of_chunks = 1 ∷ 2 ∷ [];
  to_check_chunks = [];
  tolerance = 60000;
  phase = 1;
  best_speed_global = 20;
  phase2_i = 0;
  phase2_j = 0;
  actual_block = none;
}

discard_chunks-best_example :
    ((e : ℕ × ChunkAttr ℕ)
      → Memᴰ e (discard_chunks whole tested).selected_chunks ↔ (
          Memᴰ e tested.selected_chunks
          × ((v : ℕ)
              → last_score whole e.1.score_arr ≡ some v
              → (e.0 ≡ 2) ⊎ (1000000 ≤ v * 1000000 / 1000000 + 60000))))
    × ((a : ChunkAttr ℕ) × Memᴰ (2, a) (discard_chunks whole tested).selected_chunks
        × (last_score whole a.score_arr ≡ some 1000000))
    × ((e : ℕ × ChunkAttr ℕ) (v : ℕ)
        → Memᴰ e tested.selected_chunks
        → last_score whole e.1.score_arr ≡ some v
        → v ≤ 1000000)
unfolding get_best_scored_chunk last_score
discard_chunks-best_example = discard_chunks-best whole tested (2, 1000000) refl

-- The slower chunk goes.
discarded : length (discard_chunks whole tested).selected_chunks ≡ 1
unfolding discard_chunks get_best_scored_chunk tolerated last_score retain
discarded = refl
