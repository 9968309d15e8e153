-- ===== src/ChunkSelector.antt =====
-- include/dparallel_recursion/ChunkSelector.h: the search for a chunk size by test runs. Speeds are
-- floating-point numbers, of which `Double` gives the operations; chunks and scores are numbers. A call of
-- the clock is an argument: whether the time limit has passed.
pub mod Keyed
pub mod Rounds
pub mod Bounds
pub mod Queue
pub mod Ends
pub mod Best
pub mod Options
use dparallel_recursion.Common.{
  ℕ, zero, suc, ◌+◌, ◌-◌, ◌/◌, ◌%◌, ◌≤◌, ◌<◌, ◌≡◌, Bool, true, false, not, ◌&&◌, ◌||◌, Option, none,
  some, ltb, leb, ◌==◌, if◌then◌else◌, List, [], ◌∷◌, ◌++◌, length,
}
use dparallel_recursion.ChunkSelector.Keyed.{
  IntMap, mem, set_insert, keys, has, at_key, map_values, retain,
}

-- `per_million x y` is static_cast<int>(std::round(x / y * 1000000.0)), `share a b` the same for the
-- integers a and b with no rounding, and `gradual init final level levels` the tolerance of a level,
-- `init - stepTol * (level + 1)`. `sorted` is std::sort on the speeds.
pub record Double {ℓ} (D : Type ℓ) : Type ℓ where
  pub nought : D
  pub minus_one : D
  pub plus : D → D → D
  pub over : D → ℕ → D
  pub gt : D → D → Bool
  pub sorted : List D → List D
  pub per_million : D → D → ℕ
  pub share : ℕ → ℕ → ℕ
  pub gradual : ℕ → ℕ → ℕ → ℕ → ℕ

pub record ChunkAttr {ℓ} (D : Type ℓ) : Type ℓ where
  pub speed_arr : List D
  pub score_arr : List ℕ

-- The options of a search, as the constructor of ChunkSelector leaves them; a final tolerance below 0 is
-- not covered by it.
pub record ChunkOptions : Type 0 where
  pub init_tolerance : ℕ
  pub final_tolerance : ℕ
  pub max_num_chunks_test_allowed : ℕ
  pub mode : ℕ
  pub sub_mode : ℕ
  pub calc_mode : ℕ

pub record Selector {ℓ} (D : Type ℓ) : Type ℓ where
  pub selected_chunks : IntMap (ChunkAttr D)
  pub history_of_chunks : List ℕ
  pub to_check_chunks : List ℕ
  pub tolerance : ℕ
  pub phase : ℕ
  pub best_speed_global : D
  pub phase2_i : ℕ
  pub phase2_j : ℕ
  pub actual_block : Option ℕ

module _ {ℓ} {D : Type ℓ} (double : Double D) where
  open double use {nought, minus_one, plus, over, gt, sorted, per_million, share, gradual}

  abbrev pub chunk_attr : ChunkAttr D
  chunk_attr = record { speed_arr = []; score_arr = [] }

  unfoldable pub mandatory_chunks : IntMap (ChunkAttr D)
  mandatory_chunks =
      (1, chunk_attr) ∷ (2, chunk_attr) ∷ (4, chunk_attr) ∷ (8, chunk_attr) ∷ (20, chunk_attr) ∷ []

  unfoldable pub selector_init : ChunkOptions → ℕ → Selector D
  unfolding mandatory_chunks at_key
  selector_init o default_chunk =
      let added = at_key chunk_attr default_chunk (λ a. a) mandatory_chunks in
      let selected = if ltb 0 default_chunk then added else mandatory_chunks in
      record {
        selected_chunks = selected;
        history_of_chunks = keys selected;
        to_check_chunks = keys selected;
        tolerance = o.init_tolerance;
        phase = 1;
        best_speed_global = minus_one;
        phase2_i = 0;
        phase2_j = 0;
        actual_block = none;
      }

  unfoldable pub sum_speeds : D → List D → D
  sum_speeds acc [] = acc
  sum_speeds acc (x ∷ xs) = sum_speeds (plus acc x) xs

  unfoldable pub calculate_mean : List D → D
  unfolding sum_speeds
  calculate_mean [] = nought
  calculate_mean (x ∷ xs) = over (sum_speeds nought (x ∷ xs)) (length (x ∷ xs))

  unfoldable pub nth_speed : List D → ℕ → D
  nth_speed [] i = nought
  nth_speed (x ∷ xs) zero = x
  nth_speed (x ∷ xs) (suc i) = nth_speed xs i

  unfoldable pub calculate_median : List D → D
  unfolding nth_speed calculate_mean
  calculate_median xs =
      let size = length xs in
      let v = sorted xs in
      if size == 0
      then nought
      else (if size % 2 == 0
          then calculate_mean (nth_speed v (size / 2 - 1) ∷ nth_speed v (size / 2) ∷ [])
          else nth_speed v (size / 2))

  -- std::max_element, from the element `best` on
  unfoldable pub max_speed : D → List D → D
  max_speed best [] = best
  max_speed best (x ∷ xs) = max_speed (if gt x best then x else best) xs

  -- setChunkSpeed
  unfoldable pub set_chunk_speed : ℕ → D → Selector D → Selector D
  unfolding at_key
  set_chunk_speed chunk speed s = record s {
    selected_chunks =
        at_key chunk_attr chunk (λ a. record a { speed_arr = a.speed_arr ++ speed ∷ [] })
          s.selected_chunks;
    best_speed_global = if gt speed s.best_speed_global then speed else s.best_speed_global;
  }

  -- scoreArr.back(), where there is one
  unfoldable pub last_score : List ℕ → Option ℕ
  last_score [] = none
  last_score (x ∷ []) = some x
  last_score (x ∷ y ∷ ys) = last_score (y ∷ ys)

  -- getWorstScoredChunk, from the pair of the loop so far: the chunk, if any, and the score.
  unfoldable pub get_worst_scored_chunk : Option ℕ × ℕ → IntMap (ChunkAttr D) → Option ℕ × ℕ
  unfolding last_score
  get_worst_scored_chunk found [] = found
  get_worst_scored_chunk found (e ∷ es) =
      get_worst_scored_chunk
        (elim (last_score e.1.score_arr) [
          | none ↦ found
          | some v ↦ if ltb v found.1 then (some e.0, v) else found
        ])
        es

  -- getBestScoredChunk: scores are not negative, so any beats the first bestScore, -1.
  unfoldable pub get_best_scored_chunk : Option (ℕ × ℕ) → IntMap (ChunkAttr D) → Option (ℕ × ℕ)
  unfolding last_score
  get_best_scored_chunk found [] = found
  get_best_scored_chunk found (e ∷ es) =
      get_best_scored_chunk
        (elim (last_score e.1.score_arr) [
          | none ↦ found
          | some v ↦ elim found [
            | none ↦ some (e.0, v)
            | some b ↦ if ltb b.1 v then some (e.0, v) else some b
          ]
        ])
        es

  -- getBestMeanSpeedChunk and getBestMedianSpeedChunk, for the measure of the speeds.
  unfoldable pub get_best_speed_chunk :
      (List D → D) → Option ℕ × D → IntMap (ChunkAttr D) → Option ℕ × D
  get_best_speed_chunk measure found [] = found
  get_best_speed_chunk measure found (e ∷ es) =
      let v = measure e.1.speed_arr in
      get_best_speed_chunk measure (if gt v found.1 then (some e.0, v) else found) es

  -- scoreArr.back() = score
  unfoldable pub set_last : List ℕ → ℕ → List ℕ
  set_last [] v = []
  set_last (x ∷ []) v = v ∷ []
  set_last (x ∷ y ∷ ys) v = x ∷ set_last (y ∷ ys) v

  -- The body of the loop over one chunk in calculateScore: a new score, or a new last one.
  unfoldable pub put_score : ℕ → ℕ → List ℕ → List ℕ
  unfolding set_last
  put_score v speeds scores =
      if ltb (length scores) speeds then scores ++ v ∷ [] else set_last scores v

  -- while (first || i < speeds - scores), at most `fuel` rounds; the difference is read in each.
  unfoldable pub score_loop : ℕ → ℕ → ℕ → Bool → ℕ → List ℕ → List ℕ
  unfolding put_score
  score_loop zero v speeds first i scores = scores
  score_loop (suc fuel) v speeds first i scores =
      let again = score_loop fuel v speeds false (i + 1) (put_score v speeds scores) in
      if first || ltb i (speeds - length scores) then again else scores

  unfoldable pub score_chunk : (List D → ℕ) → ChunkAttr D → ChunkAttr D
  unfolding score_loop
  score_chunk score a = record a {
    score_arr =
        score_loop (length a.speed_arr + 1) (score a.speed_arr) (length a.speed_arr)
          (ltb 0 (length a.speed_arr)) 0 a.score_arr;
  }

  unfoldable pub best_of : List D → D
  unfolding max_speed
  best_of [] = nought
  best_of (x ∷ xs) = max_speed x xs

  -- calculateScore_m0 and calculateScore_m1
  unfoldable pub score_by : (List D → D) → Selector D → Selector D
  unfolding get_best_speed_chunk score_chunk
  score_by measure s =
      let best = get_best_speed_chunk measure (none, minus_one) s.selected_chunks in
      elim best.0 [
        | none ↦ s
        | some c ↦ record s {
          selected_chunks =
              map_values (score_chunk (λ speeds. per_million (measure speeds) best.1))
                s.selected_chunks;
        }
      ]

  -- calculateScore, by calcMode
  unfoldable pub calculate_score : ChunkOptions → Selector D → Selector D
  unfolding score_by calculate_mean calculate_median best_of score_chunk
  calculate_score o s =
      if o.calc_mode == 2
      then (record s {
        selected_chunks =
            map_values (score_chunk (λ speeds. per_million (best_of speeds) s.best_speed_global))
              s.selected_chunks;
      })
      else (if o.calc_mode == 1 then score_by calculate_median s else score_by calculate_mean s)

  abbrev pub int_max : ℕ
  int_max = 2147483647

  -- discardWorstChunk; chunks are above 0.
  unfoldable pub discard_worst_chunk : Selector D → Selector D
  unfolding get_worst_scored_chunk
  discard_worst_chunk s =
      if ltb 1 (length s.selected_chunks)
      then (elim (get_worst_scored_chunk (none, int_max) s.selected_chunks).0 [
        | none ↦ s
        | some worst ↦ record s {
          selected_chunks = retain (λ c a. not (c == worst)) s.selected_chunks;
        }
      ])
      else s

  -- Whether discardChunks leaves a chunk, given the best one and its score.
  unfoldable pub tolerated : ℕ → ℕ × ℕ → ℕ → ChunkAttr D → Bool
  unfolding last_score
  tolerated tolerance best c a = c == best.0 || elim (last_score a.score_arr) [
    | none ↦ true
    | some v ↦ leb (1000000 - tolerance) (share v best.1)
  ]

  unfoldable pub discard_chunks : Selector D → Selector D
  unfolding get_best_scored_chunk tolerated
  discard_chunks s = elim (get_best_scored_chunk none s.selected_chunks) [
    | none ↦ s
    | some best ↦ record s {
      selected_chunks = retain (tolerated s.tolerance best) s.selected_chunks;
    }
  ]

  unfoldable pub insert_new : List ℕ → ℕ → List ℕ → List ℕ
  insert_new history c to_add = if mem c history then to_add else set_insert c to_add

  -- The loop of addNeighbors that collects the neighbours not tested so far.
  unfoldable pub neighbours : List ℕ → IntMap (ChunkAttr D) → List ℕ → List ℕ
  unfolding insert_new last_score
  neighbours history [] to_add = to_add
  neighbours history (e ∷ es) to_add = neighbours history es (elim (last_score e.1.score_arr) [
    | none ↦ to_add
    | some v ↦
        if ltb 1 e.0
        then insert_new history (e.0 + 1) (insert_new history (e.0 - 1) to_add)
        else (if e.0 == 1 then insert_new history (e.0 + 1) to_add else to_add)
  ])

  -- The loop that adds them, until the limit is reached.
  unfoldable pub add_all : ℕ → List ℕ → Selector D → Selector D
  add_all limit [] s = s
  add_all limit (c ∷ cs) s =
      let rest = add_all limit cs (record s {
        selected_chunks = at_key chunk_attr c (λ a. chunk_attr) s.selected_chunks;
        history_of_chunks = set_insert c s.history_of_chunks;
        to_check_chunks = s.to_check_chunks ++ c ∷ [];
      }) in
      if ltb (length s.history_of_chunks) limit then rest else s

  unfoldable pub add_neighbors : ChunkOptions → Selector D → Selector D
  unfolding neighbours add_all
  add_neighbors o s =
      if ltb (length s.history_of_chunks) o.max_num_chunks_test_allowed
      then add_all o.max_num_chunks_test_allowed
          (neighbours s.history_of_chunks s.selected_chunks []) s
      else s
