-- ===== src/ChunkSelector/Ends/Search.antt =====
-- The search of `run_test` (parallel_stack_recursion.h) from the first chunk on, as
-- include/dparallel_recursion/ChunkSelector.h directs it: it ends.
use dparallel_recursion.Common.{
  ℕ, zero, suc, ◌+◌, ◌*◌, ◌≤◌, ◌≡◌, refl, sym, ◌∙◌, Bool, true, arith, max, Option, none, some, ltb,
  ◌==◌, if◌then◌else◌, length, Bool-cases, Option-cases, inl, inr,
}
use dparallel_recursion.ChunkSelector.Keyed.{has, length-at_key, length-keys, mem-keys}
use dparallel_recursion.ChunkSelector.{
  selector_init, mandatory_chunks, chunk_attr, Double, ChunkOptions, Selector, set_chunk_speed,
}
use dparallel_recursion.ChunkSelector.Rounds.{get_next_chunk, run_tests}
use dparallel_recursion.ChunkSelector.Queue.{slack, set_chunk_speed-Inv}
use dparallel_recursion.ChunkSelector.Ends.{rounds, potential, Ok, Next}
use dparallel_recursion.ChunkSelector.Ends.Modes.{get_next_chunk_m1_m2_m3-Next}
use dparallel_recursion.ChunkSelector.Ends.Iterations.{get_next_chunk_m0-Next}

-- The chunks that are tested, and the tests, that the options allow at most.
unfoldable pub most_chunks : ChunkOptions → ℕ
most_chunks o = max 6 o.max_num_chunks_test_allowed

unfoldable pub most_tests : ChunkOptions → ℕ
most_tests o = most_chunks o + (if o.mode == 0 then 68 else o.sub_mode) * most_chunks o

most_chunks-le :
    (o : ChunkOptions) → (6 ≤ most_chunks o) × (o.max_num_chunks_test_allowed ≤ most_chunks o)
unfolding most_chunks
most_chunks-le o = (omega arith, omega arith)

module _ {ℓ} {D : Type ℓ} (double : Double D) (o : ChunkOptions) where
  get_next_chunk-Next :
      (l : ℕ) (late : Bool) (block_late : ℕ → Bool) (s : Selector D)
      → o.max_num_chunks_test_allowed ≤ l
      → Ok o l s
      → Next o l (potential o l s) (get_next_chunk double o late block_late s)
  unfolding get_next_chunk
  get_next_chunk-Next l late block_late s le k = elim (Bool-cases (o.mode == 0)) [
    | inl m ↦ rw m (get_next_chunk_m0-Next double o l late block_late s m le k)
    | inr m ↦ rw m (get_next_chunk_m1_m2_m3-Next double o l o.mode late s m le k)
  ]

  set_chunk_speed-Ok :
      (l c : ℕ) (v : D) (s : Selector D)
      → has c s.selected_chunks ≡ true
      → Ok o l s
      → Ok o l (set_chunk_speed double c v s)
        × (potential o l (set_chunk_speed double c v s) ≡ potential o l s)
  unfolding set_chunk_speed potential rounds slack
  set_chunk_speed-Ok l c v s own k = (
    record {
      inv = set_chunk_speed-Inv double l c v s own k.inv;
      level = λ z. let level = k.level z in record { few = level.few; running = level.running };
    },
    refl,
  )

  run_tests-Next :
      (fuel l bound : ℕ) (speeds : ℕ → Option D) (late : ℕ → Bool) (block_late : ℕ → ℕ → Bool)
      (p : Option ℕ × Selector D)
      → o.max_num_chunks_test_allowed ≤ l
      → Next o l bound p
      → bound ≤ fuel
      → (t : Selector D) × (run_tests double o fuel speeds late block_late p ≡ some t)
        × (length t.history_of_chunks ≤ l)
  unfolding run_tests Next
  run_tests-Next fuel l bound speeds late block_late (none, s) le n enough = (s, refl, n)
  run_tests-Next zero l bound speeds late block_late (some c, s) le n enough =
      absurd (omega (arith, n.2, enough))
  run_tests-Next (suc fuel) l bound speeds late block_late (some c, s) le n enough =
      elim (Option-cases (speeds fuel)) [
        | inl failed ↦ (s, rw (failed, run_tests) refl, n.0.inv.bounded)
        | inr (v, e) ↦
            let (ok, same) = set_chunk_speed-Ok l c v s n.1 n.0 in
            let next =
              get_next_chunk-Next l (late fuel) (block_late fuel) (set_chunk_speed double c v s) le
                ok in
            let (t, run, few) =
              run_tests-Next fuel l _ speeds late block_late
                (get_next_chunk double o (late fuel) (block_late fuel)
                  (set_chunk_speed double c v s))
                le next (omega (arith, same, n.2, enough)) in
            (t, rw (e, run_tests) run, few)
      ]

  init-chunks : (d : ℕ) → length (selector_init double o d).selected_chunks ≤ 6
  unfolding selector_init mandatory_chunks
  init-chunks d = elim (Bool-cases (ltb 0 d)) [
    | inl default ↦
        rw default (length-at_key (chunk_attr double) d (λ a. a) (mandatory_chunks double))
    | inr none_given ↦ rw none_given (omega arith)
  ]

  init-Ok :
      (l d : ℕ)
      → 6 ≤ l
      → Ok o l (selector_init double o d) × (slack l (selector_init double o d) ≡ l)
  unfolding selector_init slack
  init-Ok l d le = (
    record {
      inv = record {
        small = omega (arith, length-keys (selector_init double o d).selected_chunks);
        bounded =
            omega
              (arith, length-keys (selector_init double o d).selected_chunks, init-chunks d, le);
        queued = λ c inside. sym (mem-keys c (selector_init double o d).selected_chunks) ∙ inside;
      };
      level = λ z. record { few = omega arith; running = λ b e. cc };
    },
    omega (arith, length-keys (selector_init double o d).selected_chunks, init-chunks d, le),
  )

  init-rounds :
      (d : ℕ) → rounds o (selector_init double o d) ≡ (if o.mode == 0 then 68 else o.sub_mode)
  unfolding rounds selector_init
  init-rounds d = elim (Bool-cases (o.mode == 0)) [ inl m ↦ rw m refl | inr m ↦ rw m (omega arith) ]

-- For any options, default chunk, speeds, failures and times: with fuel for as many tests as the
-- options allow at most, the loop of tests ends, and the chunks that were ever selected for a test
-- are no more than `maxNumChunksTestAllowed`, or 6 if that is more.
pub run_tests-ends {ℓ} :
    {D : Type ℓ} (double : Double D) (o : ChunkOptions) (default_chunk fuel : ℕ)
    (speeds : ℕ → Option D) (late : ℕ → Bool) (block_late : ℕ → ℕ → Bool)
    → most_tests o ≤ fuel
    → (t : Selector D) × (run_tests double o fuel speeds late block_late (
          get_next_chunk double o
            (late fuel)
            (block_late fuel)
            (selector_init double o default_chunk))
        ≡ some t)
      × (length t.history_of_chunks ≤ most_chunks o)
unfolding most_tests potential
run_tests-ends double o default_chunk fuel speeds late block_late enough =
    let l = most_chunks o in
    let allowed = most_chunks-le o in
    let (ok, same) = init-Ok double o l default_chunk allowed.0 in
    run_tests-Next double o fuel l (potential o l (selector_init double o default_chunk)) speeds
      late block_late _ allowed.1
      (get_next_chunk-Next double o l (late fuel) (block_late fuel)
        (selector_init double o default_chunk) allowed.1 ok)
      (rw (same, init-rounds double o default_chunk) enough)
