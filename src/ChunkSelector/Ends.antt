-- ===== src/ChunkSelector/Ends.antt =====
-- include/dparallel_recursion/ChunkSelector.h: what each call of getNextChunk uses up of the tests that
-- are left.
pub mod Explore
pub mod Modes
pub mod Levels
pub mod Iterations
pub mod Search
use dparallel_recursion.Common.{
  ℕ, zero, suc, ◌+◌, ◌-◌, ◌*◌, ◌≤◌, ◌<◌, ◌≡◌, ◌≢◌, refl, sym, ap, subst, ◌∙◌, Bool, true, false,
  not, ◌&&◌, ◌||◌, arith, Option, none, some, ltb, leb, ltb→lt, leb→le, leb→lt, ◌==◌, ==_iff,
  if◌then◌else◌, List, [], ◌∷◌, ◌++◌, length, length-append, Bool-cases, Option-cases, ◌⊎◌, inl,
  inr,
}
use dparallel_recursion.ChunkSelector.Keyed.{IntMap, mem, keys, has, length-keys, mem-keys}
use dparallel_recursion.ChunkSelector.{
  Double, ChunkAttr, ChunkOptions, Selector, calculate_score, discard_chunks, discard_worst_chunk,
  add_neighbors, set_chunk_speed,
}
use dparallel_recursion.ChunkSelector.Rounds.{
  pop_front, refill, phase_1, phase_2, finish, time_out, end_round, get_next_chunk_m1_m2_m3,
  get_next_chunk_m0, get_next_chunk, run_tests, get_level_tolerance,
}
use dparallel_recursion.ChunkSelector.Bounds.{
  Same, Inv, Shrinks, Shrinks-trans, calculate_score-Shrinks, discard_chunks-Shrinks,
  discard_worst_chunk-Shrinks, mem-append,
}
use dparallel_recursion.ChunkSelector.Queue.{
  slack, popped, pop_front-cases, popped-Inv, set_chunk_speed-Inv, add_neighbors-slack,
}
use native.Mathlib.Nat.{mul-le-mul_right}

-- The rounds that phase 2 has left, one of which each refill of the queue takes. A level of mode 0 is
-- counted with 17 rounds, more than any preset has.
unfoldable pub rounds {ℓ} : {D : Type ℓ} → ChunkOptions → Selector D → ℕ
rounds o s = if o.mode == 0 then 17 * (4 - s.phase2_i) - s.phase2_j else o.sub_mode - s.phase2_i

unfoldable pub potential {ℓ} : {D : Type ℓ} → ChunkOptions → ℕ → Selector D → ℕ
unfolding slack rounds
potential o l s = slack l s + rounds o s * l

-- Mode 0 counts the iterations of a level from 0, and the level whose time runs is that of the next
-- iteration, or the one before it where no iteration of the next one has begun.
pub record Level {ℓ} {D : Type ℓ} (s : Selector D) : Type 0 where
  pub few : s.phase2_j ≤ 15
  pub running :
      (b : ℕ)
      → s.actual_block ≡ some b
      → (s.phase2_i ≡ b) ⊎ ((s.phase2_i ≡ suc b) × (s.phase2_j ≡ 0))

-- What holds before each call of getNextChunk.
pub record Ok {ℓ} {D : Type ℓ} (o : ChunkOptions) (l : ℕ) (s : Selector D) : Type 0 where
  pub inv : Inv l s
  pub level : o.mode ≡ 0 → Level s

-- What a call has to give: a chunk that is selected and fewer tests left, or the end.
unfoldable pub Next {ℓ} : {D : Type ℓ} → ChunkOptions → ℕ → ℕ → Option ℕ × Selector D → Type 0
Next o l bound (none, t) = length t.history_of_chunks ≤ l
Next o l bound (some c, t) = Ok o l t × (has c t.selected_chunks ≡ true) × (potential o l t < bound)

-- Where the queue, of at most l chunks, was filled for one round, the tests left are fewer.
pub round-less : (x l r r' y : ℕ) → suc x ≤ l → r' < r → x + r' * l < y + r * l
round-less x l r r' y few less =
    let step : suc r' * l ≤ r * l = mul-le-mul_right l (omega (arith, less)) in
    grind (arith, few, step)

pub round-le : (x l r r' y : ℕ) → x ≤ l → r' < r → x + r' * l ≤ y + r * l
round-le x l r r' y few less =
    let step : suc r' * l ≤ r * l = mul-le-mul_right l (omega (arith, less)) in
    grind (arith, few, step)

module _ {ℓ} {D : Type ℓ} where
  pub Same-rounds : (o : ChunkOptions) {s t : Selector D} → Same s t → rounds o t ≡ rounds o s
  unfolding rounds
  Same-rounds o k = rw (k.i_kept, k.j_kept) refl

  pub Same-Level : {s t : Selector D} → Same s t → Level s → Level t
  Same-Level k v = record {
    few = rw k.j_kept v.few;
    running = λ b e. rw (k.i_kept, k.j_kept) (v.running b (sym k.block_kept ∙ e));
  }

  -- With an empty queue, chunks may be discarded.
  pub shrunk-Inv :
      (l : ℕ) {s t : Selector D}
      → s.to_check_chunks ≡ []
      → Shrinks s t
      → Inv l s
      → Inv l t × (slack l t ≡ slack l s)
  unfolding slack mem
  shrunk-Inv l e k i = (
    record {
      small = rw k.same_history (omega (arith, k.fewer, i.small));
      bounded = rw k.same_history i.bounded;
      queued =
          λ d inside. let clash : true ≡ false = sym inside ∙ ap (mem d) (k.same_queue ∙ e) in cc;
    },
    rw (k.same_history, k.same_queue) refl,
  )

  pub Next-at :
      (o : ChunkOptions) (l a b : ℕ) (p : Option ℕ × Selector D)
      → a ≤ b
      → Next o l a p
      → Next o l b p
  unfolding Next
  Next-at o l a b (none, t) le n = n
  Next-at o l a b (some c, t) le n = (n.0, n.1, omega (arith, n.2, le))

  pub Same-potential :
      (o : ChunkOptions) (l : ℕ) {s t : Selector D}
      → Same s t
      → slack l t ≤ slack l s
      → potential o l t ≤ potential o l s
  unfolding potential
  Same-potential o l k le = rw (Same-rounds o k) (omega (arith, le))
