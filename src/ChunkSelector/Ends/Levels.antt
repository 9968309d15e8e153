-- ===== src/ChunkSelector/Ends/Levels.antt =====
-- include/dparallel_recursion/ChunkSelector.h: a call of getNextChunk in mode 0, which skips levels whose
-- time has passed.
use dparallel_recursion.Common.{
  ℕ, zero, suc, ◌+◌, ◌-◌, ◌*◌, ◌≤◌, ◌<◌, ◌≡◌, refl, sym, ◌∙◌, Bool, true, false, ◌&&◌, arith,
  Option, none, some, ltb, leb, ltb→lt, ◌==◌, ==_iff, if◌then◌else◌, List, [], ◌∷◌, length,
  length-append, Bool-cases, some_injective, and_parts, ◌⊎◌, inl, inr,
}
use dparallel_recursion.ChunkSelector.Keyed.{IntMap, mem, keys, has, length-keys, mem-keys}
use dparallel_recursion.ChunkSelector.{
  Double, ChunkAttr, ChunkOptions, Selector, calculate_score, discard_chunks,
}
use dparallel_recursion.ChunkSelector.Rounds.{
  level_tests, levels, from_chunk, rotated, skip_level, skip_levels,
}
use dparallel_recursion.ChunkSelector.Bounds.{
  Inv, Shrinks-trans, calculate_score-Shrinks, discard_chunks-Shrinks, mem-append,
}
use dparallel_recursion.ChunkSelector.Queue.{slack, popped}
use dparallel_recursion.ChunkSelector.Ends.{rounds, potential, Ok, round-le}
use dparallel_recursion.ChunkSelector.Ends.Explore.{filled-Inv}

pub level_tests-le : (sub_mode level : ℕ) → level_tests sub_mode level ≤ 16
unfolding level_tests
level_tests-le sub_mode level = ground arith

skipped-round :
    (b i j : ℕ)
    → b < 3
    → j ≤ 15
    → (i ≡ b) ⊎ ((i ≡ suc b) × (j ≡ 0))
    → 17 * (4 - (b + 1)) - 1 < 17 * (4 - i) - j
skipped-round b i j lt few (inl e) = omega arith
skipped-round b i j lt few (inr (e, e')) = omega arith

module _ {ℓ} {D : Type ℓ} (double : Double D) (o : ChunkOptions) where
  mem-from_chunk :
      (d : ℕ) (p : ℕ → Bool) (cs : List ℕ)
      → mem d (from_chunk double o p cs) ≡ true
      → mem d cs ≡ true
  unfolding mem from_chunk
  mem-from_chunk d p [] e = e
  mem-from_chunk d p (c ∷ cs) e = elim (Bool-cases (c == d)) [
    | inl same ↦ rw same refl
    | inr other ↦ rw other (elim (Bool-cases (p c)) [
      | inl keep ↦ mem-from_chunk d p cs (rw (keep, other) at e)
      | inr drop ↦ mem-from_chunk d p cs (rw drop at e)
    ])
  ]

  length-from_chunk :
      (w : ℕ) (cs : List ℕ)
      → length (from_chunk double o (λ c. leb w c) cs)
          + length (from_chunk double o (λ c. ltb c w) cs)
        ≡ length cs
  unfolding from_chunk
  length-from_chunk w [] = refl
  length-from_chunk w (c ∷ cs) = elim (Bool-cases (leb w c)) [
    | inl le ↦
        let nl : ltb c w ≡ false = ground arith in
        rw (le, nl) (omega (arith, length-from_chunk w cs))
    | inr gt ↦
        let lt : ltb c w ≡ true = ground arith in
        rw (gt, lt) (omega (arith, length-from_chunk w cs))
  ]

  mem-rotated : (d w : ℕ) (cs : List ℕ) → mem d (rotated double o w cs) ≡ true → mem d cs ≡ true
  unfolding rotated
  mem-rotated d w cs e = elim (Bool-cases (mem d (from_chunk double o (λ c. leb w c) cs))) [
    | inl first ↦ mem-from_chunk d _ cs first
    | inr no_more ↦
        mem-from_chunk d (λ c. ltb c w) cs
          (rw no_more at (sym (mem-append d (from_chunk double o (λ c. leb w c) cs) _) ∙ e))
  ]

  pub length-rotated : (w : ℕ) (cs : List ℕ) → length (rotated double o w cs) ≡ length cs
  unfolding rotated
  length-rotated w cs =
      length-append (from_chunk double o (λ c. leb w c) cs) (from_chunk double o (λ c. ltb c w) cs)
      ∙ length-from_chunk w cs

  pub rounds-zeroth :
      (s : Selector D) → (o.mode == 0) ≡ true → rounds o s ≡ 17 * (4 - s.phase2_i) - s.phase2_j
  unfolding rounds
  rounds-zeroth s m = rw m refl

  module _ (l : ℕ) where
    -- What a skipped level leaves as it is, or makes less.
    pub record Skipped (s t : Selector D) : Type 0 where
      pub ok : Ok o l t
      pub most : potential o l t ≤ potential o l s
      pub phase_kept : t.phase ≡ s.phase

    -- The queue of a level that begins early.
    pub early-queue :
        (go : Bool) (w : ℕ) (es : IntMap (ChunkAttr D))
        → (length (if go then rotated double o w (keys es) else []) ≤ length es)
          × ((d : ℕ)
              → mem d (if go then rotated double o w (keys es) else []) ≡ true
              → has d es ≡ true)
    unfolding mem
    early-queue true w es = (
      omega (arith, length-rotated w (keys es), length-keys es),
      λ d inside. sym (mem-keys d es) ∙ mem-rotated d w (keys es) inside,
    )
    early-queue false w es = (omega arith, λ d inside. cc)

    skip_level-Skipped :
        (b : ℕ) (s : Selector D)
        → (o.mode == 0) ≡ true
        → s.actual_block ≡ some b
        → b < 3
        → Ok o l s
        → Skipped s (skip_level double o b s)
    unfolding skip_level potential slack mem
    skip_level-Skipped b s m e lt k =
        let k' =
          Shrinks-trans double (calculate_score-Shrinks double o s)
            (discard_chunks-Shrinks double _) in
        let s' = discard_chunks double (calculate_score double o s) in
        let v = k.level ((==_iff o.mode 0).0 m) in
        let t = skip_level double o b s in
        let emptied : Inv l (popped [] s') = record {
          small = rw k'.same_history (omega (arith, k'.fewer, k.inv.small));
          bounded = rw k'.same_history k.inv.bounded;
          queued = λ d inside. cc;
        } in
        let (few, own) =
          early-queue (ltb 1 (length s'.selected_chunks) && ltb (b + 1) 4)
            (elim s.to_check_chunks [ [] ↦ 0 | c ∷ cs ↦ c ]) s'.selected_chunks in
        let (full, most) = filled-Inv double o l t.to_check_chunks (popped [] s') few own emptied in
        record {
          ok = record {
            inv = record { small = full.small; bounded = full.bounded; queued = full.queued };
            level = λ z. record {
              few = omega arith;
              running = λ b' same. inl (some_injective (b + 1) b' same);
            };
          };
          most =
              rw (rounds-zeroth s m, rounds-zeroth t m)
                (round-le (slack l t) l (17 * (4 - s.phase2_i) - s.phase2_j)
                  (17 * (4 - (b + 1)) - 1) (slack l s) most
                  (skipped-round b s.phase2_i s.phase2_j lt v.few (v.running b e)));
          phase_kept = k'.same_phase;
        }

    pub skip_levels-Skipped :
        (fuel : ℕ) (block_late : ℕ → Bool) (s : Selector D)
        → (o.mode == 0) ≡ true
        → Ok o l s
        → Skipped s (skip_levels double o fuel block_late s)
    unfolding skip_levels
    skip_levels-Skipped zero block_late s m k = record {
      ok = k;
      most = omega arith;
      phase_kept = refl;
    }
    skip_levels-Skipped (suc fuel) block_late s m k =
        go (λ t ok. skip_levels-Skipped fuel block_late t m ok) s.actual_block refl
      where
        go :
            ((t : Selector D) → Ok o l t → Skipped t (skip_levels double o fuel block_late t))
            → (block : Option ℕ) → s.actual_block ≡ block
            → Skipped s (elim block [
              | none ↦ s
              | some b ↦
                  if ltb b (levels double o - 1) && block_late b
                  then skip_levels double o fuel block_late (skip_level double o b s)
                  else s
            ])
        go again none e = record { ok = k; most = omega arith; phase_kept = refl }
        go again (some b) e = elim (Bool-cases (ltb b 3 && block_late b)) [
          | inr stay ↦ rw stay (record { ok = k; most = omega arith; phase_kept = refl })
          | inl skip ↦
              let one =
                skip_level-Skipped b s m e (ltb→lt b 3 (and_parts (ltb b 3) (block_late b) skip).0)
                  k in
              let rest = again (skip_level double o b s) one.ok in
              rw skip (record {
                ok = rest.ok;
                most = omega (arith, one.most, rest.most);
                phase_kept = rest.phase_kept ∙ one.phase_kept;
              })
        ]
