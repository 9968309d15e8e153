-- ===== src/ChunkSelector/Queue.antt =====
-- include/dparallel_recursion/ChunkSelector.h: the queue of the chunks to test and the history, as
-- addNeighbors and the tests change them.
use dparallel_recursion.Common.{
  ℕ, suc, ◌+◌, ◌-◌, ◌≤◌, ◌≡◌, ◌≢◌, refl, sym, ap, subst, ◌∙◌, Bool, true, false, ◌||◌, arith, none,
  some, ltb, ltb→lt, ◌==◌, ==_iff, List, [], ◌∷◌, ◌++◌, length, length-append, Bool-cases,
  Option-cases, ◌⊎◌, inl, inr,
}
use dparallel_recursion.ChunkSelector.Keyed.{
  IntMap, mem, set_insert, has, at_key, length-at_key, has-at_key, length-at_key_old,
  length-set_insert, mem-set_insert_other, Distinct, set_insert-Distinct,
}
use dparallel_recursion.ChunkSelector.{
  Double, ChunkAttr, ChunkOptions, Selector, chunk_attr, set_chunk_speed, insert_new, last_score,
  neighbours, add_all, add_neighbors,
}
use dparallel_recursion.ChunkSelector.Rounds.{pop_front}
use dparallel_recursion.ChunkSelector.Bounds.{Same, Inv, mem-append}

-- Tests that are due, and chunks that the history has room for.
unfoldable pub slack {ℓ} : {D : Type ℓ} → ℕ → Selector D → ℕ
slack limit s = length s.to_check_chunks + (limit - length s.history_of_chunks)

-- The selector with another queue.
abbrev pub popped {ℓ} : {D : Type ℓ} → List ℕ → Selector D → Selector D
popped cs s = record s { to_check_chunks = cs }

-- Chunks to add: no chunk twice, and none of the history.
pub record Fresh (history cs : List ℕ) : Type 0 where
  pub distinct : Distinct cs
  pub apart : (c : ℕ) → mem c cs ≡ true → mem c history ≡ false

or_right : (a b : Bool) → b ≡ true → (a || b) ≡ true
or_right true b e = refl
or_right false b e = e

self_or : (k : ℕ) (b : Bool) → (k == k || b) ≡ true
self_or k b = let own : (k == k) ≡ true = ground arith in rw own refl

either : (a b c : Bool) → (b ≡ true → c ≡ true) → (b || (a || false)) ≡ true → (a || c) ≡ true
either true b c f e = refl
either false true c f e = f refl
either false false c f e = cc

module _ {ℓ} {D : Type ℓ} (double : Double D) where
  insert_new-Fresh :
      (history : List ℕ) (c : ℕ) (cs : List ℕ)
      → Fresh history cs
      → Fresh history (insert_new double history c cs)
  unfolding insert_new
  insert_new-Fresh history c cs f = elim (Bool-cases (mem c history)) [
    | inl old ↦ rw old f
    | inr new ↦ rw new (record {
      distinct = set_insert-Distinct c cs f.distinct;
      apart = λ d inside. elim (Bool-cases (d == c)) [
        | inl same ↦ subst (λ x. mem x history ≡ false) (sym ((==_iff d c).0 same)) new
        | inr other ↦ f.apart d (sym (mem-set_insert_other d c cs (ground arith)) ∙ inside)
      ];
    })
  ]

  neighbours-Fresh :
      (history : List ℕ) (es : IntMap (ChunkAttr D)) (cs : List ℕ)
      → Fresh history cs
      → Fresh history (neighbours double history es cs)
  unfolding neighbours
  neighbours-Fresh history [] cs f = f
  neighbours-Fresh history (e ∷ es) cs f = elim (Option-cases (last_score double e.1.score_arr)) [
    | inl n ↦ rw n (neighbours-Fresh history es cs f)
    | inr (v, n) ↦ elim (Bool-cases (ltb 1 e.0)) [
      | inl g ↦
          rw (n, g)
            (neighbours-Fresh history es _
              (insert_new-Fresh history (e.0 + 1) _ (insert_new-Fresh history (e.0 - 1) cs f)))
      | inr g ↦ elim (Bool-cases (e.0 == 1)) [
        | inl one ↦
            rw (n, g, one) (neighbours-Fresh history es _ (insert_new-Fresh history (e.0 + 1) cs f))
        | inr zero' ↦ rw (n, g, zero') (neighbours-Fresh history es cs f)
      ]
    ]
  ]

  -- Adding chunks leaves the slack as it is: the tests they need were counted by the history.
  pub add_all-slack :
      (limit l : ℕ) (cs : List ℕ) (s : Selector D)
      → limit ≤ l
      → Fresh s.history_of_chunks cs
      → Inv l s
      → Inv l (add_all double limit cs s) × (slack l (add_all double limit cs s) ≡ slack l s)
  unfolding add_all Distinct mem slack
  add_all-slack limit l [] s le f i = (i, refl)
  add_all-slack limit l (c ∷ cs) s le f i =
      elim (Bool-cases (ltb (length s.history_of_chunks) limit)) [
        | inr full ↦ rw full (i, refl)
        | inl room ↦
            let added = record s {
              selected_chunks =
                  at_key (chunk_attr double) c (λ a. chunk_attr double) s.selected_chunks;
              history_of_chunks = set_insert c s.history_of_chunks;
              to_check_chunks = s.to_check_chunks ++ c ∷ [];
            } in
            let new : mem c s.history_of_chunks ≡ false = f.apart c (self_or c (mem c cs)) in
            let grown = length-set_insert c s.history_of_chunks new in
            let f' : Fresh (set_insert c s.history_of_chunks) cs = record {
              distinct = f.distinct.1;
              apart = λ d inside.
                  mem-set_insert_other d c s.history_of_chunks (apart_from d inside)
                  ∙ f.apart d (or_right (c == d) (mem d cs) inside);
            } in
            let i' : Inv l added = record {
              small = omega (
                arith,
                grown,
                i.small,
                length-at_key (chunk_attr double) c (λ a. chunk_attr double) s.selected_chunks,
              );
              bounded = omega (arith, grown, ltb→lt (length s.history_of_chunks) limit room, le);
              queued = λ d inside.
                  has-at_key (chunk_attr double) d c (λ a. chunk_attr double) s.selected_chunks
                  ∙ either (c == d) (mem d s.to_check_chunks) (has d s.selected_chunks) (i.queued d)
                      (sym (mem-append d s.to_check_chunks (c ∷ [])) ∙ inside);
            } in
            let same : slack l added ≡ slack l s = omega (
              arith,
              grown,
              length-append s.to_check_chunks (c ∷ []),
              ltb→lt (length s.history_of_chunks) limit room,
              le,
            ) in
            let rest = add_all-slack limit l cs added le f' i' in rw room (rest.0, rest.1 ∙ same)
      ]
    where
      apart_from : (d : ℕ) → mem d cs ≡ true → d ≢ c
      apart_from d inside e =
          let clash : true ≡ false = sym inside ∙ ap (λ k. mem k cs) e ∙ f.distinct.0 in cc

  pub add_neighbors-slack :
      (o : ChunkOptions) (l : ℕ) (s : Selector D)
      → o.max_num_chunks_test_allowed ≤ l
      → Inv l s
      → Inv l (add_neighbors double o s) × (slack l (add_neighbors double o s) ≡ slack l s)
  unfolding add_neighbors Distinct mem
  add_neighbors-slack o l s le i =
      elim (Bool-cases (ltb (length s.history_of_chunks) o.max_num_chunks_test_allowed)) [
        | inr full ↦ rw full (i, refl)
        | inl room ↦ rw room (
            add_all-slack o.max_num_chunks_test_allowed l _ s le
              (neighbours-Fresh s.history_of_chunks s.selected_chunks []
                (record { distinct = tt; apart = λ c inside. cc }))
              i)
      ]

  pub pop_front-cases :
      (o : ChunkOptions) (s : Selector D)
      → ((s.to_check_chunks ≡ []) × (pop_front double o s ≡ (none, s)))
        ⊎ ((c : ℕ) × (cs : List ℕ) × (s.to_check_chunks ≡ c ∷ cs)
            × (pop_front double o s ≡ (some c, popped cs s)))
  unfolding pop_front
  pop_front-cases o s = go s.to_check_chunks
    where
      go :
          (q : List ℕ)
          → ((q ≡ []) × (pop_front double o (popped q s) ≡ (none, popped q s)))
            ⊎ ((c : ℕ) × (cs : List ℕ) × (q ≡ c ∷ cs)
                × (pop_front double o (popped q s) ≡ (some c, popped cs s)))
      go [] = inl (refl, refl)
      go (c ∷ cs) = inr (c, cs, refl, refl)

  pub popped-Inv :
      (l c : ℕ) (cs : List ℕ) (s : Selector D)
      → s.to_check_chunks ≡ c ∷ cs
      → Inv l s
      → Inv l (popped cs s)
        × (has c s.selected_chunks ≡ true)
        × (suc (slack l (popped cs s)) ≡ slack l s)
  unfolding slack mem
  popped-Inv l c cs s e i = (
    record {
      small = i.small;
      bounded = i.bounded;
      queued = λ d inside. i.queued d (ap (mem d) e ∙ or_right (c == d) (mem d cs) inside);
    },
    i.queued c (ap (mem c) e ∙ self_or c (mem c cs)),
    (let same : length s.to_check_chunks ≡ suc (length cs) = ap length e in omega (arith, same)),
  )

  -- The speed of a chunk that is selected adds no chunk.
  pub set_chunk_speed-Inv :
      (l c : ℕ) (v : D) (s : Selector D)
      → has c s.selected_chunks ≡ true
      → Inv l s
      → Inv l (set_chunk_speed double c v s)
  unfolding set_chunk_speed
  set_chunk_speed-Inv l c v s old i = record {
    small = omega (arith, i.small, length-at_key_old (chunk_attr double) c _ s.selected_chunks old);
    bounded = i.bounded;
    queued = λ d inside.
        has-at_key (chunk_attr double) d c _ s.selected_chunks
        ∙ or_right (c == d) _ (i.queued d inside);
  }

  add_all-Same :
      (limit : ℕ) (cs : List ℕ) (s : Selector D)
      → Same s (add_all double limit cs s) × ((add_all double limit cs s).phase ≡ s.phase)
  unfolding add_all
  add_all-Same limit [] s = (record { i_kept = refl; j_kept = refl; block_kept = refl }, refl)
  add_all-Same limit (c ∷ cs) s = elim (Bool-cases (ltb (length s.history_of_chunks) limit)) [
    | inr full ↦ rw full (record { i_kept = refl; j_kept = refl; block_kept = refl }, refl)
    | inl room ↦
        let (k, p) = add_all-Same limit cs (record s {
          selected_chunks = at_key (chunk_attr double) c (λ a. chunk_attr double) s.selected_chunks;
          history_of_chunks = set_insert c s.history_of_chunks;
          to_check_chunks = s.to_check_chunks ++ c ∷ [];
        }) in
        rw room (record { i_kept = k.i_kept; j_kept = k.j_kept; block_kept = k.block_kept }, p)
  ]

  pub add_neighbors-Same :
      (o : ChunkOptions) (s : Selector D)
      → Same s (add_neighbors double o s) × ((add_neighbors double o s).phase ≡ s.phase)
  unfolding add_neighbors
  add_neighbors-Same o s =
      elim (Bool-cases (ltb (length s.history_of_chunks) o.max_num_chunks_test_allowed)) [
        | inr full ↦ rw full (record { i_kept = refl; j_kept = refl; block_kept = refl }, refl)
        | inl room ↦ rw room (add_all-Same o.max_num_chunks_test_allowed _ s)
      ]
