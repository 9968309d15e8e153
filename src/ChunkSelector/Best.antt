-- ===== src/ChunkSelector/Best.antt =====
-- include/dparallel_recursion/ChunkSelector.h: discardChunks leaves the best chunk, and the chunks whose
-- score is near to its score.
use dparallel_recursion.Common.{
  ℕ, ◌+◌, ◌-◌, ◌≤◌, ◌≡◌, refl, sym, ap, ◌∙◌, Bool, true, false, arith, Option, none, some, ltb,
  ltb→lt, ltb→ge, leb→le, ◌==◌, ==_iff, [], ◌∷◌, Bool-cases, Option-cases, some_injective, ◌⊎◌, inl,
  inr, ◌↔◌,
}
use mathlib.Core.List.{Memᴰ}
use mathlib.Core.List.Memᴰ as Memᴰ
use dparallel_recursion.ChunkSelector.Keyed.{IntMap, retain}
use dparallel_recursion.ChunkSelector.{
  Double, ChunkAttr, Selector, last_score, get_best_scored_chunk, tolerated, discard_chunks,
}

same_score : (a b : ℕ × ℕ) → some b ≡ some a → b.1 ≤ a.1
same_score a b e = let same = ap (λ p. p.1) (some_injective b a e) in omega (arith, same)

same_last : (v w : ℕ) → some v ≡ some w → w ≤ v
same_last v w e = omega (arith, some_injective v w e)

clash {ℓ κ} : {A : Type ℓ} {B : Type κ} {a : A} → none ≡ some a → B
clash e = cc

module _ {ℓ} {D : Type ℓ} (double : Double D) where
  -- `b` is the chunk of the best score among those found and those to come.
  record Best (found : Option (ℕ × ℕ)) (es : IntMap (ChunkAttr D)) (b : ℕ × ℕ) : Type ℓ where
    reached :
        (found ≡ some b)
        ⊎ ((a : ChunkAttr D) × Memᴰ (b.0, a) es × (last_score double a.score_arr ≡ some b.1))
    above :
        (e : ℕ × ChunkAttr D) (v : ℕ)
        → Memᴰ e es
        → last_score double e.1.score_arr ≡ some v
        → v ≤ b.1
    above_found : (f : ℕ × ℕ) → found ≡ some f → f.1 ≤ b.1

  -- One chunk more: what is found is what was found or the chunk, and is no worse than either.
  Best-cons :
      {found found' : Option (ℕ × ℕ)} {e : ℕ × ChunkAttr D} {es : IntMap (ChunkAttr D)} {b : ℕ × ℕ}
      → ((f : ℕ × ℕ)
          → found' ≡ some f
          → (found ≡ some f) ⊎ ((e.0 ≡ f.0) × (last_score double e.1.score_arr ≡ some f.1)))
      → ((v : ℕ)
          → last_score double e.1.score_arr ≡ some v
          → (f : ℕ × ℕ) × (found' ≡ some f) × (v ≤ f.1))
      → ((g : ℕ × ℕ) → found ≡ some g → (f : ℕ × ℕ) × (found' ≡ some f) × (g.1 ≤ f.1))
      → Best found' es b
      → Best found (e ∷ es) b
  Best-cons {found} {found'} {e} {es} {b} from new old k = record {
    reached = elim k.reached [
      | inr (a, m, l) ↦ inr (a, Memᴰ.tail m, l)
      | inl here ↦ elim (from b here) [
        | inl before ↦ inl before
        | inr (key, l) ↦ inr (e.1, Memᴰ.head (ap (λ c. (c, e.1)) (sym key)), l)
      ]
    ];
    above = λ d v m l. elim (Memᴰ.cases_cons m) [
      | inr later ↦ k.above d v later l
      | inl same ↦
          let (f, is, le) = new v (ap (λ x. last_score double x.1.score_arr) (sym same) ∙ l) in
          omega (arith, le, k.above_found f is)
    ];
    above_found = λ g is. let (f, is', le) = old g is in omega (arith, le, k.above_found f is');
  }

  found_now :
      {found : Option (ℕ × ℕ)} (e : ℕ × ChunkAttr D) (v : ℕ) (f : ℕ × ℕ)
      → last_score double e.1.score_arr ≡ some v
      → some (e.0, v) ≡ some f
      → (found ≡ some f) ⊎ ((e.0 ≡ f.0) × (last_score double e.1.score_arr ≡ some f.1))
  found_now e v f l is =
      let same = some_injective (e.0, v) f is in
      inr (ap (λ p. p.0) same, l ∙ ap (λ p. some p.1) same)

  get_best_scored_chunk-Best :
      (found : Option (ℕ × ℕ)) (es : IntMap (ChunkAttr D)) (b : ℕ × ℕ)
      → get_best_scored_chunk double found es ≡ some b
      → Best found es b
  unfolding get_best_scored_chunk
  get_best_scored_chunk-Best found [] b e = record {
    reached = inl e;
    above = λ d v m l. absurd (Memᴰ.not-nil m);
    above_found = λ f is. same_score b f (sym is ∙ e);
  }
  get_best_scored_chunk-Best found (e ∷ es) b r =
      elim (Option-cases (last_score double e.1.score_arr)) [
        | inl l ↦
            Best-cons (λ f is. inl is) (λ v l'. clash (sym l ∙ l')) (λ g is. (g, is, omega arith))
              (get_best_scored_chunk-Best found es b (rw l at r))
        | inr (v, l) ↦ elim (Option-cases found) [
          | inl n ↦
              Best-cons (λ f is. found_now e v f l is)
                (λ w l'. ((e.0, v), refl, same_last v w (sym l ∙ l'))) (λ g is. clash (sym n ∙ is))
                (get_best_scored_chunk-Best (some (e.0, v)) es b (rw (l, n) at r))
          | inr (g, is) ↦ elim (Bool-cases (ltb g.1 v)) [
            | inl less ↦
                Best-cons (λ f is'. found_now e v f l is')
                  (λ w l'. ((e.0, v), refl, same_last v w (sym l ∙ l')))
                  (λ g' is'. (
                    (e.0, v),
                    refl,
                    omega (arith, same_score g g' (sym is' ∙ is), ltb→lt g.1 v less),
                  ))
                  (get_best_scored_chunk-Best (some (e.0, v)) es b (rw (l, is, less) at r))
            | inr more ↦
                Best-cons (λ f is'. inl (is ∙ is'))
                  (λ w l'. (g, refl, omega (arith, same_last v w (sym l ∙ l'), ltb→ge g.1 v more)))
                  (λ g' is'. (g, refl, same_score g g' (sym is' ∙ is)))
                  (get_best_scored_chunk-Best (some g) es b (rw (l, is, more) at r))
          ]
        ]
      ]

  Mem-retain :
      (p : ℕ → ChunkAttr D → Bool) (e : ℕ × ChunkAttr D) (es : IntMap (ChunkAttr D))
      → Memᴰ e (retain p es) ↔ (Memᴰ e es × (p e.0 e.1 ≡ true))
  unfolding retain
  Mem-retain p e [] = (λ m. absurd (Memᴰ.not-nil m), λ m. m.0)
  Mem-retain p e (x ∷ xs) = elim (Bool-cases (p x.0 x.1)) [
    | inl keep ↦ rw keep (
      λ m. elim (Memᴰ.cases_cons m) [
        | inl same ↦ (Memᴰ.head same, ap (λ y. p y.0 y.1) same ∙ keep)
        | inr later ↦ let (m', t) = (Mem-retain p e xs).0 later in (Memᴰ.tail m', t)
      ],
      λ m. elim (Memᴰ.cases_cons m.0) [
        | inl same ↦ Memᴰ.head same
        | inr later ↦ Memᴰ.tail ((Mem-retain p e xs).1 (later, m.1))
      ],
    )
    | inr drop ↦ rw drop (
      λ m. let (m', t) = (Mem-retain p e xs).0 m in (Memᴰ.tail m', t),
      λ m. elim (Memᴰ.cases_cons m.0) [
        | inl same ↦ let no_keep : true ≡ false = sym m.1 ∙ ap (λ y. p y.0 y.1) same ∙ drop in cc
        | inr later ↦ (Mem-retain p e xs).1 (later, m.1)
      ],
    )
  ]

  tolerated-near :
      (tolerance : ℕ) (b : ℕ × ℕ) (c : ℕ) (a : ChunkAttr D)
      → (tolerated double tolerance b c a ≡ true) ↔ (
          (v : ℕ)
          → last_score double a.score_arr ≡ some v
          → (c ≡ b.0) ⊎ (1000000 ≤ double.share v b.1 + tolerance))
  unfolding tolerated
  tolerated-near tolerance b c a = elim (Bool-cases (c == b.0)) [
    | inl best ↦ rw best (λ t v l. inl ((==_iff c b.0).0 best), λ h. refl)
    | inr other ↦ elim (Option-cases (last_score double a.score_arr)) [
      | inl l ↦ rw (other, l) (λ t v l'. clash l', λ h. refl)
      | inr (v, l) ↦
          rw (other, l)
            (
              λ t w l'.
                  let same = ap (λ x. double.share x b.1) (some_injective v w l') in
                  inr (omega (arith, leb→le (1000000 - tolerance) (double.share v b.1) t, same)),
              λ h. elim (h v refl) [
                | inl best ↦ let clash' : true ≡ false = sym ((==_iff c b.0).1 best) ∙ other in cc
                | inr near ↦ ground (arith, near)
              ],
            )
    ]
  ]

  -- For a best score that `getBestScoredChunk` finds: `discardChunks` leaves exactly the chunks that
  -- were selected and have no score, or are the best chunk, or whose score, as a share of the best
  -- one in millionths, falls short of the whole by no more than the tolerance; the best chunk is
  -- left with its score, and no chunk that was selected has a higher one.
  pub discard_chunks-best :
      (s : Selector D) (b : ℕ × ℕ)
      → get_best_scored_chunk double none s.selected_chunks ≡ some b
      → ((e : ℕ × ChunkAttr D)
          → Memᴰ e (discard_chunks double s).selected_chunks ↔ (
              Memᴰ e s.selected_chunks
              × ((v : ℕ)
                  → last_score double e.1.score_arr ≡ some v
                  → (e.0 ≡ b.0) ⊎ (1000000 ≤ double.share v b.1 + s.tolerance))))
        × ((a : ChunkAttr D) × Memᴰ (b.0, a) (discard_chunks double s).selected_chunks
            × (last_score double a.score_arr ≡ some b.1))
        × ((e : ℕ × ChunkAttr D) (v : ℕ)
            → Memᴰ e s.selected_chunks
            → last_score double e.1.score_arr ≡ some v
            → v ≤ b.1)
  unfolding discard_chunks
  discard_chunks-best s b e =
      let k = get_best_scored_chunk-Best none s.selected_chunks b e in
      let (a, m, l) : (a : ChunkAttr D) × Memᴰ (b.0, a) s.selected_chunks
          × (last_score double a.score_arr ≡ some b.1) =
        elim k.reached [ inl before ↦ clash before | inr found ↦ found ] in
      let left = Mem-retain (tolerated double s.tolerance b) in
      rw (e, discard_chunks)
        (
          λ x.
              let near = tolerated-near s.tolerance b x.0 x.1 in
              let (to, from) = left x s.selected_chunks in
              (λ held. ((to held).0, near.0 (to held).1), λ held. from (held.0, near.1 held.1)),
          (
            a,
            (left (b.0, a) s.selected_chunks).1
                (m, (tolerated-near s.tolerance b b.0 a).1 (λ v l'. inl refl)),
            l,
          ),
          k.above,
        )
