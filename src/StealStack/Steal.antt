-- ===== src/StealStack/Steal.antt =====
-- What a theft moves, and which victim `findwork` names.
use native.Mathlib.Nat.{mod-lt, mod-eq_of_lt, mod-eq-sub-mod}
use dparallel_recursion.Common.{
  ℕ, zero, suc, ◌+◌, ◌-◌, ◌%◌, ◌≤◌, ◌<◌, ◌≡◌, ap, ap₂, ◌∙◌, true, false, List, ◌++◌, ◌⊎◌, ◌≢◌, inl,
  inr, none, some, arith, dec_lt, ltb, leb, ltb→lt, leb→lt, leb→le, if◌then◌else◌, segment,
  segment-cong, segment-split, Bool-cases, subst, ℕ_discrete,
}
use dparallel_recursion.StealStack.{StealStack, ss_steal, copy_n, findwork_from, findwork}
use dparallel_recursion.StealStack.View.{IsValid, items}
use dparallel_recursion.StealStack.Grow.{grow_while-IsRegrown, grow_while-room}

-- A turn of less than a whole round leads to another thread.
turn-ne : (me i n : ℕ) → me < n → 0 < i → i < n → (me + i) % n ≢ me
turn-ne me i n lt pos small = elim (dec_lt (me + i) n) [
  | yes before ↦ rw (mod-eq_of_lt before) (omega arith)
  | no wraps ↦
      rw
        (
          mod-eq-sub-mod {n = me + i} {m = n} (omega arith),
          mod-eq_of_lt {n = me + i - n} {m = n} (omega arith),
        )
        (omega arith)
]

-- How far thread `w` is from thread `me`.
abbrev turns : ℕ → ℕ → ℕ → ℕ
turns me w n = if ltb me w then w - me else w + n - me

turn-back : (me w n : ℕ) → me < n → w < n → (me + turns me w n) % n ≡ w
turn-back me w n lt w_lt = elim (Bool-cases (ltb me w)) [
  | inl e ↦
      let above = ltb→lt me w e in
      let sum : me + (w - me) ≡ w = omega arith in rw (e, sum) (mod-eq_of_lt w_lt)
  | inr e ↦
      let sum : me + (w + n - me) ≡ w + n = omega arith in
      let back : w + n - n ≡ w = omega arith in
      rw (e, sum, mod-eq-sub-mod {n = w + n} {m = n} (omega arith), back) (mod-eq_of_lt w_lt)
]

module _ {ℓ} {T : Type ℓ} where
  -- The bottom chunk of a stack.
  abbrev pub chunk : StealStack T → ℕ → List T
  chunk s n = segment s.stack s.shared_start n

  -- An attempt on a well formed victim. With a chunk in its shared portion, the chunk moves from the
  -- bottom of the victim to the top of the thief; otherwise neither loses nor gains an element.
  pub record Steals (fresh : T) (s v : StealStack T) (n : ℕ) : Type ℓ where
    pub thief_valid : IsValid (ss_steal fresh s v n).0
    pub victim_valid : IsValid (ss_steal fresh s v n).1
    pub thief_shared :
        (ss_steal fresh s v n).0.local - (ss_steal fresh s v n).0.shared_start
        ≡ s.local - s.shared_start
    pub outcome :
        ((n ≤ v.local - v.shared_start)
          × ((ss_steal fresh s v n).2 ≡ true)
          × (items (ss_steal fresh s v n).0 ≡ items s ++ chunk v n)
          × (items v ≡ chunk v n ++ items (ss_steal fresh s v n).1)
          × (v.local - v.shared_start
              ≡ (ss_steal fresh s v n).1.local - (ss_steal fresh s v n).1.shared_start + n))
        ⊎ ((v.local - v.shared_start < n)
            × ((ss_steal fresh s v n).2 ≡ false)
            × (items (ss_steal fresh s v n).0 ≡ items s)
            × ((ss_steal fresh s v n).1 ≡ v))

  items-copy_n :
      (v t : StealStack T) (n : ℕ)
      → IsValid t
      → segment
          (copy_n v.stack v.shared_start t.stack t.top n)
          t.shared_start
          (t.top + n - t.shared_start)
        ≡ items t ++ chunk v n
  unfolding copy_n
  items-copy_n v t n w =
      let e : t.top + n - t.shared_start ≡ (t.top - t.shared_start) + n = omega arith in
      let e' : t.shared_start + (t.top - t.shared_start) ≡ t.top = omega arith in
      ap (segment (copy_n v.stack v.shared_start t.stack t.top n) t.shared_start) e
      ∙ segment-split _ t.shared_start (t.top - t.shared_start) n
      ∙ ap₂ ◌++◌
          (segment-cong _ t.stack t.shared_start t.shared_start (t.top - t.shared_start)
            (λ k lt. ground arith))
          (ap (λ a. segment (copy_n v.stack v.shared_start t.stack t.top n) a n) e'
            ∙ segment-cong _ v.stack t.top v.shared_start n
                (λ k lt. let back : t.top + k - t.top ≡ k = omega arith in ground arith))

  items-chunk :
      (v : StealStack T) (n : ℕ)
      → IsValid v
      → n ≤ v.local - v.shared_start
      → items v ≡ chunk v n ++ segment v.stack (v.shared_start + n) (v.top - (v.shared_start + n))
  items-chunk v n w h =
      let e : v.top - v.shared_start ≡ n + (v.top - (v.shared_start + n)) = omega arith in
      ap (segment v.stack v.shared_start) e ∙ segment-split v.stack v.shared_start n _

  -- A theft between two well-formed stacks leaves both well formed, and the size of the thief's
  -- shared portion as it was. Where the victim's shared portion has a chunk, its first elements, a
  -- chunk of them, move to the top of the thief; otherwise the theft fails, the thief's elements
  -- stay and the victim is untouched.
  pub ss_steal-Steals :
      (fresh : T) (s v : StealStack T) (n : ℕ) → IsValid s → IsValid v → Steals fresh s v n
  unfolding ss_steal
  ss_steal-Steals fresh s v n sv vv =
      let same =
        grow_while-IsRegrown fresh (λ t. leb t.stack_size (t.top + n)) (s.top + n + 1) s sv in
      let full = leb→lt _ _ (
        grow_while-room fresh (n + 1) (λ t. leb t.stack_size (t.top + n)) (λ t e. ground arith)
          (s.top + n + 1) s sv (omega arith)) in
      elim (Bool-cases (leb n (v.local - v.shared_start))) [
        | inl e ↦
            let avail = leb→le _ _ e in
            record {
              thief_valid = rw e (record {
                shared_le = same.valid.shared_le;
                local_le = omega arith;
                fits = omega arith;
              });
              victim_valid =
                  rw e (record { shared_le = omega arith; local_le = vv.local_le; fits = vv.fits });
              thief_shared = rw e same.same_shared;
              outcome = inl (
                avail,
                rw e,
                rw e (items-copy_n v _ n same.valid ∙ ap (λ l. l ++ chunk v n) same.same_items),
                rw e (items-chunk v n vv avail),
                rw e (omega arith),
              );
            }
        | inr e ↦ record {
          thief_valid = rw e same.valid;
          victim_valid = rw e vv;
          thief_shared = rw e same.same_shared;
          outcome = inr (leb→lt _ _ e, rw e, rw e same.same_items, rw e);
        }
      ]

  -- `findwork` names a thread other than the caller, in range, with a chunk to steal.
  findwork_from-IsVictim :
      (n me k : ℕ) (stacks : ℕ → StealStack T) (rounds i w : ℕ)
      → me < n
      → 0 < i
      → rounds + i ≤ n
      → findwork_from n me k stacks rounds i ≡ some w
      → (w < n) × (w ≢ me) × (k ≤ (stacks w).local - (stacks w).shared_start)
  unfolding findwork_from
  findwork_from-IsVictim n me k stacks zero i w lt pos room e = cc
  findwork_from-IsVictim n me k stacks (suc rounds) i w lt pos room e =
      let j : ℕ = (me + i) % n in
      elim (Bool-cases (leb k ((stacks j).local - (stacks j).shared_start))) [
        | inl hit ↦
            let found : some j ≡ some w = rw hit at e in
            let same : j ≡ w = cc in
            subst (λ x. (x < n) × (x ≢ me) × (k ≤ (stacks x).local - (stacks x).shared_start)) same
              (mod-lt (me + i) (omega arith), turn-ne me i n lt pos (omega arith), leb→le _ _ hit)
        | inr miss ↦
            findwork_from-IsVictim n me k stacks rounds (i + 1) w lt (omega arith) (omega arith)
              (rw miss at e)
      ]

  -- With no name it has found no other thread with a chunk.
  findwork_from-none :
      (n me k : ℕ) (stacks : ℕ → StealStack T) (rounds i : ℕ)
      → findwork_from n me k stacks rounds i ≡ none
      → (j : ℕ) → i ≤ j
      → j < rounds + i
      → (stacks ((me + j) % n)).local - (stacks ((me + j) % n)).shared_start < k
  unfolding findwork_from
  findwork_from-none n me k stacks zero i e j lo hi = absurd (omega arith)
  findwork_from-none n me k stacks (suc rounds) i e j lo hi =
      elim (Bool-cases
        (leb k ((stacks ((me + i) % n)).local - (stacks ((me + i) % n)).shared_start))) [
          | inl hit ↦ let found : some ((me + i) % n) ≡ none = rw hit at e in cc
          | inr miss ↦ elim (ℕ_discrete i j) [
            | yes same ↦
                subst
                  (λ x. (stacks ((me + x) % n)).local - (stacks ((me + x) % n)).shared_start < k)
                  same (leb→lt _ _ miss)
            | no other ↦
                findwork_from-none n me k stacks rounds (i + 1) (rw miss at e) j (omega arith)
                  (omega arith)
          ]
        ]

  -- For a thread in range, the victim that `findwork` names is another thread in range, with a chunk
  -- to steal.
  pub findwork-IsVictim :
      (n me k : ℕ) (stacks : ℕ → StealStack T) (w : ℕ)
      → me < n
      → findwork n me k stacks ≡ some w
      → (w < n) × (w ≢ me) × (k ≤ (stacks w).local - (stacks w).shared_start)
  unfolding findwork
  findwork-IsVictim n me k stacks w lt e =
      findwork_from-IsVictim n me k stacks (n - 1) 1 w lt (omega arith) (omega arith) e

  -- For a thread in range, when `findwork` names nobody, no other thread in range has a chunk to
  -- steal.
  pub findwork-none :
      (n me k : ℕ) (stacks : ℕ → StealStack T)
      → me < n
      → findwork n me k stacks ≡ none
      → (w : ℕ) → w < n
      → w ≢ me
      → (stacks w).local - (stacks w).shared_start < k
  unfolding findwork
  findwork-none n me k stacks lt e w w_lt ne =
      subst (λ x. (stacks x).local - (stacks x).shared_start < k) (turn-back me w n lt w_lt)
        (findwork_from-none n me k stacks (n - 1) 1 e (turns me w n) (ground arith) (ground arith))
