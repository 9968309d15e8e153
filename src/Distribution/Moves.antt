-- ===== src/Distribution/Moves.antt =====
-- Which processes send problems and which receive some, when a level has been divided (PrioritizeDM).
use native.Mathlib.Nat.{div-add-mod, mod-lt, mul-add-div, mul-add-mod_self_left, mul-le-mul_right}
use dparallel_recursion.Common.{
  ℕ, zero, suc, ◌+◌, ◌-◌, ◌*◌, ◌/◌, ◌%◌, ◌≤◌, ◌<◌, ◌≡◌, refl, sym, ap, fun_ext, ◌∙◌, false, ltb,
  lt→ltb, if◌then◌else◌, arith, dec_lt,
}
use dparallel_recursion.Distribution.{Distribution, accumulate, n_local_elems, progress_dm_distr}
use dparallel_recursion.Distribution.Blocks.{shares-total}
use dparallel_recursion.Distribution.Deepen.{IsEven, distr-eq}
use dparallel_recursion.Distribution.Partners.{IsSplit, accumulate-split}

accumulate-add :
    (f g h : ℕ → ℕ) (lo n : ℕ)
    → ((i : ℕ) → lo ≤ i → i < lo + n → f i ≡ g i + h i)
    → accumulate f lo n ≡ accumulate g lo n + accumulate h lo n
unfolding accumulate
accumulate-add f g h lo zero e = refl
accumulate-add f g h lo (suc n) e =
    let here = e lo (omega arith) (omega arith) in
    let rest = accumulate-add f g h (lo + 1) n (λ i ge lt. e i (omega arith) (omega arith)) in
    omega (arith, here, rest)

accumulate-mul : (f : ℕ → ℕ) (c lo n : ℕ) → accumulate (λ i. f i * c) lo n ≡ accumulate f lo n * c
unfolding accumulate
accumulate-mul f c lo zero = omega arith
accumulate-mul f c lo (suc n) = let rest = accumulate-mul f c (lo + 1) n in grind (arith, rest)

ge→ltb : (a b : ℕ) → b ≤ a → ltb a b ≡ false
ge→ltb a b h = ground arith

accumulate-zero : (lo n : ℕ) → accumulate (λ i. 0) lo n ≡ 0
unfolding accumulate
accumulate-zero lo zero = refl
accumulate-zero lo (suc n) = omega (arith, accumulate-zero (lo + 1) n)

accumulate-parts :
    (f : ℕ → ℕ) (k m p : ℕ)
    → k ≤ m
    → m ≤ p
    → accumulate f 0 p ≡ accumulate f 0 k + accumulate f k (m - k) + accumulate f m (p - m)
accumulate-parts f k m p km mp =
    let e : m + (p - m) ≡ p = omega arith in
    let e' : k + (m - k) ≡ m = omega arith in
    let z : 0 + m ≡ m = omega arith in
    let z' : 0 + k ≡ k = omega arith in
    let whole = accumulate-split f 0 m (p - m) in
    let part = accumulate-split f 0 k (m - k) in
    omega (
      arith,
      whole,
      part,
      ap (accumulate f 0) e,
      ap (accumulate f 0) e',
      ap (λ x. accumulate f x (p - m)) z,
      ap (λ x. accumulate f x (m - k)) z',
    )

-- Two ways to share the same, which agree from `m` on.
balanced :
    (had keeps : ℕ → ℕ) (k m p : ℕ)
    → k ≤ m
    → m ≤ p
    → ((i : ℕ) → i < k → keeps i ≤ had i)
    → ((i : ℕ) → k ≤ i → i < m → had i < keeps i)
    → ((i : ℕ) → m ≤ i → i < p → had i ≡ keeps i)
    → accumulate had 0 p ≡ accumulate keeps 0 p
    → accumulate (λ i. had i - keeps i) 0 k ≡ accumulate (λ i. keeps i - had i) k (m - k)
balanced had keeps k m p km mp more less same total =
    let below =
      accumulate-add had keeps (λ i. had i - keeps i) 0 k
        (λ i ge lt. omega (arith, more i (omega arith))) in
    let between =
      accumulate-add keeps had (λ i. keeps i - had i) k (m - k)
        (λ i ge lt. omega (arith, less i ge (omega arith))) in
    let above =
      accumulate-add had keeps (λ i. 0) m (p - m)
        (λ i ge lt. omega (arith, same i ge (omega arith))) in
    omega (
      arith,
      total,
      below,
      between,
      above,
      accumulate-zero m (p - m),
      accumulate-parts had k m p km mp,
      accumulate-parts keeps k m p km mp,
    )

-- What a process has after its share of `q`, or one more, has been divided into `c` each, and what it keeps:
-- its share of a level where `z` for each, and `w` more, come from the larger shares.
module _ (q r c z w p : ℕ) (few : r < p) (some : 0 < c) (left : w < p)
    (sum : p * z + w ≡ r * c) where
  had : ℕ → ℕ
  had i = (q + (if ltb i r then 1 else 0)) * c

  keeps : ℕ → ℕ
  keeps i = q * c + z + (if ltb i w then 1 else 0)

  last_receiver : ℕ
  last_receiver = if ltb (r * c) p then r * c else p

  z-lt : z < c
  z-lt = elim (dec_lt z c) [
    | yes lt ↦ lt
    | no ge ↦
        let many = mul-le-mul_right {m = c} {n = z} p (omega arith) in
        let fewer = mul-le-mul_right {m = r + 1} {n = p} c (omega arith) in
        absurd (grind (arith, many, fewer))
  ]

  keeps-le : (i : ℕ) → i < r → keeps i ≤ had i
  unfolding keeps had
  keeps-le i lt =
      let lt' = z-lt in
      let one : (if ltb i w then 1 else 0) ≤ 1 = ground arith in
      rw (lt→ltb i r lt) (grind (arith, lt', one))

  -- Too few to give each process one.
  z-zero : r * c < p → z ≡ 0
  z-zero lt = elim (dec_lt 0 z) [
    | yes pos ↦ let many = mul-le-mul_right {m = 1} {n = z} p pos in absurd (grind (arith, many))
    | no none ↦ omega arith
  ]

  z-pos : p ≤ r * c → 0 < z
  z-pos le = elim (dec_lt 0 z) [
    | yes pos ↦ pos
    | no none ↦ let e : p * z ≡ p * 0 = ap (λ x. p * x) (omega arith) in absurd (omega (arith, e))
  ]

  had-lt : (i : ℕ) → r ≤ i → i < last_receiver → had i < keeps i
  unfolding keeps had last_receiver
  had-lt i ge lt = elim (dec_lt (r * c) p) [
    | yes short ↦
        let none = z-zero short in
        let same : p * z ≡ p * 0 = ap (λ x. p * x) none in
        let i_lt : i < r * c = rw (lt→ltb _ _ short) at lt in
        rw (ge→ltb i r ge, lt→ltb i w (omega (arith, i_lt, same))) (grind (arith, none))
    | no long ↦ let pos = z-pos (omega arith) in rw (ge→ltb i r ge) (grind (arith, pos))
  ]

  had-eq : (i : ℕ) → last_receiver ≤ i → i < p → had i ≡ keeps i
  unfolding keeps had last_receiver
  had-eq i ge lt = elim (dec_lt (r * c) p) [
    | yes short ↦
        let none = z-zero short in
        let same : p * z ≡ p * 0 = ap (λ x. p * x) none in
        let i_ge : r * c ≤ i = rw (lt→ltb _ _ short) at ge in
        let grow = mul-le-mul_right {m = 1} {n = c} r some in
        rw (ge→ltb i r (grind (arith, grow, i_ge)), ge→ltb i w (omega (arith, i_ge, same)))
          (grind (arith, none))
    | no long ↦ let p_le : p ≤ i = rw (ge→ltb (r * c) p (omega arith)) at ge in absurd (omega arith)
  ]

  k-le : r ≤ last_receiver
  unfolding last_receiver
  k-le = let grow = mul-le-mul_right {m = 1} {n = c} r some in grind (arith, grow)

  m-le : last_receiver ≤ p
  unfolding last_receiver
  m-le = ground arith

  IsSplit-shares :
      (e : Distribution)
      → e.elems_per_rank ≡ had
      → e.next_elems_per_rank ≡ keeps
      → accumulate had 0 p ≡ accumulate keeps 0 p
      → IsSplit r last_receiver e
  IsSplit-shares e elems next total = record {
    senders = λ i lt. rw (elems, next) (keeps-le i lt);
    receivers = λ i ge lt. rw (elems, next) (had-lt i ge lt);
    same_total =
        rw (elems, next)
          (balanced had keeps r last_receiver p k-le m-le keeps-le had-lt had-eq total);
  }

spread : (p q r n : ℕ) → (p * q + r) * n ≡ p * (q * n) + r * n
spread p q r n = grind arith

-- Where each process has its share of a level with problems, and these are divided into at least one
-- each: there is a rank up to which, from the remainder of the level on, every process lacks some
-- problems; those before the remainder have at least what they keep; and what these have too much is
-- what the others lack.
pub progress_dm_distr-IsSplit :
    (n : ℕ) (d : Distribution)
    → IsEven d
    → 0 < n
    → (m : ℕ) × (m ≤ d.nprocs) × IsSplit (d.nglobal_elems % d.nprocs) m (progress_dm_distr n d).0
unfolding n_local_elems had keeps
progress_dm_distr-IsSplit n d even pos =
    let q = d.nglobal_elems / d.nprocs in
    let r = d.nglobal_elems % d.nprocs in
    let down = distr-eq n d even in
    let rest = r * n in
    let whole = div-add-mod d.nglobal_elems d.nprocs in
    let parts : d.nglobal_elems * n ≡ d.nprocs * (q * n) + rest =
      sym (ap (λ t. t * n) whole) ∙ spread d.nprocs q r n in
    let quotient : d.nglobal_elems * n / d.nprocs ≡ q * n + rest / d.nprocs =
      rw parts (mul-add-div even.positive (q * n) rest) in
    let remainder : d.nglobal_elems * n % d.nprocs ≡ rest % d.nprocs =
      rw parts (mul-add-mod_self_left d.nprocs (q * n) rest) in
    let z = rest / d.nprocs in
    let w = rest % d.nprocs in
    let few = mod-lt d.nglobal_elems even.positive in
    let left = mod-lt rest even.positive in
    let sum = div-add-mod rest d.nprocs in
    let has : (progress_dm_distr n d).0.elems_per_rank ≡ had q r n z w d.nprocs few pos left sum =
      ap (λ x. x.elems_per_rank) down ∙ fun_ext (λ i. ap (λ k. k * n) (even.share i)) in
    let level = record d { nglobal_elems = d.nglobal_elems * n } in
    let same : n_local_elems level ≡ keeps q r n z w d.nprocs few pos left sum =
      fun_ext (λ i. rw (quotient, remainder) refl) in
    let total =
      accumulate-mul (n_local_elems d) n 0 d.nprocs
      ∙ ap (λ k. k * n) (shares-total d even.positive)
      ∙ sym (shares-total level even.positive)
      ∙ ap (λ f. accumulate f 0 d.nprocs) same in
    let keeps' : (progress_dm_distr n d).0.next_elems_per_rank
        ≡ keeps q r n z w d.nprocs few pos left sum =
      ap (λ x. x.next_elems_per_rank) down ∙ same in
    (
      last_receiver q r n z w d.nprocs few pos left sum,
      m-le q r n z w d.nprocs few pos left sum,
      IsSplit-shares q r n z w d.nprocs few pos left sum (progress_dm_distr n d).0 has keeps' total,
    )
