-- ===== src/Distribution/Partners.antt =====
-- Where a process sends its first problem to, and where it receives its first from: the searches end, and
-- number the problems that move one after another.
use dparallel_recursion.Common.{
  ℕ, zero, suc, ◌+◌, ◌-◌, ◌≤◌, ◌<◌, ◌≡◌, refl, ap, true, false, leb, some, arith, Bool-cases, inl,
  inr, leb→le, leb→lt, dec_lt,
}
use dparallel_recursion.Distribution.{
  Distribution, accumulate, skip_senders, skip_partners, excess, lack,
  destination_first_external_problem, source_first_external_problem,
}

pub accumulate-split :
    (f : ℕ → ℕ) (lo a b : ℕ) → accumulate f lo (a + b) ≡ accumulate f lo a + accumulate f (lo + a) b
unfolding accumulate
accumulate-split f lo zero b =
    let e : 0 + b ≡ b = omega arith in
    let e' : lo + 0 ≡ lo = omega arith in rw (e, e') (omega arith)
accumulate-split f lo (suc a) b =
    let e : suc a + b ≡ suc (a + b) = omega arith in
    let e' : lo + suc a ≡ lo + 1 + a = omega arith in
    rw (e, e') (omega (arith, accumulate-split f (lo + 1) a b))

le→leb : (a b : ℕ) → a ≤ b → leb a b ≡ true
le→leb a b h = ground arith

lt→leb : (a b : ℕ) → b < a → leb a b ≡ false
lt→leb a b h = ground arith

positive_run : (f : ℕ → ℕ) (lo n x : ℕ) → x < accumulate f lo n → 0 < n
unfolding accumulate
positive_run f lo zero x h = absurd (omega arith)
positive_run f lo (suc n) x h = omega arith

accumulate-member :
    (f : ℕ → ℕ) (lo i n : ℕ) → i < n → accumulate f lo i + f (lo + i) ≤ accumulate f lo n
unfolding accumulate
accumulate-member f lo i n lt =
    let e : i + suc (n - suc i) ≡ n = omega arith in
    let whole = accumulate-split f lo i (suc (n - suc i)) in
    omega (arith, ap (accumulate f lo) e, whole)

module _ (amount : ℕ → ℕ) where
  -- Where `left` elements are fewer than those of `n` ranks together, the search ends among these.
  skip_partners-some :
      (fuel left i n : ℕ)
      → n ≤ fuel
      → left < accumulate amount i n
      → (j : ℕ) × (before : ℕ) × (skip_partners fuel amount left i ≡ some (j, before))
        × (i ≤ j)
        × (j < i + n)
        × (before < amount j)
        × (accumulate amount i (j - i) + before ≡ left)
  unfolding skip_partners accumulate
  skip_partners-some fuel left i zero le lt = absurd (omega arith)
  skip_partners-some zero left i (suc n) le lt = absurd (omega arith)
  skip_partners-some (suc fuel) left i (suc n) le lt = elim (Bool-cases (leb (amount i) left)) [
    | inl past ↦
        let le' = leb→le (amount i) left past in
        let (j, before, found, after, below, some_left, sum) =
          skip_partners-some fuel (left - amount i) (i + 1) n (omega arith)
            (omega (arith, le', lt)) in
        let e : j - i ≡ suc (j - (i + 1)) = omega (arith, after) in
        (
          j,
          before,
          rw past found,
          omega (arith, after),
          omega (arith, below),
          some_left,
          rw e (omega (arith, sum, le')),
        )
    | inr here ↦
        let e : i - i ≡ 0 = omega arith in
        (
          i,
          left,
          rw here refl,
          omega arith,
          omega arith,
          leb→lt (amount i) left here,
          rw e (omega arith),
        )
  ]

skip_senders-first :
    (fuel : ℕ) (d : Distribution) (i k : ℕ)
    → i ≤ k
    → k < i + fuel
    → ((j : ℕ) → j < k → d.next_elems_per_rank j ≤ d.elems_per_rank j)
    → d.elems_per_rank k < d.next_elems_per_rank k
    → skip_senders fuel d i ≡ some k
unfolding skip_senders
skip_senders-first zero d i k le lt senders receiver = absurd (omega arith)
skip_senders-first (suc fuel) d i k le lt senders receiver = elim (dec_lt i k) [
  | yes before ↦
      let e : leb (d.next_elems_per_rank i) (d.elems_per_rank i) ≡ true =
        le→leb _ _ (senders i before) in
      rw e (skip_senders-first fuel d (i + 1) k (omega arith) (omega arith) senders receiver)
  | no here ↦
      let same : i ≡ k = omega arith in
      let e : leb (d.next_elems_per_rank i) (d.elems_per_rank i) ≡ false =
        rw same (lt→leb _ _ receiver) in
      rw e (ap some same)
]

-- The ranks below `k` have what they keep, those from there to `m` lack something, and the former have too
-- much what the latter lack.
pub record IsSplit (k m : ℕ) (d : Distribution) : Type 0 where
  pub senders : (i : ℕ) → i < k → d.next_elems_per_rank i ≤ d.elems_per_rank i
  pub receivers : (i : ℕ) → k ≤ i → i < m → d.elems_per_rank i < d.next_elems_per_rank i
  pub same_total : accumulate (excess d) 0 k ≡ accumulate (lack d) k (m - k)

module _ (k m : ℕ) (d : Distribution) (split : IsSplit k m d) where
  open split use {senders, receivers, same_total}

  -- Where the ranks below `k` have at least what they keep, those from there to `m` lack some, and
  -- the former have too much what the latter lack; for a rank of the former that has too much, and
  -- fuel for all ranks up to `m`: the search ends at a rank that lacks some, and finds how many of
  -- these come from the ranks before this one, fewer than it lacks; with what the receivers before
  -- it lack these are all that the ranks before this one send.
  pub destination_first_external_problem-found :
      (fuel : ℕ)
      → m ≤ fuel
      → d.rank < k
      → d.next_elems_per_rank d.rank < d.elems_per_rank d.rank
      → (i : ℕ) × (before : ℕ) × (destination_first_external_problem fuel d ≡ some (i, before))
        × (k ≤ i)
        × (i < m)
        × (before < lack d i)
        × (accumulate (lack d) k (i - k) + before ≡ accumulate (excess d) 0 d.rank)
  unfolding destination_first_external_problem
  destination_first_external_problem-found fuel le sender some_excess =
      let member = accumulate-member (excess d) 0 d.rank k sender in
      let same : 0 + d.rank ≡ d.rank = omega arith in
      let less : accumulate (excess d) 0 d.rank < accumulate (lack d) k (m - k) =
        omega (arith, member, same_total, some_excess, ap (excess d) same) in
      let some_lack = positive_run (lack d) k (m - k) _ less in
      let first =
        skip_senders-first fuel d (d.rank + 1) k (omega arith) (omega (arith, some_lack)) senders
          (receivers k (omega arith) (omega (arith, some_lack))) in
      let (j, before, found, above, below, some_left, sum) =
        skip_partners-some (lack d) fuel (accumulate (excess d) 0 d.rank) k (m - k) (omega arith)
          less in
      (j, before, rw (first, found) refl, above, omega (arith, below), some_left, sum)

  -- In the same case, for a rank that lacks some, and fuel for all ranks up to `m`: the search ends
  -- at a rank that has too much, and finds how many of these go to the ranks before this one, fewer
  -- than it has too much; with what the senders before it have too much these are all that the
  -- receivers before this one lack.
  pub source_first_external_problem-found :
      (fuel : ℕ)
      → m ≤ fuel
      → k ≤ d.rank
      → d.rank < m
      → (i : ℕ) × (before : ℕ) × (source_first_external_problem fuel d ≡ some (i, before))
        × (i < k)
        × (before < excess d i)
        × (accumulate (excess d) 0 i + before ≡ accumulate (lack d) k (d.rank - k))
  unfolding source_first_external_problem
  source_first_external_problem-found fuel le from below =
      let needs = receivers d.rank from below in
      let member = accumulate-member (lack d) k (d.rank - k) (m - k) (omega arith) in
      let same : k + (d.rank - k) ≡ d.rank = omega arith in
      let less : accumulate (lack d) k (d.rank - k) < accumulate (excess d) 0 k =
        omega (arith, member, same_total, needs, ap (lack d) same) in
      let first =
        skip_senders-first fuel d 0 k (omega arith) (omega arith) senders
          (receivers k (omega arith) (omega arith)) in
      let (j, before, found, above, below', some_left, sum) =
        skip_partners-some (excess d) fuel (accumulate (lack d) k (d.rank - k)) 0 k (omega arith)
          less in
      let e : j - 0 ≡ j = omega arith in
      (j, before, rw (first, found) refl, omega (arith, below'), some_left, rw e at sum)
