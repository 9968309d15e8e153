-- ===== src/SRange/Split.antt =====
-- `SRangeInfo::child` divides a range: the children follow one another, and each is smaller.
use dparallel_recursion.Common.{
  ℕ, ◌+◌, ◌-◌, ◌/◌, ◌%◌, ◌≤◌, ◌<◌, ◌≡◌, refl, sym, ap, ap₂, subst, ◌∙◌, arith, ltb, ltb→lt,
  if◌then◌else◌, false, Bool-cases, inl, inr,
}
use dparallel_recursion.SRange.{SRange, srange, child, is_base}
use dparallel_recursion.SRange.Cut.{
  cut, cut-short, cut-long, cut-zero, cut-suc, cut-all, div-twice, div-pos,
}

pub record IsValid (sr : SRange) : Type 0 where
  pub ordered : sr.start ≤ sr.end
  pub len : sr.range_len ≡ sr.end - sr.start

pub srange-IsValid : (a b : ℕ) → a ≤ b → IsValid (srange a b)
unfolding srange
srange-IsValid a b le = record { ordered = le; len = refl }

-- Where the child `i` starts.
abbrev pub bound : ℕ → SRange → ℕ → ℕ
bound dchunk sr i = sr.start + cut (sr.range_len / dchunk) (sr.range_len % dchunk) i

pub child-bounds :
    (n i : ℕ) (sr : SRange) → child n i sr ≡ srange (bound n sr i) (bound n sr (i + 1))
unfolding child
child-bounds n i sr =
    let q = sr.range_len / n in
    let r = sr.range_len % n in
    elim (Bool-cases (ltb i r)) [
      | inl e ↦ rw e (
          ap₂ srange (omega (arith, cut-short q r i e))
            (omega (arith, cut-short q r i e, cut-suc q r i, ap (λ c. if c then q + 1 else q) e)))
      | inr e ↦ rw e (
          ap₂ srange (omega (arith, cut-long q r i e))
            (omega (arith, cut-long q r i e, cut-suc q r i, ap (λ c. if c then q + 1 else q) e)))
    ]

pub bound-le : (n i : ℕ) (sr : SRange) → bound n sr i ≤ bound n sr (i + 1)
bound-le n i sr = omega (arith, cut-suc (sr.range_len / n) (sr.range_len % n) i)

pub bound-zero : (n : ℕ) (sr : SRange) → bound n sr 0 ≡ sr.start
bound-zero n sr = omega (arith, cut-zero (sr.range_len / n) (sr.range_len % n))

pub bound-all : (n : ℕ) (sr : SRange) → 0 < n → IsValid sr → bound n sr n ≡ sr.end
bound-all n sr pos w = omega (arith, cut-all sr.range_len n pos, w.ordered, w.len)

abbrev pub start_of : SRange → ℕ
start_of sr = sr.start

abbrev pub end_of : SRange → ℕ
end_of sr = sr.end

abbrev len_of : SRange → ℕ
len_of sr = sr.range_len

pub child-len :
    (n i : ℕ) (sr : SRange)
    → (child n i sr).range_len
      ≡ (if ltb i (sr.range_len % n) then sr.range_len / n + 1 else sr.range_len / n)
unfolding srange
child-len n i sr =
    ap len_of (child-bounds n i sr) ∙ omega (arith, cut-suc (sr.range_len / n) (sr.range_len % n) i)

-- The children, in order, cover the range with no gap and no overlap, in chunks of two lengths.
pub record IsPartition (n : ℕ) (sr : SRange) : Type 0 where
  pub first : (child n 0 sr).start ≡ sr.start
  pub next : (i : ℕ) → (child n (i + 1) sr).start ≡ (child n i sr).end
  pub last : (child n (n - 1) sr).end ≡ sr.end
  pub valid : (i : ℕ) → IsValid (child n i sr)
  pub even :
      (i : ℕ)
      → (child n i sr).range_len
        ≡ (if ltb i (sr.range_len % n) then sr.range_len / n + 1 else sr.range_len / n)

-- For a chunk count above 0, the children of a well-formed range partition it: the first starts
-- where the range does, each next one starts where the one before it ends, the last ends where the
-- range does, and each is a well-formed range whose length is the quotient of the length by the
-- chunk count, one more for as many of the first as the remainder says.
pub child-IsPartition : (n : ℕ) (sr : SRange) → 0 < n → IsValid sr → IsPartition n sr
unfolding srange
child-IsPartition n sr pos w = record {
  first = ap start_of (child-bounds n 0 sr) ∙ bound-zero n sr;
  next = λ i. ap start_of (child-bounds n (i + 1) sr) ∙ sym (ap end_of (child-bounds n i sr));
  last =
      let up : n - 1 + 1 ≡ n = omega arith in
      ap end_of (child-bounds n (n - 1) sr) ∙ ap (bound n sr) up ∙ bound-all n sr pos w;
  valid = λ i.
      subst IsValid (sym (child-bounds n i sr))
        (srange-IsValid (bound n sr i) (bound n sr (i + 1)) (bound-le n i sr));
  even = λ i. child-len n i sr;
}

child-quota : (n i m : ℕ) → 2 ≤ n → n ≤ m → (if ltb i (m % n) then m / n + 1 else m / n) < m
child-quota n i m two le = elim (Bool-cases (ltb i (m % n))) [
  | inl e ↦ rw e (omega (arith, div-twice m n two, div-pos m n two le, ltb→lt i (m % n) e))
  | inr e ↦ rw e (omega (arith, div-twice m n two, div-pos m n two le))
]

-- For a chunk count of at least 2, each child of a range that is no base case is shorter than it.
pub child-shorter :
    (n i : ℕ) (sr : SRange) → 2 ≤ n → is_base n sr ≡ false → (child n i sr).range_len < sr.range_len
unfolding is_base
child-shorter n i sr two inner =
    let long : n ≤ sr.range_len = ground arith in
    subst (λ m. m < sr.range_len) (sym (child-len n i sr)) (child-quota n i sr.range_len two long)
