-- ===== src/AliasVector/Ranges.antt =====
-- include/dparallel_recursion/AliasVector.h: ranges of ranges.
use dparallel_recursion.Common.{
  ℕ, ◌+◌, ◌-◌, ◌≤◌, ◌≡◌, refl, sym, ap, ap₂, ◌∙◌, true, ◌&&◌, arith, none, some, leb, leb→le,
  and_parts, some_injective, Bool-cases, inl, inr,
}
use dparallel_recursion.AliasVector.{Pointer, Alias, mk_alias, advance, range, offset}

-- The part of a vector from `start` to `end`.
abbrev part : Pointer → Pointer → ℕ → ℕ → Alias
part p q start end = record {
  data_ = some (record p { place = p.place + start });
  sz_ = end - start;
  source_data = some q;
}

range-part :
    (p q : Pointer) (sz start end : ℕ)
    → start ≤ end
    → end ≤ sz
    → range start end (record { data_ = some p; sz_ = sz; source_data = some q })
      ≡ some (part p q start end)
unfolding range advance mk_alias
range-part p q sz start end le inside =
    let ordered : leb start end ≡ true = ground arith in
    let bounded : leb end sz ≡ true = ground arith in rw (ordered, bounded) refl

-- A vector of sz cells from p on, in the array that begins at q.
abbrev pub vector_at : Pointer → Pointer → ℕ → Alias
vector_at p q sz = record { data_ = some p; sz_ = sz; source_data = some q }

range-inside : (v w : Alias) (s e : ℕ) → range s e v ≡ some w → (s ≤ e) × (e ≤ v.sz_)
unfolding range
range-inside v w s e r = elim (Bool-cases (leb s e && leb e v.sz_)) [
  | inl both ↦
      let (one, two) = and_parts (leb s e) (leb e v.sz_) both in
      (leb→le s e one, leb→le e v.sz_ two)
  | inr out ↦ let clash : none ≡ some w = rw out at r in cc
]

further :
    (p : Pointer) (s s' : ℕ)
    → record p { place = p.place + s + s' } ≡ record p { place = p.place + (s + s') }
further p s s' =
    let sum : p.place + s + s' ≡ p.place + (s + s') = omega arith in
    ap (λ n. record p { place = n }) sum

-- For a vector whose data do not start before its array: where a range of it succeeds, a range of
-- that range, within its size, is the range of the vector at the sum of the starts, its offset grows
-- by the start, and its size is the length.
pub range-range :
    (p q : Pointer) (w : Alias) (sz s e s' e' : ℕ)
    → q.place ≤ p.place
    → range s e (vector_at p q sz) ≡ some w
    → s' ≤ e'
    → e' ≤ w.sz_
    → (range s' e' w ≡ range (s + s') (s + e') (vector_at p q sz))
      × (offset w ≡ offset (vector_at p q sz) + s)
      × (w.sz_ ≡ e - s)
unfolding offset
range-range p q w sz s e s' e' le r le' inside =
    let (ordered, bounded) = range-inside (vector_at p q sz) w s e r in
    let shape : part p q s e ≡ w =
      some_injective (part p q s e) w (sym (range-part p q sz s e ordered bounded) ∙ r) in
    let size : w.sz_ ≡ e - s = sym (ap (λ v. v.sz_) shape) in
    (
      ap (range s' e') (sym shape)
          ∙ range-part (record p { place = p.place + s }) q (e - s) s' e' le'
              (omega (arith, size, inside))
          ∙ ap some (
              ap₂ (λ start n. record { data_ = some start; sz_ = n; source_data = some q })
                (further p s s') (omega arith))
          ∙ sym (
              range-part p q sz (s + s') (s + e') (omega arith)
                (omega (arith, size, inside, bounded, ordered))),
      sym (ap offset shape) ∙ omega (arith, le),
      size,
    )
