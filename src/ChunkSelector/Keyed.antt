-- ===== src/ChunkSelector/Keyed.antt =====
-- std::map and std::set with keys of type int, as the selector uses them: lists in the order of the keys.
use dparallel_recursion.Common.{
  ℕ, suc, ◌≤◌, ◌≡◌, ◌≢◌, refl, sym, ap, ◌∙◌, Bool, true, false, ◌||◌, arith, ltb, ◌==◌, ==_iff,
  if◌then◌else◌, List, [], ◌∷◌, length, Bool-cases, inl, inr,
}

abbrev pub IntMap {ℓ} : Type ℓ → Type ℓ
IntMap A = List (ℕ × A)

-- std::set::find
unfoldable pub mem : ℕ → List ℕ → Bool
mem k [] = false
mem k (x ∷ xs) = x == k || mem k xs

unfoldable pub insert_ordered : ℕ → List ℕ → List ℕ
insert_ordered k [] = k ∷ []
insert_ordered k (x ∷ xs) =
    let rest = insert_ordered k xs in if ltb k x then k ∷ x ∷ xs else x ∷ rest

-- std::set::insert
unfoldable pub set_insert : ℕ → List ℕ → List ℕ
unfolding mem insert_ordered
set_insert k xs = if mem k xs then xs else insert_ordered k xs

module _ {ℓ} {A : Type ℓ} where
  abbrev pub keys : IntMap A → List ℕ
  keys [] = []
  keys (e ∷ es) = e.0 ∷ keys es

  unfoldable pub has : ℕ → IntMap A → Bool
  has k [] = false
  has k (e ∷ es) = e.0 == k || has k es

  unfoldable pub put_ordered : ℕ → A → IntMap A → IntMap A
  put_ordered k a [] = (k, a) ∷ []
  put_ordered k a (e ∷ es) =
      let rest = put_ordered k a es in if ltb k e.0 then (k, a) ∷ e ∷ es else e ∷ rest

  unfoldable pub modify : ℕ → (A → A) → IntMap A → IntMap A
  modify k f [] = []
  modify k f (e ∷ es) = (e.0, (if e.0 == k then f e.1 else e.1)) ∷ modify k f es

  -- m[k] = f(m[k]), where a missing entry starts as `fresh`
  unfoldable pub at_key : A → ℕ → (A → A) → IntMap A → IntMap A
  unfolding has put_ordered modify
  at_key fresh k f es = if has k es then modify k f es else put_ordered k (f fresh) es

  unfoldable pub map_values : (A → A) → IntMap A → IntMap A
  map_values f [] = []
  map_values f (e ∷ es) = (e.0, f e.1) ∷ map_values f es

  -- The entries that stay when the others are erased.
  unfoldable pub retain : (ℕ → A → Bool) → IntMap A → IntMap A
  retain p [] = []
  retain p (e ∷ es) = let rest = retain p es in if p e.0 e.1 then e ∷ rest else rest

  pub length-keys : (es : IntMap A) → length (keys es) ≡ length es
  length-keys [] = refl
  length-keys (e ∷ es) = ap suc (length-keys es)

  pub mem-keys : (k : ℕ) (es : IntMap A) → mem k (keys es) ≡ has k es
  unfolding mem has
  mem-keys k [] = refl
  mem-keys k (e ∷ es) = ap (λ b. e.0 == k || b) (mem-keys k es)

  pub length-modify : (k : ℕ) (f : A → A) (es : IntMap A) → length (modify k f es) ≡ length es
  unfolding modify
  length-modify k f [] = refl
  length-modify k f (e ∷ es) = ap suc (length-modify k f es)

  pub has-modify : (j k : ℕ) (f : A → A) (es : IntMap A) → has j (modify k f es) ≡ has j es
  unfolding has modify
  has-modify j k f [] = refl
  has-modify j k f (e ∷ es) = ap (λ b. e.0 == j || b) (has-modify j k f es)

  pub length-map_values : (f : A → A) (es : IntMap A) → length (map_values f es) ≡ length es
  unfolding map_values
  length-map_values f [] = refl
  length-map_values f (e ∷ es) = ap suc (length-map_values f es)

  pub has-map_values : (j : ℕ) (f : A → A) (es : IntMap A) → has j (map_values f es) ≡ has j es
  unfolding has map_values
  has-map_values j f [] = refl
  has-map_values j f (e ∷ es) = ap (λ b. e.0 == j || b) (has-map_values j f es)

  length-put_ordered :
      (k : ℕ) (a : A) (es : IntMap A) → length (put_ordered k a es) ≡ suc (length es)
  unfolding put_ordered
  length-put_ordered k a [] = refl
  length-put_ordered k a (e ∷ es) = elim (Bool-cases (ltb k e.0)) [
    | inl lt ↦ rw lt refl
    | inr ge ↦ rw ge (ap suc (length-put_ordered k a es))
  ]

  has-put_ordered :
      (j k : ℕ) (a : A) (es : IntMap A) → has j (put_ordered k a es) ≡ (k == j || has j es)
  unfolding has put_ordered
  has-put_ordered j k a [] = refl
  has-put_ordered j k a (e ∷ es) = elim (Bool-cases (ltb k e.0)) [
    | inl lt ↦ rw lt refl
    | inr ge ↦ rw ge (
        ap (λ b. e.0 == j || b) (has-put_ordered j k a es) ∙ swap_or (e.0 == j) (k == j) (has j es))
  ]
    where
      swap_or : (a b c : Bool) → (a || (b || c)) ≡ (b || (a || c))
      swap_or true true c = refl
      swap_or true false c = refl
      swap_or false b c = refl

  pub length-at_key :
      (fresh : A) (k : ℕ) (f : A → A) (es : IntMap A)
      → length (at_key fresh k f es) ≤ suc (length es)
  unfolding at_key
  length-at_key fresh k f es = elim (Bool-cases (has k es)) [
    | inl old ↦ rw old (omega (arith, length-modify k f es))
    | inr new ↦ rw new (omega (arith, length-put_ordered k (f fresh) es))
  ]

  has-same : (j k : ℕ) (es : IntMap A) → has k es ≡ true → has j es ≡ (k == j || has j es)
  has-same j k es old = elim (Bool-cases (k == j)) [
    | inl same ↦ rw same (ap (λ i. has i es) (sym ((==_iff k j).0 same)) ∙ old)
    | inr other ↦ rw other refl
  ]

  pub has-at_key :
      (fresh : A) (j k : ℕ) (f : A → A) (es : IntMap A)
      → has j (at_key fresh k f es) ≡ (k == j || has j es)
  unfolding at_key
  has-at_key fresh j k f es = elim (Bool-cases (has k es)) [
    | inl old ↦ rw old (has-modify j k f es ∙ has-same j k es old)
    | inr new ↦ rw new (has-put_ordered j k (f fresh) es)
  ]

  pub length-at_key_old :
      (fresh : A) (k : ℕ) (f : A → A) (es : IntMap A)
      → has k es ≡ true
      → length (at_key fresh k f es) ≡ length es
  unfolding at_key
  length-at_key_old fresh k f es old = rw old (length-modify k f es)

  pub length-retain : (p : ℕ → A → Bool) (es : IntMap A) → length (retain p es) ≤ length es
  unfolding retain
  length-retain p [] = omega arith
  length-retain p (e ∷ es) = elim (Bool-cases (p e.0 e.1)) [
    | inl keep ↦ rw keep (omega (arith, length-retain p es))
    | inr drop ↦ rw drop (omega (arith, length-retain p es))
  ]

length-insert_ordered : (k : ℕ) (xs : List ℕ) → length (insert_ordered k xs) ≡ suc (length xs)
unfolding insert_ordered
length-insert_ordered k [] = refl
length-insert_ordered k (x ∷ xs) = elim (Bool-cases (ltb k x)) [
  | inl lt ↦ rw lt refl
  | inr ge ↦ rw ge (ap suc (length-insert_ordered k xs))
]

pub length-set_insert :
    (k : ℕ) (xs : List ℕ) → mem k xs ≡ false → length (set_insert k xs) ≡ suc (length xs)
unfolding set_insert
length-set_insert k xs new = rw new (length-insert_ordered k xs)

swap_or_new : (a b c : Bool) → (a || (b || c)) ≡ (b || (a || c))
swap_or_new true true c = refl
swap_or_new true false c = refl
swap_or_new false b c = refl

mem-insert_ordered : (j k : ℕ) (xs : List ℕ) → mem j (insert_ordered k xs) ≡ (k == j || mem j xs)
unfolding mem insert_ordered
mem-insert_ordered j k [] = refl
mem-insert_ordered j k (x ∷ xs) = elim (Bool-cases (ltb k x)) [
  | inl lt ↦ rw lt refl
  | inr ge ↦
      rw ge (
        ap (λ b. x == j || b) (mem-insert_ordered j k xs)
        ∙ swap_or_new (x == j) (k == j) (mem j xs))
]

-- An insertion changes the membership of its own key only.
pub mem-set_insert_other : (j k : ℕ) (xs : List ℕ) → j ≢ k → mem j (set_insert k xs) ≡ mem j xs
unfolding set_insert
mem-set_insert_other j k xs ne = elim (Bool-cases (mem k xs)) [
  | inl old ↦ rw old refl
  | inr new ↦
      let other : (k == j) ≡ false = ground arith in
      rw new (rw other at (mem-insert_ordered j k xs))
]

pub mem-set_insert_own : (k : ℕ) (xs : List ℕ) → mem k (set_insert k xs) ≡ true
unfolding set_insert
mem-set_insert_own k xs = elim (Bool-cases (mem k xs)) [
  | inl old ↦ rw old old
  | inr new ↦
      let own : (k == k) ≡ true = ground arith in rw new (rw own at (mem-insert_ordered k k xs))
]

-- No key twice.
unfoldable pub Distinct : List ℕ → Type 0
Distinct [] = Unit
Distinct (x ∷ xs) = (mem x xs ≡ false) × Distinct xs

pub or_false : (a b : Bool) → (a || b) ≡ false → (a ≡ false) × (b ≡ false)
or_false true b e = cc
or_false false b e = (refl, e)

insert_ordered-Distinct :
    (k : ℕ) (xs : List ℕ) → mem k xs ≡ false → Distinct xs → Distinct (insert_ordered k xs)
unfolding mem insert_ordered Distinct
insert_ordered-Distinct k [] new d = (refl, tt)
insert_ordered-Distinct k (x ∷ xs) new d = elim (Bool-cases (ltb k x)) [
  | inl lt ↦ rw lt (new, d)
  | inr ge ↦
      let parts = or_false (x == k) (mem k xs) new in
      let other : (k == x) ≡ false = ground arith in
      rw ge (
        mem-insert_ordered x k xs ∙ ap (λ b. b || mem x xs) other ∙ d.0,
        insert_ordered-Distinct k xs parts.1 d.1,
      )
]

pub set_insert-Distinct : (k : ℕ) (xs : List ℕ) → Distinct xs → Distinct (set_insert k xs)
unfolding set_insert
set_insert-Distinct k xs d = elim (Bool-cases (mem k xs)) [
  | inl old ↦ rw old d
  | inr new ↦ rw new (insert_ordered-Distinct k xs new d)
]
