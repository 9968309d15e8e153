-- ===== src/Tests/Vectors.antt =====
-- The theorems on alias vectors at two small arrays.
use dparallel_recursion.Common.{
  ℕ, zero, suc, ◌≡◌, refl, ap, true, false, Option, none, some, ◌>>=◌, ◌==◌, if◌then◌else◌, List,
  [], ◌∷◌, ◌++◌, length, ◌⊎◌,
}
use dparallel_recursion.AliasVector.{
  Pointer, Heap, FillableAliasVector, read, take, drop, move_assign, destroy, range, mk_alias,
  advance,
}
use dparallel_recursion.AliasVector.Ownership.{contents, Owns, move_assign-destroy}
use dparallel_recursion.AliasVector.Archive.{Format, IsLossless, save, load, load-save, all_set}
use dparallel_recursion.AliasVector.Ranges.{vector_at}

abbrev at_start : ℕ → Pointer
at_start b = record { block = b; place = 0 }

-- Array 0 holds 7 and 8, array 1 holds 9.
abbrev memory : Heap ℕ
memory = record {
  blocks = λ k.
      if k == 0 then some (some 7 ∷ some 8 ∷ []) else (if k == 1 then some (some 9 ∷ []) else none);
  next = 2;
}

abbrev two : FillableAliasVector
two = record { alias = vector_at (at_start 0) (at_start 0) 2; owned_ = true }

abbrev single : FillableAliasVector
single = record { alias = vector_at (at_start 1) (at_start 1) 1; owned_ = true }

abbrev nothing : FillableAliasVector
nothing = record { alias = record { data_ = none; sz_ = 0; source_data = none }; owned_ = false }

abbrev cells : List (Option ℕ)
cells = some 7 ∷ some 8 ∷ []

two-contents : contents two memory ≡ some cells
unfolding contents read take drop
two-contents = refl

two-Owns : Owns 0 two memory
two-Owns = record { owner = refl; source = refl; lives = (cells, refl) }

single-Owns : Owns 1 single memory
single-Owns = record { owner = refl; source = refl; lives = (some 9 ∷ [], refl) }

move_assign-destroy_example :
    (w rest : FillableAliasVector) × (h1 : Heap ℕ) × (h2 : Heap ℕ) × (move_assign two single memory
      ≡ some (w, rest, h1))
    × (contents w h1 ≡ contents single memory)
    × Owns 1 w h1
    × (destroy rest h1 ≡ some h1)
    × (destroy w h1 ≡ some h2)
    × (h2.blocks 0 ≡ none)
    × (h2.blocks 1 ≡ none)
    × ((k : ℕ) → (k == 0) ≡ false → (k == 1) ≡ false → h2.blocks k ≡ memory.blocks k)
move_assign-destroy_example =
    move_assign-destroy two single 0 1 0 memory two-Owns single-Owns refl refl

-- Sizes and values are written as they are.
first_size : List ℕ → Option (ℕ × List ℕ)
first_size [] = none
first_size (n ∷ bytes) = some (n, bytes)

first_values : ℕ → List ℕ → Option (List ℕ × List ℕ)
first_values zero bytes = some ([], bytes)
first_values (suc n) [] = none
first_values (suc n) (x ∷ bytes) = first_values n bytes >>= λ p. some (x ∷ p.0, p.1)

abbrev plain : Format ℕ ℕ
plain = record {
  size_bytes = λ n. n ∷ [];
  array_bytes = λ xs. xs;
  get_size = first_size;
  get_array = first_values;
}

values_back : (xs rest : List ℕ) → first_values (length xs) (xs ++ rest) ≡ some (xs, rest)
unfolding first_values
values_back [] rest = refl
values_back (x ∷ xs) rest = ap (λ m. m >>= λ p. some (x ∷ p.0, p.1)) (values_back xs rest)

plain-IsLossless : IsLossless plain
unfolding first_size
plain-IsLossless = record { size_back = λ n rest. refl; array_back = values_back }

two-saved : save plain two memory ≡ some (2 ∷ 7 ∷ 8 ∷ [])
unfolding save read take drop all_set
two-saved = refl

load-save_example :
    (u : FillableAliasVector) × (h2 : Heap ℕ) × (load plain nothing
        ((2 ∷ 7 ∷ 8 ∷ []) ++ 5 ∷ [])
        memory
      ≡ some (u, 5 ∷ [], h2))
    × (u.alias.sz_ ≡ 2)
    × (contents u h2 ≡ contents two memory)
    × ((u.owned_ ≡ true) ⊎ (two.alias.sz_ ≡ 0))
    × ((k : ℕ) → (k == 2) ≡ false → h2.blocks k ≡ memory.blocks k)
load-save_example =
    load-save plain two nothing (2 ∷ 7 ∷ 8 ∷ []) (5 ∷ []) memory memory plain-IsLossless two-saved
      refl

range_of_two :
    range 1 2 two.alias
    ≡ some (record {
      data_ = some (record { block = 0; place = 1 });
      sz_ = 1;
      source_data = some (at_start 0);
    })
unfolding range mk_alias advance
range_of_two = refl
