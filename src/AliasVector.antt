-- ===== src/AliasVector.antt =====
-- include/dparallel_recursion/AliasVector.h and FillableAliasVector.h: vectors that point into arrays,
-- some of which they own. Memory is a map from the numbers of the arrays that live to their cells; a cell
-- that new[] made and nothing has set holds `none`. `none` is also the result of an assertion that fails
-- and of an access that C++ does not define.
pub mod Memory
pub mod Ownership
pub mod Archive
pub mod Ranges
use dparallel_recursion.Common.{
  ℕ, zero, suc, ◌>>=◌, ◌+◌, ◌-◌, ◌≡◌, Bool, true, false, not, ◌&&◌, Option, none, some, ltb, leb,
  ◌==◌, if◌then◌else◌, List, [], ◌∷◌, ◌++◌, length,
}

pub record Pointer : Type 0 where
  pub block : ℕ
  pub place : ℕ

pub record Heap {ℓ} (T : Type ℓ) : Type ℓ where
  pub blocks : ℕ → Option (List (Option T))
  pub next : ℕ

pub record Alias : Type 0 where
  pub data_ : Option Pointer
  pub sz_ : ℕ
  pub source_data : Option Pointer

pub record FillableAliasVector : Type 0 where
  pub alias : Alias
  pub owned_ : Bool

-- AliasVector(data, sz, sourcedata)
unfoldable pub mk_alias : Option Pointer → ℕ → Option Pointer → Alias
mk_alias start sz source = record {
  data_ = start;
  sz_ = sz;
  source_data = elim source [ none ↦ start | some p ↦ some p ];
}

-- data_ + n
unfoldable pub advance : ℕ → Option Pointer → Option Pointer
advance n none = none
advance n (some p) = some (record p { place = p.place + n })

-- range, for an exclusive range
unfoldable pub range : ℕ → ℕ → Alias → Option Alias
unfolding advance mk_alias
range start end v =
    if leb start end && leb end v.sz_
    then some (mk_alias (advance start v.data_) (end - start) v.source_data)
    else none

unfoldable pub offset : Alias → ℕ
offset v = elim v.data_ [
  | none ↦ 0
  | some p ↦ elim v.source_data [ none ↦ 0 | some q ↦ p.place - q.place ]
]

-- AliasVector::resize, and shallowResize
unfoldable pub shallow_resize : ℕ → Alias → Alias
shallow_resize sz v = record v { sz_ = sz }

-- FillableAliasVector::range never owns.
unfoldable pub fillable_range : ℕ → ℕ → FillableAliasVector → Option FillableAliasVector
unfolding range
fillable_range start end v =
    range start end v.alias >>= λ a. some (record { alias = a; owned_ = false })

unfoldable pub empty_vector : FillableAliasVector
unfolding mk_alias
empty_vector = record { alias = mk_alias none 0 none; owned_ = false }

-- FillableAliasVector(const AliasVector&): a copy never owns.
unfoldable pub copy_vector : FillableAliasVector → FillableAliasVector
copy_vector v = record v { owned_ = false }

-- FillableAliasVector(FillableAliasVector&&): the new vector, and what is left of the other one.
unfoldable pub move_vector : FillableAliasVector → FillableAliasVector × FillableAliasVector
unfolding empty_vector
move_vector other = (other, empty_vector)

unfoldable pub same_pointer : Option Pointer → Option Pointer → Bool
same_pointer none none = true
same_pointer none (some q) = false
same_pointer (some p) none = false
same_pointer (some p) (some q) = (p.block == q.block) && (p.place == q.place)

module _ {ℓ} {T : Type ℓ} where
  unfoldable pub take : ℕ → List (Option T) → List (Option T)
  take zero xs = []
  take (suc n) [] = []
  take (suc n) (x ∷ xs) = x ∷ take n xs

  unfoldable pub drop : ℕ → List (Option T) → List (Option T)
  drop zero xs = xs
  drop (suc n) [] = []
  drop (suc n) (x ∷ xs) = drop n xs

  unfoldable pub unset : ℕ → List (Option T)
  unset zero = []
  unset (suc n) = none ∷ unset n

  unfoldable pub put_block : ℕ → Option (List (Option T)) → Heap T → Heap T
  put_block b cells h = record h { blocks = λ k. if k == b then cells else h.blocks k }

  -- The n cells at a pointer.
  unfoldable pub read : Option Pointer → ℕ → Heap T → Option (List (Option T))
  unfolding take drop
  read p zero h = some []
  read none (suc n) h = none
  read (some p) (suc n) h = h.blocks p.block >>= λ cells.
      (let part = take (suc n) (drop p.place cells) in
        if length part == suc n then some part else none)

  unfoldable pub write : Option Pointer → List (Option T) → Heap T → Option (Heap T)
  unfolding take drop put_block
  write p [] h = some h
  write none (x ∷ xs) h = none
  write (some p) (x ∷ xs) h = h.blocks p.block >>= λ cells.
      (if leb (p.place + length (x ∷ xs)) (length cells)
        then some (
            put_block p.block
              (some (take p.place cells ++ (x ∷ xs) ++ drop (p.place + length (x ∷ xs)) cells)) h)
        else none)

  -- memcpy
  unfoldable pub copy_cells : Option Pointer → Option Pointer → ℕ → Heap T → Option (Heap T)
  unfolding read write
  copy_cells dst src n h = read src n h >>= λ xs. write dst xs h

  -- new T[n]
  unfoldable pub new_array : ℕ → Heap T → Option Pointer × Heap T
  unfolding put_block unset
  new_array n h = (
    some (record { block = h.next; place = 0 }),
    record (put_block h.next (some (unset n)) h) { next = suc h.next },
  )

  -- delete []
  unfoldable pub delete_array : Option Pointer → Heap T → Option (Heap T)
  unfolding put_block
  delete_array none h = some h
  delete_array (some p) h =
      if p.place == 0 then (h.blocks p.block >>= λ cells. some (put_block p.block none h)) else none

  -- FillableAliasVector(sz)
  unfoldable pub mk_vector : ℕ → Heap T → FillableAliasVector × Heap T
  unfolding new_array
  mk_vector sz h =
      let (p, h') = new_array sz h in
      if sz == 0
      then (
        record { alias = record { data_ = none; sz_ = 0; source_data = none }; owned_ = true },
        h,
      )
      else (record { alias = record { data_ = p; sz_ = sz; source_data = p }; owned_ = true }, h')

  -- ~FillableAliasVector
  unfoldable pub destroy : FillableAliasVector → Heap T → Option (Heap T)
  unfolding delete_array
  destroy v h = if v.owned_ then delete_array v.alias.source_data h else some h

  unfoldable pub deep_copy : FillableAliasVector → Heap T → Option (FillableAliasVector × Heap T)
  unfolding new_array copy_cells empty_vector
  deep_copy v h =
      let (p, h') = new_array v.alias.sz_ h in
      if v.alias.sz_ == 0
      then some (empty_vector, h)
      else (copy_cells p v.alias.data_ v.alias.sz_ h' >>= λ h''. some (
        record { alias = record { data_ = p; sz_ = v.alias.sz_; source_data = p }; owned_ = true },
        h'',
      ))

  unfoldable pub resize : ℕ → FillableAliasVector → Heap T → Option (FillableAliasVector × Heap T)
  unfolding new_array copy_cells delete_array shallow_resize
  resize sz v h =
      let (p, h') = new_array sz h in
      if v.owned_ && ltb v.alias.sz_ sz
      then (copy_cells p v.alias.data_ v.alias.sz_ h' >>= λ h''.
          delete_array v.alias.source_data h'' >>= λ h3.
          some (record v { alias = record { data_ = p; sz_ = sz; source_data = p } }, h3))
      else some (record v { alias = shallow_resize sz v.alias }, h)

  -- operator=(FillableAliasVector&&), for two vectors that are not the same: the vector, what is left of
  -- the other one, and memory.
  unfoldable pub move_assign :
      FillableAliasVector
      → FillableAliasVector
      → Heap T
      → Option (FillableAliasVector × FillableAliasVector × Heap T)
  unfolding same_pointer delete_array empty_vector
  move_assign v other h =
      if v.owned_
      then (if same_pointer v.alias.source_data other.alias.source_data
          then (if not other.owned_
                && ((v.alias.sz_ == other.alias.sz_)
                    && same_pointer v.alias.data_ other.alias.data_)
              then some (v, other, h)
              else none)
          else (delete_array v.alias.source_data h >>= λ h'. some (other, empty_vector, h')))
      else some (other, empty_vector, h)
