-- ===== src/StealStack.antt =====
-- include/dparallel_recursion/parallel_stack_recursion.h: `StealStack` and the operations on it of
-- `parallel_stack_recursion_internal`. The cells from `shared_start` to `local` may be stolen by other
-- threads, those from `local` to `top` are the owner's. Indices are numbers that do not overflow.
pub mod View
pub mod Grow
pub mod Steal
use dparallel_recursion.Common.{
  ℕ, zero, suc, ◌+◌, ◌-◌, ◌*◌, ◌/◌, ◌%◌, Bool, true, false, ◌&&◌, Option, none, some, ltb, leb,
  if◌then◌else◌, update,
}

-- `stack` gives the element at each index below `stack_size`.
pub record StealStack {ℓ} (T : Type ℓ) : Type ℓ where
  pub shared_start : ℕ
  pub stack : ℕ → T
  pub n_nodes : ℕ
  pub stack_size : ℕ
  pub local : ℕ
  pub top : ℕ

module _ {ℓ} {T : Type ℓ} where
  unfoldable pub ss_mk_empty : StealStack T → StealStack T
  ss_mk_empty s = record s { shared_start = 0; local = 0; top = 0 }

  -- `vector::resize` fills a longer vector with `T()`, the argument `fresh`.
  abbrev resized : T → StealStack T → ℕ → ℕ → T
  resized fresh s size i = if ltb i s.stack_size then s.stack i else fresh

  unfoldable pub ss_init : T → StealStack T → ℕ → StealStack T
  unfolding ss_mk_empty
  ss_init fresh s nelts =
      ss_mk_empty (record s { stack = resized fresh s nelts; stack_size = nelts; n_nodes = 0 })

  abbrev pub grown_size : StealStack T → ℕ
  grown_size s = s.stack_size + (s.stack_size / 2 + 2)

  -- A grown stack drops the cells below the shared portion: they move to the front.
  unfoldable pub ss_grow_stack_size : T → StealStack T → StealStack T
  ss_grow_stack_size fresh s =
      if ltb 0 s.shared_start && ltb s.shared_start s.top
      then (record s {
        stack = λ i. if ltb i (s.top - s.shared_start) then s.stack (s.shared_start + i) else fresh;
        stack_size = grown_size s;
        top = s.top - s.shared_start;
        local = s.local - s.shared_start;
        shared_start = 0;
      })
      else (record s { stack = resized fresh s (grown_size s); stack_size = grown_size s })

  -- while (s->top + n > s->stackSize) ss_growStackSize(s); at most `fuel` rounds.
  unfoldable pub grow_while : ℕ → (StealStack T → Bool) → T → StealStack T → StealStack T
  grow_while zero too_small fresh s = s
  grow_while (suc fuel) too_small fresh s =
      let again = grow_while fuel too_small fresh (ss_grow_stack_size fresh s) in
      if too_small s then again else s

  unfoldable pub ss_check_stack_size : T → StealStack T → ℕ → StealStack T
  unfolding grow_while
  ss_check_stack_size fresh s n = grow_while (s.top + n) (λ t. ltb t.stack_size (t.top + n)) fresh s

  unfoldable pub ss_push_simple : StealStack T → T → StealStack T
  ss_push_simple s c = record s { stack = update s.stack s.top c; top = s.top + 1 }

  unfoldable pub ss_push : T → StealStack T → T → StealStack T
  unfolding grow_while ss_push_simple
  ss_push fresh s c =
      ss_push_simple (grow_while (s.top + 1) (λ t. leb t.stack_size t.top) fresh s) c

  unfoldable pub ss_top : StealStack T → T
  ss_top s = s.stack (s.top - 1)

  unfoldable pub ss_setvalue_pos : StealStack T → T → ℕ → StealStack T
  ss_setvalue_pos s c position = record s { stack = update s.stack position c }

  unfoldable pub ss_pop : StealStack T → StealStack T
  ss_pop s = record s { top = s.top - 1 }

  unfoldable pub ss_top_posn : StealStack T → ℕ
  ss_top_posn s = s.top - 1

  unfoldable pub ss_local_depth : StealStack T → ℕ
  ss_local_depth s = s.top - s.local

  unfoldable pub ss_release : StealStack T → ℕ → StealStack T
  ss_release s chunk_size = record s { local = s.local + chunk_size }

  -- The stack with its shared portion a chunk shorter, and whether there was a chunk.
  unfoldable pub ss_acquire : StealStack T → ℕ → StealStack T × Bool
  ss_acquire s chunk_size =
      if leb chunk_size (s.local - s.shared_start)
      then (record s { local = s.local - chunk_size }, true)
      else (s, false)

  -- std::copy_n from the victim to the top of the thief
  unfoldable pub copy_n : (ℕ → T) → ℕ → (ℕ → T) → ℕ → ℕ → ℕ → T
  copy_n from start to at n i = if leb at i && ltb i (at + n) then from (start + (i - at)) else to i

  -- The thief and the victim after an attempt, and whether it stole.
  unfoldable pub ss_steal : T → StealStack T → StealStack T → ℕ → StealStack T × StealStack T × Bool
  unfolding grow_while copy_n
  ss_steal fresh s victim chunk_size =
      let thief =
        grow_while (s.top + chunk_size + 1) (λ t. leb t.stack_size (t.top + chunk_size)) fresh s in
      if leb chunk_size (victim.local - victim.shared_start)
      then (
        record thief {
          stack = copy_n victim.stack victim.shared_start thief.stack thief.top chunk_size;
          top = thief.top + chunk_size;
        },
        record victim { shared_start = victim.shared_start + chunk_size },
        true,
      )
      else (thief, victim, false)

  -- How much `releaseNodes` and `releaseMultipleNodes` give to the shared portion.
  unfoldable pub release_nodes : StealStack T → ℕ → StealStack T × Bool
  unfolding ss_local_depth ss_release
  release_nodes s chunk_size =
      if ltb (chunk_size * 2) (ss_local_depth s)
      then (ss_release s chunk_size, true)
      else (s, false)

  unfoldable pub release_multiple_nodes : StealStack T → ℕ → StealStack T × Bool
  unfolding ss_local_depth ss_release
  release_multiple_nodes s chunk_size =
      if ltb (chunk_size * 2) (ss_local_depth s)
      then (ss_release s (chunk_size * (ss_local_depth s / chunk_size - 1)), true)
      else (s, false)

  -- for (i = 1; i < n; i++): the first thread after `thread_id`, in turn, with a chunk to steal.
  unfoldable pub findwork_from : ℕ → ℕ → ℕ → (ℕ → StealStack T) → ℕ → ℕ → Option ℕ
  findwork_from n thread_id chunk_size stacks zero i = none
  findwork_from n thread_id chunk_size stacks (suc rounds) i =
      let v = (thread_id + i) % n in
      let rest = findwork_from n thread_id chunk_size stacks rounds (i + 1) in
      if leb chunk_size ((stacks v).local - (stacks v).shared_start) then some v else rest

  unfoldable pub findwork : ℕ → ℕ → ℕ → (ℕ → StealStack T) → Option ℕ
  unfolding findwork_from
  findwork n thread_id chunk_size stacks = findwork_from n thread_id chunk_size stacks (n - 1) 1
