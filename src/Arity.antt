-- ===== src/Arity.antt =====
-- include/dparallel_recursion/Arity.h: the level of the tree from which the automatic partitioner runs the
-- problems sequentially. An unsigned int has 32 bits, and its products wrap around.
pub mod Levels
use dparallel_recursion.Common.{
  ℕ, zero, suc, ◌+◌, ◌*◌, ◌%◌, ◌^◌, Option, none, some, ltb, ◌==◌, if◌then◌else◌,
}

-- Nlevels, at most `fuel` calls deep.
unfoldable pub nlevels : ℕ → ℕ → ℕ → ℕ → ℕ → Option ℕ
nlevels zero num_children ntasks t i = none
nlevels (suc fuel) num_children ntasks t i =
    let again = nlevels fuel num_children ntasks (t * num_children % 2 ^ 32) (i + 1) in
    if ltb t ntasks then again else some i

unfoldable pub levels_for_ntasks : ℕ → ℕ → ℕ → Option ℕ
unfolding nlevels
levels_for_ntasks fuel num_children ntasks =
    if num_children == 0
    then some 3
    else (if num_children == 1 then some 0 else nlevels fuel num_children ntasks 1 0)
