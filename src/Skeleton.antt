-- ===== src/Skeleton.antt =====
-- The interface of the skeletons: the problem description `Info`
-- (include/dparallel_recursion/Arity.h and the user's class over it) and the user's `Body`
-- (include/dparallel_recursion/EmptyBody.h).
pub mod Tree
use dparallel_recursion.Common.{ℕ, Bool, Option}

-- `do_parallel` is the answer of the partitioner; `do_serial_func` is there if the user's class
-- declares a function of that name, and is then called in place of the recursion.
pub record Info {ℓ κ} (T : Type ℓ) (R : Type κ) : Type (ℓ ⊔ κ) where
  pub is_base : T → Bool
  pub num_children : T → ℕ
  pub child : ℕ → T → T
  pub do_parallel : T → Bool
  pub do_serial_func : Option (T → R → R)

-- `pre` and `pre_rec` take a reference and may change the datum; `post r rr` is the new `rr`.
pub record Body {ℓ κ} (T : Type ℓ) (R : Type κ) : Type (ℓ ⊔ κ) where
  pub process_non_base : Bool
  pub pre : T → T
  pub pre_rec : T → T
  pub base : T → R
  pub non_base : T → R
  pub post : R → R → R

-- The body of a skeleton that returns nothing: its hooks change the memory `W`.
pub record VoidBody {ℓ κ} (T : Type ℓ) (W : Type κ) : Type (ℓ ⊔ κ) where
  pub process_non_base : Bool
  pub pre : T → T
  pub pre_rec : T → T
  pub base : T → W → W
  pub non_base : T → W → W

-- The macros DPR_FORCE_ORDER_L_TO_R and DPR_FORCE_ORDER_R_TO_L.
pub record Config : Type 0 where
  pub force_l_to_r : Bool
  pub force_r_to_l : Bool
