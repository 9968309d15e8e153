-- ===== src/Threads/Refinement.antt =====
-- The parallel recursion implements the sequential one.
use dparallel_recursion.Common.{ℕ, ◌<◌, ◌≡◌, sym, ap, ◌∙◌, some}
use dparallel_recursion.Common.Reduction.{IsReduction, identity_left}
use dparallel_recursion.Skeleton.{Info, Body, Config}
use dparallel_recursion.Skeleton.Tree.{IsRanked, add, value}
use dparallel_recursion.Serial.{do_it_serial}
use dparallel_recursion.Serial.Total.{SerialFuncAgrees, do_it_serial-value}
use dparallel_recursion.StealStack.{StealStack}
use dparallel_recursion.Threads.{System, Reach, finished, joined}
use dparallel_recursion.Threads.Balance.{joined-value}

module _ {ℓ κ} {T : Type ℓ} {R : Type κ} (config : Config) (info : Info T R) (body : Body T R)
    (unit : R) (fresh root : T) (n k : ℕ) (pos : 0 < k)
    (law : IsReduction (add info body unit) unit) (ranked : IsRanked info body)
    (agrees : SerialFuncAgrees info body unit law ranked) where
  open ranked use {rank}

  -- For a reduction by a commutative monoid over a problem that gets smaller, at least one thread
  -- and chunks of at least one element: in any interleaving, when all threads have returned, `run`
  -- returns what the sequential recursion returns from the unit, in either order of the children,
  -- with any fuel above the rank of the root.
  pub joined-serial :
      {raw : ℕ → StealStack T} {size : ℕ} {s : System T R} (order : Config) (f : ℕ)
      → 0 < n
      → Reach config info body unit fresh root n k raw size s
      → ((i : ℕ) → i < n → s.pc i ≡ finished)
      → rank root < f
      → do_it_serial info body order f unit root
        ≡ some (joined config info body unit fresh root n k s)
  joined-serial order f lt reached over enough =
      do_it_serial-value info body unit law ranked agrees order f unit root enough
      ∙ ap some (
          identity_left (add info body unit) unit law (value info body unit ranked root)
          ∙ sym (
              joined-value config info body unit fresh root n k pos law ranked agrees lt reached
                over))
