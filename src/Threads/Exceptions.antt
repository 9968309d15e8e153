-- ===== src/Threads/Exceptions.antt =====
-- include/dparallel_recursion/parallel_stack_recursion.h: what `run_thread` does with an exception of a
-- hook or of an allocation, and how `run` ends. The catch clause stores the exception, and then sets
-- `cb_done` and `cb_cancel`, in two writes between which other threads may make steps: with the
-- spinlock no lock is held around them.
pub mod Errors
use dparallel_recursion.Common.{ℕ, ◌<◌, ◌≡◌, Bool, true, false, Option, none, some, update}
use dparallel_recursion.Skeleton.{Info, Body, Config}
use dparallel_recursion.StealStack.{StealStack}
use dparallel_recursion.Threads.{
  Pc, starting, working, stealing, finished, System, Step, init, joined,
}

-- `failing` threads are in the catch clause, before it sets the flags, and `shutting` threads between its
-- two writes.
pub record Failable {ℓ κ ε} (T : Type ℓ) (R : Type κ) (E : Type ε) : Type (ℓ ⊔ κ ⊔ ε) where
  pub system : System T R
  pub global_exception : Option E
  pub failing : ℕ → Bool
  pub shutting : ℕ → Bool

-- What `run` ends with.
pub data Outcome {κ ε} (R : Type κ) (E : Type ε) : Type (κ ⊔ ε) where
  returned : R → Outcome R E
  rethrown : E → Outcome R E

-- Where hooks run, or a stack grows.
abbrev pub may_throw : Pc → Bool
may_throw starting = true
may_throw working = true
may_throw (stealing victim) = true
may_throw _ = false

module _ {ℓ κ ε} {T : Type ℓ} {R : Type κ} {E : Type ε} (config : Config) (info : Info T R)
    (body : Body T R) (unit : R) (fresh root : T) (n chunk_size : ℕ) where
  -- A thread that throws makes no step of its loop any more; its stack is left in any state.
  pub data FailStep (s : Failable T R E) : Failable T R E → Type (ℓ ⊔ κ ⊔ ε) where
    proceed :
        (t : System T R)
        → Step config info body unit fresh root n chunk_size s.system t
        → FailStep s (record s { system = t })
    throw :
        (i : ℕ) (e : E) (left : StealStack T)
        → i < n
        → may_throw (s.system.pc i) ≡ true
        → FailStep s (record s {
          system = record s.system {
            steal_stack = update s.system.steal_stack i left;
            pc = update s.system.pc i finished;
          };
          global_exception = some e;
          failing = update s.failing i true;
        })
    set_done :
        (i : ℕ)
        → i < n
        → s.failing i ≡ true
        → FailStep s (record s {
          system = record s.system { cb_done = true };
          failing = update s.failing i false;
          shutting = update s.shutting i true;
        })
    set_cancel :
        (i : ℕ)
        → i < n
        → s.shutting i ≡ true
        → FailStep s (record s {
          system = record s.system { cb_cancel = true };
          shutting = update s.shutting i false;
        })

  unfoldable pub fail_init : (ℕ → StealStack T) → ℕ → Failable T R E
  fail_init raw size = record {
    system = init config info body unit fresh root n chunk_size raw size;
    global_exception = none;
    failing = λ i. false;
    shutting = λ i. false;
  }

  pub data FailReach (raw : ℕ → StealStack T) (size : ℕ) : Failable T R E → Type (ℓ ⊔ κ ⊔ ε) where
    fail_begin : FailReach raw size (fail_init raw size)
    fail_then : {s t : Failable T R E} → FailReach raw size s → FailStep s t → FailReach raw size t

  -- `run` after the threads are joined. What it has reduced by then is dropped with an exception.
  unfoldable pub outcome : Failable T R E → Outcome R E
  outcome s = elim s.global_exception [
    | none ↦ returned (joined config info body unit fresh root n chunk_size s.system)
    | some e ↦ rethrown e
  ]

-- The thread has left `run_thread`.
abbrev pub IsOver {ℓ κ ε} : {T : Type ℓ} {R : Type κ} {E : Type ε} → Failable T R E → ℕ → Type 0
IsOver s i = (s.system.pc i ≡ finished) × (s.failing i ≡ false) × (s.shutting i ≡ false)
