-- ===== src/Threads.antt =====
-- include/dparallel_recursion/parallel_stack_recursion.h: `run_thread`, the barrier `cb_t` and the
-- reduction in `start_stack_recursion::run`. The threads interleave in any order, one step of one
-- thread at a time: a step holds at most one lock, and makes at most one access to the barrier.
pub mod Push
pub mod Node
pub mod Inv
pub mod Reached
pub mod Balance
pub mod Barrier
pub mod Safety
pub mod Termination
pub mod Refinement
pub mod Progress
pub mod NoResult
pub mod Exceptions
use dparallel_recursion.Common.{
  ℕ, zero, suc, ◌+◌, ◌-◌, ◌<◌, ◌≡◌, ◌≢◌, Bool, true, false, not, ◌||◌, Option, none, some, ◌>>=◌,
  ltb, ◌==◌, if◌then◌else◌, update,
}
use dparallel_recursion.Common.Reduction.{sum_below}
use dparallel_recursion.Skeleton.{Info, Body, Config}
use dparallel_recursion.Skeleton.Tree.{add}
use dparallel_recursion.Serial.{loop_children, do_it_serial}
use dparallel_recursion.StealStack.{
  StealStack, ss_init, ss_check_stack_size, ss_push, ss_push_simple, ss_top, ss_setvalue_pos,
  ss_pop, ss_top_posn, ss_local_depth, ss_acquire, ss_steal, release_multiple_nodes,
}

module _ {ℓ} {T : Type ℓ} where
  -- for (i = from; i < from + n; ++i) push child i
  unfoldable pub push_up : (ℕ → T) → ℕ → ℕ → StealStack T → StealStack T
  push_up child zero i s = s
  push_up child (suc n) i s = push_up child n (i + 1) (ss_push_simple s (child i))

  -- for (i = n - 1; i >= 0; --i) push child i
  unfoldable pub push_down : (ℕ → T) → ℕ → StealStack T → StealStack T
  push_down child zero s = s
  push_down child (suc n) s = push_down child n (ss_push_simple s (child n))

  -- The children of the top element take its place; one of them overwrites it.
  unfoldable pub push_children : Config → (ℕ → T) → ℕ → StealStack T → StealStack T
  unfolding push_up push_down ss_setvalue_pos ss_top_posn
  push_children config child n s =
      let up = push_up child (n - 1) 1 s in
      let down = push_down child (n - 1) s in
      if config.force_l_to_r
      then ss_setvalue_pos down (child (n - 1)) (ss_top_posn down + 1 - n)
      else ss_setvalue_pos up (child 0) (ss_top_posn up + 1 - n)

module _ {ℓ κ} {T : Type ℓ} {R : Type κ} (config : Config) (info : Info T R) (body : Body T R)
    (fresh : T) where
  -- A node that is no base case, after `pre_rec` and `non_base`. The flag says that children were
  -- pushed, and that `releaseMultipleNodes` follows.
  unfoldable pub branch : ℕ → StealStack T → T → R → Option (StealStack T × R × Bool)
  branch f s d r =
      let n = info.num_children d in
      if info.do_parallel d
      then (if ltb 0 n
          then some (
            push_children config (λ i. info.child i d) n (ss_check_stack_size fresh s n),
            r,
            true,
          )
          else some (ss_pop s, r, false))
      else (loop_children config (do_it_serial info body config f) (λ i. info.child i d) n r
          >>= (λ r'. some (ss_pop s, r', false)))

  -- One round of the loop over local work, on the element at the top. `pre` and `pre_rec` change it
  -- where it stands. `f` is the fuel of the sequential recursion.
  unfoldable pub examine : ℕ → StealStack T → R → Option (StealStack T × R × Bool)
  unfolding branch ss_setvalue_pos ss_top_posn
  examine f s r =
      let d = body.pre (ss_top s) in
      let d' = body.pre_rec d in
      let s' = ss_setvalue_pos s d (ss_top_posn s) in
      let s'' = ss_setvalue_pos s' d' (ss_top_posn s) in
      let r' = if body.process_non_base then body.post (body.non_base d') r else r in
      let rest = branch f s'' d' r' in
      if info.is_base d then some (ss_pop s', body.post (body.base d) r, false) else rest

-- Where a thread stands: before its loop, in local work, before the release and the cancellation
-- of `releaseMultipleNodes`, in the search for a victim, before a theft, and in `cbarrier_wait`
-- after the increment, before `cb_done` is set, in the spin loop, before the decrement, before the
-- reset of `cb_cancel` and before the read of `cb_done`.
pub data Pc : Type 0 where
  starting working releasing cancelling searching : Pc
  stealing : (victim : ℕ) → Pc
  arriving completing waiting leaving resetting returning finished : Pc

pub record System {ℓ κ} (T : Type ℓ) (R : Type κ) : Type (ℓ ⊔ κ) where
  pub steal_stack : ℕ → StealStack T
  pub result : ℕ → R
  pub pc : ℕ → Pc
  pub cb_count : ℕ
  pub cb_cancel : Bool
  pub cb_done : Bool

module _ {ℓ κ} {T : Type ℓ} {R : Type κ} (config : Config) (info : Info T R) (body : Body T R)
    (unit : R) (fresh : T) (root : T) (n chunk_size : ℕ) where
  -- Thread 0 pushes the root.
  abbrev pub started : ℕ → StealStack T → StealStack T
  started i s = if i == 0 then ss_push fresh s root else s

  -- The reads of `findwork` are not made at one instant, so in a search any other thread may be
  -- named, or none.
  pub data Step (s : System T R) : System T R → Type (ℓ ⊔ κ) where
    start :
        (i : ℕ)
        → i < n
        → s.pc i ≡ starting
        → Step s (record s {
          steal_stack = update s.steal_stack i (started i (s.steal_stack i));
          pc = update s.pc i working;
        })
    work :
        (i f : ℕ) (t : StealStack T) (r : R) (pushed : Bool)
        → i < n
        → s.pc i ≡ working
        → 0 < ss_local_depth (s.steal_stack i)
        → examine config info body fresh f (s.steal_stack i) (s.result i) ≡ some (t, r, pushed)
        → Step s (record s {
          steal_stack = update s.steal_stack i t;
          result = update s.result i r;
          pc = update s.pc i (if pushed then releasing else working);
        })
    release :
        (i : ℕ)
        → i < n
        → s.pc i ≡ releasing
        → Step s (record s {
          steal_stack =
              update s.steal_stack i (release_multiple_nodes (s.steal_stack i) chunk_size).0;
          pc = update s.pc i (
              if (release_multiple_nodes (s.steal_stack i) chunk_size).1
              then cancelling
              else working);
        })
    cancel :
        (i : ℕ)
        → i < n
        → s.pc i ≡ cancelling
        → Step s (record s { cb_cancel = true; pc = update s.pc i working })
    acquire :
        (i : ℕ)
        → i < n
        → s.pc i ≡ working
        → ss_local_depth (s.steal_stack i) ≡ 0
        → Step s (record s {
          steal_stack = update s.steal_stack i (ss_acquire (s.steal_stack i) chunk_size).0;
          pc =
              update s.pc i
                (if (ss_acquire (s.steal_stack i) chunk_size).1 then working else searching);
        })
    find :
        (i victim : ℕ)
        → i < n
        → s.pc i ≡ searching
        → victim < n
        → victim ≢ i
        → Step s (record s { pc = update s.pc i (stealing victim) })
    steal :
        (i victim : ℕ)
        → i < n
        → s.pc i ≡ stealing victim
        → victim < n
        → victim ≢ i
        → Step s (record s {
          steal_stack =
              update
                (update s.steal_stack i
                  (ss_steal fresh (s.steal_stack i) (s.steal_stack victim) chunk_size).0)
                victim
                (ss_steal fresh (s.steal_stack i) (s.steal_stack victim) chunk_size).1;
          pc = update s.pc i (
              if (ss_steal fresh (s.steal_stack i) (s.steal_stack victim) chunk_size).2
              then working
              else searching);
        })
    arrive :
        (i : ℕ)
        → i < n
        → s.pc i ≡ searching
        → Step s (record s { cb_count = s.cb_count + 1; pc = update s.pc i arriving })
    check :
        (i : ℕ)
        → i < n
        → s.pc i ≡ arriving
        → Step s (record s { pc = update s.pc i (if s.cb_count == n then completing else waiting) })
    complete :
        (i : ℕ)
        → i < n
        → s.pc i ≡ completing
        → Step s (record s { cb_done = true; pc = update s.pc i waiting })
    leave :
        (i : ℕ)
        → i < n
        → s.pc i ≡ waiting
        → (s.cb_cancel || s.cb_done) ≡ true
        → Step s (record s { pc = update s.pc i leaving })
    decrement :
        (i : ℕ)
        → i < n
        → s.pc i ≡ leaving
        → Step s (record s { cb_count = s.cb_count - 1; pc = update s.pc i resetting })
    reset :
        (i : ℕ)
        → i < n
        → s.pc i ≡ resetting
        → Step s (record s { cb_cancel = false; pc = update s.pc i returning })
    return :
        (i : ℕ)
        → i < n
        → s.pc i ≡ returning
        → Step s (record s { pc = update s.pc i (if s.cb_done then finished else working) })

  -- `run` before the threads start: every stack is emptied by `ss_init`.
  unfoldable pub init : (ℕ → StealStack T) → ℕ → System T R
  init raw initial_stack_size = record {
    steal_stack = λ i. ss_init fresh (raw i) initial_stack_size;
    result = λ i. unit;
    pc = λ i. starting;
    cb_count = 0;
    cb_cancel = false;
    cb_done = false;
  }

  pub data Reach (raw : ℕ → StealStack T) (size : ℕ) : System T R → Type (ℓ ⊔ κ) where
    begin : Reach raw size (init raw size)
    then_step : {s t : System T R} → Reach raw size s → Step s t → Reach raw size t

  -- `run` after the threads are joined: for each thread, body.post(r[threadId], rr).
  unfoldable pub joined : System T R → R
  joined s = sum_below (add info body unit) unit s.result n
