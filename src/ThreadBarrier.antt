-- ===== src/ThreadBarrier.antt =====
-- include/dparallel_recursion/dpr_utils.h: the class thread_barrier. A call of `wait` is an arrival under
-- the lock, and, for all but the last thread, a wait until the generation changes.
use dparallel_recursion.Common.{
  ℕ, zero, suc, ◌+◌, ◌-◌, Bool, not, Option, none, some, ◌==◌, if◌then◌else◌,
}

pub record ThreadBarrier : Type 0 where
  pub threshold : ℕ
  pub count : ℕ
  pub generation : ℕ

unfoldable pub thread_barrier : ℕ → ThreadBarrier
thread_barrier i_count = record { threshold = i_count; count = i_count; generation = 0 }

-- The arrival: the barrier after it, and the generation that the thread has to wait for the end of.
unfoldable pub wait : ThreadBarrier → ThreadBarrier × Option ℕ
wait b =
    if b.count - 1 == 0
    then (record b { generation = b.generation + 1; count = b.threshold }, none)
    else (record b { count = b.count - 1 }, some b.generation)

-- The condition under which a thread that waits goes on.
unfoldable pub awake : ThreadBarrier → ℕ → Bool
awake b l_gen = not (l_gen == b.generation)

unfoldable pub arrivals : ℕ → ThreadBarrier → ThreadBarrier
unfolding wait
arrivals zero b = b
arrivals (suc n) b = (wait (arrivals n b)).0

abbrev pub fresh_at : ℕ → ℕ → ThreadBarrier
fresh_at n g = record { threshold = n; count = n; generation = g }
