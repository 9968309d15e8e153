-- ===== src/Threads/NoResult.antt =====
-- include/dparallel_recursion/parallel_stack_recursion.h: the round of local work of
-- `start_stack_recursion<void, ...>::run_thread`, whose body returns nothing and changes the memory.
use dparallel_recursion.Common.{
  ℕ, ◌≡◌, refl, ap, fun_ext, Bool, true, false, Option, some, ◌>>=◌, ltb, if◌then◌else◌, inl, inr,
  Bool-cases,
}
use dparallel_recursion.Skeleton.{Info, Body, VoidBody, Config}
use dparallel_recursion.Serial.{loop_children, do_it_serial_void}
use dparallel_recursion.Serial.Variants.{as_void, do_it_serial_void-eq}
use dparallel_recursion.StealStack.{
  StealStack, ss_check_stack_size, ss_top, ss_setvalue_pos, ss_pop, ss_top_posn,
}
use dparallel_recursion.Threads.{push_children, branch, examine}

module _ {ℓ κ} {T : Type ℓ} {W : Type κ} (config : Config) (info : Info T W) (body : VoidBody T W)
    (fresh : T) where
  unfoldable pub branch_void : ℕ → StealStack T → T → W → Option (StealStack T × W × Bool)
  branch_void f s d w =
      let n = info.num_children d in
      if info.do_parallel d
      then (if ltb 0 n
          then some (
            push_children config (λ i. info.child i d) n (ss_check_stack_size fresh s n),
            w,
            true,
          )
          else some (ss_pop s, w, false))
      else (loop_children config (do_it_serial_void info body config f) (λ i. info.child i d) n w
          >>= (λ w'. some (ss_pop s, w', false)))

  unfoldable pub examine_void : ℕ → StealStack T → W → Option (StealStack T × W × Bool)
  unfolding branch_void ss_setvalue_pos ss_top_posn
  examine_void f s w =
      let d = body.pre (ss_top s) in
      let d' = body.pre_rec d in
      let s' = ss_setvalue_pos s d (ss_top_posn s) in
      let s'' = ss_setvalue_pos s' d' (ss_top_posn s) in
      let w' = if body.process_non_base then body.non_base d' w else w in
      let rest = branch_void f s'' d' w' in
      if info.is_base d then some (ss_pop s', body.base d w, false) else rest

module _ {ℓ κ} {T : Type ℓ} {R : Type κ} (config : Config) (info : Info T R) (body : Body T R)
    (fresh : T) where
  abbrev silent : VoidBody T R
  silent = as_void config info body

  branch_void-eq :
      (f : ℕ) (s : StealStack T) (d : T) (r : R)
      → branch_void config info silent fresh f s d r ≡ branch config info body fresh f s d r
  unfolding branch_void branch
  branch_void-eq f s d r = elim (Bool-cases (info.do_parallel d)) [
    | inl e ↦ rw e refl
    | inr e ↦ rw e (
        ap
          (λ rec.
            loop_children config rec (λ i. info.child i d) (info.num_children d) r
            >>= (λ r'. some (ss_pop s, r', false)))
          (fun_ext (λ x. fun_ext (do_it_serial_void-eq config info body f x))))
  ]

  -- A round of local work of the version with no result, over the accumulator as its memory, runs as
  -- the round of the version with a result.
  pub examine_void-eq :
      (f : ℕ) (s : StealStack T) (r : R)
      → examine_void config info (as_void config info body) fresh f s r
        ≡ examine config info body fresh f s r
  unfolding examine_void examine
  examine_void-eq f s r = elim (Bool-cases (info.is_base (body.pre (ss_top s)))) [
    | inl e ↦ rw e refl
    | inr e ↦ rw e (branch_void-eq f _ _ _)
  ]
