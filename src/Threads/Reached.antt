-- ===== src/Threads/Reached.antt =====
-- Every step of the threads keeps each thread well formed.
use dparallel_recursion.Common.{
  ℕ, ◌<◌, ◌≡◌, refl, ap, ◌∙◌, Bool, true, false, some, ==_iff, subst, ◌≢◌, inl, inr, arith, ◌==◌,
  if◌then◌else◌, update, Bool-cases,
}
use dparallel_recursion.Common.Reduction.{IsReduction}
use dparallel_recursion.Skeleton.{Info, Body, Config}
use dparallel_recursion.Skeleton.Tree.{IsRanked, add}
use dparallel_recursion.Serial.Total.{SerialFuncAgrees}
use dparallel_recursion.StealStack.{StealStack, ss_init, ss_mk_empty, ss_local_depth}
use dparallel_recursion.StealStack.View.{ss_init-IsValid}
use dparallel_recursion.StealStack.Grow.{items-ss_push}
use dparallel_recursion.Threads.Node.{examine-Examined}
use dparallel_recursion.Threads.Inv.{
  idle, ThreadOk, update-ThreadOk, move-ThreadOk, moved, release-ThreadOk, acquire-ThreadOk,
  thief-ThreadOk, victim-ThreadOk,
}
use dparallel_recursion.Threads.{
  Pc, starting, working, releasing, cancelling, stealing, arriving, waiting, leaving, resetting,
  returning, examine, System, Step, start, work, release, cancel, acquire, find, steal, arrive,
  check, complete, leave, decrement, reset, return, Reach, begin, then_step, init, started,
}

abbrev pub AllOk {ℓ κ} : {T : Type ℓ} {R : Type κ} → ℕ → System T R → Type 0
AllOk k s = (j : ℕ) → ThreadOk k (s.steal_stack j) (s.pc j)

busy-if :
    (b : Bool) (p q : Pc) → idle p ≡ false → idle q ≡ false → idle (if b then p else q) ≡ false
busy-if true p q hp hq = hp
busy-if false p q hp hq = hq

module _ {ℓ κ} {T : Type ℓ} {R : Type κ} (config : Config) (info : Info T R) (body : Body T R)
    (unit : R) (fresh root : T) (n k : ℕ) (pos : 0 < k)
    (law : IsReduction (add info body unit) unit) (ranked : IsRanked info body)
    (agrees : SerialFuncAgrees info body unit law ranked) where
  started-ThreadOk :
      (s : System T R) (i : ℕ)
      → s.pc i ≡ starting
      → AllOk k s
      → ThreadOk k (started config info body unit fresh root n k i (s.steal_stack i)) working
  started-ThreadOk s i e ok = elim (Bool-cases (i == 0)) [
    | inl first ↦
        let pushed = items-ss_push fresh (s.steal_stack i) root (ok i).valid in
        rw first (record {
          valid = pushed.0;
          chunks = (ok i).chunks;
          aligned = pushed.2 ∙ (ok i).aligned;
          quiet = λ x. cc;
        })
    | inr other ↦ rw other (record {
      valid = (ok i).valid;
      chunks = (ok i).chunks;
      aligned = (ok i).aligned;
      quiet = λ x. cc;
    })
  ]

  work-ThreadOk :
      (s : System T R) (i f : ℕ) (t : StealStack T) (r : R) (pushed : Bool)
      → 0 < ss_local_depth (s.steal_stack i)
      → examine config info body fresh f (s.steal_stack i) (s.result i) ≡ some (t, r, pushed)
      → AllOk k s
      → ThreadOk k t (if pushed then releasing else working)
  unfolding ss_local_depth
  work-ThreadOk s i f t r pushed deep ran ok =
      let done =
        examine-Examined info body unit law ranked agrees config fresh f (s.steal_stack i)
          (s.result i) (t, r, pushed) (ok i).valid (omega arith) ran in
      record {
        valid = done.valid;
        chunks = (ok i).chunks;
        aligned = done.same_shared ∙ (ok i).aligned;
        quiet = λ x. let busy = busy-if pushed releasing working refl refl in cc;
      }

  theft-AllOk :
      (s : System T R) (i v : ℕ) (a b : StealStack T) (p : Pc)
      → v ≢ i
      → AllOk k s
      → ThreadOk k a p
      → ThreadOk k b (s.pc v)
      → (j : ℕ) → ThreadOk k (update (update s.steal_stack i a) v b j) (update s.pc i p j)
  theft-AllOk s i v a b p ne ok thief victim j = elim (Bool-cases (v == j)) [
    | inl e ↦
        let same = (==_iff v j).0 e in
        let miss : (i == j) ≡ false = ground arith in
        rw (e, miss) (subst (λ x. ThreadOk k b (s.pc x)) same victim)
    | inr e ↦ rw e (update-ThreadOk k s.steal_stack s.pc i a p ok thief j)
  ]

  -- Every step of a thread keeps all threads well formed.
  pub Step-AllOk :
      {s t : System T R} → Step config info body unit fresh root n k s t → AllOk k s → AllOk k t
  Step-AllOk {s} (start i lt e) ok = update-ThreadOk k _ _ i _ _ ok (started-ThreadOk s i e ok)
  Step-AllOk {s} (work i f t r pushed lt e deep ran) ok =
      update-ThreadOk k _ _ i _ _ ok (work-ThreadOk s i f t r pushed deep ran ok)
  Step-AllOk {s} (release i lt e) ok =
      update-ThreadOk k _ _ i _ _ ok
        (release-ThreadOk k _ pos (busy-if _ cancelling working refl refl) (ok i))
  Step-AllOk {s} (cancel i lt e) ok = move-ThreadOk k _ _ i _ ok (moved k working (ok i) (λ x. cc))
  Step-AllOk {s} (acquire i lt e shallow) ok =
      update-ThreadOk k _ _ i _ _ ok (acquire-ThreadOk k pos shallow (ok i))
  Step-AllOk {s} (find i victim lt e v_lt ne) ok =
      move-ThreadOk k _ _ i _ ok (moved k (stealing victim) (ok i) (λ x. ap idle e))
  Step-AllOk {s} (steal i victim lt e v_lt ne) ok =
      theft-AllOk s i victim _ _ _ ne ok
        (thief-ThreadOk k fresh _ _ _ _ (ap idle e) (ok i) (ok victim))
        (victim-ThreadOk k fresh _ _ _ _ pos (ok i) (ok victim))
  Step-AllOk {s} (arrive i lt e) ok =
      move-ThreadOk k _ _ i _ ok (moved k arriving (ok i) (λ x. ap idle e))
  Step-AllOk {s} (check i lt e) ok = move-ThreadOk k _ _ i _ ok (moved k _ (ok i) (λ x. ap idle e))
  Step-AllOk {s} (complete i lt e) ok =
      move-ThreadOk k _ _ i _ ok (moved k waiting (ok i) (λ x. ap idle e))
  Step-AllOk {s} (leave i lt e go) ok =
      move-ThreadOk k _ _ i _ ok (moved k leaving (ok i) (λ x. ap idle e))
  Step-AllOk {s} (decrement i lt e) ok =
      move-ThreadOk k _ _ i _ ok (moved k resetting (ok i) (λ x. ap idle e))
  Step-AllOk {s} (reset i lt e) ok =
      move-ThreadOk k _ _ i _ ok (moved k returning (ok i) (λ x. ap idle e))
  Step-AllOk {s} (return i lt e) ok = move-ThreadOk k _ _ i _ ok (moved k _ (ok i) (λ x. ap idle e))

  init-AllOk :
      (raw : ℕ → StealStack T) (size : ℕ)
      → AllOk k (init config info body unit fresh root n k raw size)
  unfolding init ss_init ss_mk_empty
  init-AllOk raw size j = record {
    valid = ss_init-IsValid fresh (raw j) size;
    chunks = 0;
    aligned = omega arith;
    quiet = λ x. refl;
  }

  -- For a reduction by a commutative monoid over a problem that gets smaller, and chunks of at least
  -- one element: in every reachable state each stack is well formed and its shared portion is made
  -- of whole chunks, and a thread that has not started, looks for work, stands in the barrier or has
  -- returned has an empty stack.
  pub Reach-AllOk :
      {raw : ℕ → StealStack T} {size : ℕ} {s : System T R}
      → Reach config info body unit fresh root n k raw size s
      → AllOk k s
  Reach-AllOk {raw} {size} begin = init-AllOk raw size
  Reach-AllOk (then_step r st) = Step-AllOk st (Reach-AllOk r)
