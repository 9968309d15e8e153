-- ===== src/Threads/Termination.antt =====
-- The invariant of the barrier in every reachable state, and what it gives.
use dparallel_recursion.Common.{
  ℕ, ◌<◌, ◌≡◌, ◌≢◌, sym, ap, subst, fun_ext, ◌∙◌, true, inl, inr, arith, ◌==◌, ==_iff, ◌⊎◌,
  if◌then◌else◌, update, ℕ_discrete, Bool-cases,
}
use dparallel_recursion.Common.Reduction.{IsReduction}
use dparallel_recursion.Skeleton.{Info, Body, Config}
use dparallel_recursion.Skeleton.Tree.{IsRanked, add}
use dparallel_recursion.Serial.Total.{SerialFuncAgrees}
use dparallel_recursion.StealStack.{StealStack}
use dparallel_recursion.Threads.Reached.{AllOk, Reach-AllOk}
use dparallel_recursion.Threads.Barrier.{
  inside, count_inside, count_inside-update, count-all, IsDry, none-inside,
}
use dparallel_recursion.Threads.Safety.{
  marked, Kind, plain, checked, completed, returned, Moves, Barrier, S, Step-Moves, Step-IsDry,
  full-IsDry,
}
use dparallel_recursion.Threads.{
  Pc, completing, waiting, finished, System, Reach, begin, then_step, init,
}

-- A thread that was not moved is where it was.
pub stayed : (pcs : ℕ → Pc) (i j : ℕ) (p : Pc) → j ≢ i → update pcs i p j ≡ pcs j
stayed pcs i j p ne = ground arith

pub here : (pcs : ℕ → Pc) (i : ℕ) (p : Pc) → update pcs i p i ≡ p
here pcs i p = ground arith

module _ {ℓ κ} {T : Type ℓ} {R : Type κ} (n : ℕ) (s t : System T R) (b : Barrier n s)
    (m : Moves n s t) where
  open m use {who, who_lt, to, moved, counted, kind}
  open b use {counts, dry, dry_soon, over, awake}

  moved-counts : t.cb_count ≡ count_inside t.pc n
  moved-counts =
      subst (λ f. t.cb_count ≡ count_inside f n) (sym (fun_ext moved))
        (omega (arith, count_inside-update s.pc n who to who_lt, counted, counts))

  -- A thread is at `q` after the step: it was there before, or has just moved there.
  at : (q : Pc) (j : ℕ) → t.pc j ≡ q → (s.pc j ≡ q) ⊎ ((j ≡ who) × (to ≡ q))
  at q j e = elim (ℕ_discrete j who) [
    | yes same ↦
        inr (same, sym (here s.pc who to) ∙ sym (moved who) ∙ subst (λ x. t.pc x ≡ q) same e)
    | no ne ↦ inl (sym (stayed s.pc who j to ne) ∙ sym (moved j) ∙ e)
  ]

  done-kept : Kind n s t who to → s.cb_done ≡ true → t.cb_done ≡ true
  done-kept (plain x e) h = e ∙ h
  done-kept (checked x y e) h = e ∙ h
  done-kept (completed x y e) h = e
  done-kept (returned x e) h = e ∙ h

  moved-over : Kind n s t who to → to ≡ finished → t.cb_done ≡ true
  moved-over (plain x e) h = let no_mark = ap marked h in cc
  moved-over (checked x y e) h = ground arith
  moved-over (completed x y e) h = e
  moved-over (returned x e) h = ground arith

  -- The state that is shut: nothing left to do.
  moved-IsDry : Kind n s t who to → t.cb_done ≡ true → IsDry n s
  moved-IsDry (plain x e) h = dry (sym e ∙ h)
  moved-IsDry (checked x y e) h = dry (sym e ∙ h)
  moved-IsDry (completed x y e) h = dry_soon who x
  moved-IsDry (returned x e) h = dry (sym e ∙ h)

  moved-full : Kind n s t who to → to ≡ completing → count_inside s.pc n ≡ n
  moved-full (plain x e) h = let no_mark = ap marked h in cc
  moved-full (checked x y e) h = elim (Bool-cases (s.cb_count == n)) [
    | inl full ↦ sym counts ∙ (==_iff s.cb_count n).0 full
    | inr not_full ↦
        let at_wait : to ≡ waiting = y ∙ ap (λ c. if c then completing else waiting) not_full in cc
  ]
  moved-full (completed x y e) h = cc
  moved-full (returned x e) h = absurd (ground arith)

  moved-awake : Kind n s t who to → ((i : ℕ) → i < n → t.pc i ≡ waiting) → t.cb_done ≡ true
  moved-awake (plain x e) all =
      let still = sym (here s.pc who to) ∙ sym (moved who) ∙ all who who_lt in
      let no_mark = ap marked still in cc
  moved-awake (checked x y e) all =
      let still = sym (here s.pc who to) ∙ sym (moved who) ∙ all who who_lt in
      let full : count_inside s.pc n ≡ n = count-all s.pc n (λ i lt. elim (ℕ_discrete i who) [
        | yes same ↦ ap (λ j. inside (s.pc j)) same ∙ ap inside x
        | no ne ↦ ap inside (sym (stayed s.pc who i to ne) ∙ sym (moved i) ∙ all i lt)
      ]) in
      let hit : (s.cb_count == n) ≡ true = (==_iff s.cb_count n).1 (counts ∙ full) in
      let at_complete : to ≡ completing = y ∙ ap (λ c. if c then completing else waiting) hit in cc
  moved-awake (completed x y e) all = e
  moved-awake (returned x e) all =
      let still = sym (here s.pc who to) ∙ sym (moved who) ∙ all who who_lt in absurd (ground arith)

module _ {ℓ κ} {T : Type ℓ} {R : Type κ} (config : Config) (info : Info T R) (body : Body T R)
    (unit : R) (fresh root : T) (n k : ℕ) (pos : 0 < k)
    (law : IsReduction (add info body unit) unit) (ranked : IsRanked info body)
    (agrees : SerialFuncAgrees info body unit law ranked) where
  Step-Barrier :
      {s t : System T R}
      → S config info body unit fresh root n k pos law ranked agrees s t
      → AllOk k s
      → Barrier n s
      → Barrier n t
  Step-Barrier {s} {t} st ok b =
      let m = Step-Moves config info body unit fresh root n k pos law ranked agrees st b in
      let shut = Step-IsDry config info body unit fresh root n k pos law ranked agrees st ok in
      record {
        counts = moved-counts n s t b m;
        dry = λ e. shut (moved-IsDry n s t b m m.kind e);
        dry_soon = λ i e. elim (at n s t b m completing i e) [
          | inl old ↦ shut (b.dry_soon i old)
          | inr (same, new) ↦ shut (
              full-IsDry config info body unit fresh root n k pos law ranked agrees s ok
                (moved-full n s t b m m.kind new))
        ];
        over = λ i e. elim (at n s t b m finished i e) [
          | inl old ↦ done-kept n s t b m m.kind (b.over i old)
          | inr (same, new) ↦ moved-over n s t b m m.kind new
        ];
        awake = moved-awake n s t b m m.kind;
      }

  pub Reach-Barrier :
      {raw : ℕ → StealStack T} {size : ℕ} {s : System T R}
      → 0 < n
      → Reach config info body unit fresh root n k raw size s
      → Barrier n s
  unfolding init
  Reach-Barrier lt begin = record {
    counts = sym (none-inside n);
    dry = λ e. cc;
    dry_soon = λ i e. cc;
    over = λ i e. cc;
    awake = λ all. let first = all 0 lt in cc;
  }
  Reach-Barrier lt (then_step r st) =
      Step-Barrier st (Reach-AllOk config info body unit fresh root n k pos law ranked agrees r)
        (Reach-Barrier lt r)

  -- For a reduction by a commutative monoid over a problem that gets smaller, at least one thread
  -- and chunks of at least one element: no thread returns while there is work; in a reachable state
  -- with a thread that has returned, every stack is empty and every thread has started.
  pub finished-IsDry :
      {raw : ℕ → StealStack T} {size : ℕ} {s : System T R}
      → 0 < n
      → Reach config info body unit fresh root n k raw size s
      → (i : ℕ) → s.pc i ≡ finished
      → IsDry n s
  finished-IsDry lt r i e = let b = Reach-Barrier lt r in b.dry (b.over i e)

  -- For a reduction by a commutative monoid over a problem that gets smaller, at least one thread
  -- and chunks of at least one element: in a reachable state in which all threads wait in the
  -- barrier, `cb_done` is set.
  pub all-waiting-done :
      {raw : ℕ → StealStack T} {size : ℕ} {s : System T R}
      → 0 < n
      → Reach config info body unit fresh root n k raw size s
      → ((i : ℕ) → i < n → s.pc i ≡ waiting)
      → s.cb_done ≡ true
  all-waiting-done lt r all = (Reach-Barrier lt r).awake all
