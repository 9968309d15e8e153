-- ===== src/Threads/Safety.antt =====
-- No thread returns early, and the barrier never deadlocks.
use dparallel_recursion.Common.{
  ℕ, ◌+◌, ◌<◌, ◌≡◌, refl, sym, ap, subst, Bool, true, false, inl, inr, arith, ◌==◌, ==_iff,
  if◌then◌else◌, update, Bool-cases,
}
use dparallel_recursion.Common.Reduction.{IsReduction}
use dparallel_recursion.Skeleton.{Info, Body, Config}
use dparallel_recursion.Skeleton.Tree.{IsRanked, add}
use dparallel_recursion.Serial.Total.{SerialFuncAgrees}
use dparallel_recursion.StealStack.{
  StealStack, ss_local_depth, ss_acquire, ss_steal, release_multiple_nodes,
}
use dparallel_recursion.StealStack.Steal.{ss_steal-Steals}
use dparallel_recursion.Threads.Inv.{IsEmpty, ThreadOk, items-IsEmpty}
use dparallel_recursion.Threads.Reached.{AllOk}
use dparallel_recursion.Threads.Balance.{is_starting, not-starting-if}
use dparallel_recursion.Threads.Barrier.{
  inside, count_inside, all-inside, inside-idle, IsDry, inside-le_count,
}
use dparallel_recursion.Threads.{
  Pc, starting, working, releasing, cancelling, searching, stealing, arriving, completing, waiting,
  leaving, resetting, returning, finished, System, Step, start, work, release, cancel, acquire,
  find, steal, arrive, check, complete, leave, decrement, reset, return,
}

-- The places whose meaning for the barrier depends on the step that leads there.
abbrev pub marked : Pc → Bool
marked completing = true
marked waiting = true
marked finished = true
marked _ = false

marked-if :
    (b : Bool) (p q : Pc)
    → marked p ≡ false
    → marked q ≡ false
    → marked (if b then p else q) ≡ false
marked-if true p q hp hq = hp
marked-if false p q hp hq = hq

inside-if :
    (b : Bool) (p q : Pc) (m : ℕ) → inside p ≡ m → inside q ≡ m → inside (if b then p else q) ≡ m
inside-if true p q m hp hq = hp
inside-if false p q m hp hq = hq

pub data Kind {ℓ κ} {T : Type ℓ} {R : Type κ} (n : ℕ) (s t : System T R) (i : ℕ) (p : Pc)
    : Type 0 where
  plain : marked p ≡ false → t.cb_done ≡ s.cb_done → Kind n s t i p
  checked :
      s.pc i ≡ arriving
      → p ≡ (if s.cb_count == n then completing else waiting)
      → t.cb_done ≡ s.cb_done
      → Kind n s t i p
  completed : s.pc i ≡ completing → p ≡ waiting → t.cb_done ≡ true → Kind n s t i p
  returned : p ≡ (if s.cb_done then finished else working) → t.cb_done ≡ s.cb_done → Kind n s t i p

-- A step moves one thread, and is of one of the four kinds.
pub record Moves {ℓ κ} {T : Type ℓ} {R : Type κ} (n : ℕ) (s t : System T R) : Type 0 where
  pub who : ℕ
  pub who_lt : who < n
  pub to : Pc
  pub moved : (j : ℕ) → t.pc j ≡ update s.pc who to j
  pub counted : t.cb_count + inside (s.pc who) ≡ s.cb_count + inside to
  pub kind : Kind n s t who to

pub record Barrier {ℓ κ} {T : Type ℓ} {R : Type κ} (n : ℕ) (s : System T R) : Type 0 where
  pub counts : s.cb_count ≡ count_inside s.pc n
  pub dry : s.cb_done ≡ true → IsDry n s
  pub dry_soon : (i : ℕ) → s.pc i ≡ completing → IsDry n s
  pub over : (i : ℕ) → s.pc i ≡ finished → s.cb_done ≡ true
  pub awake : ((i : ℕ) → i < n → s.pc i ≡ waiting) → s.cb_done ≡ true

module _ {ℓ κ} {T : Type ℓ} {R : Type κ} (config : Config) (info : Info T R) (body : Body T R)
    (unit : R) (fresh root : T) (n k : ℕ) (pos : 0 < k)
    (law : IsReduction (add info body unit) unit) (ranked : IsRanked info body)
    (agrees : SerialFuncAgrees info body unit law ranked) where
  abbrev pub S : System T R → System T R → Type (ℓ ⊔ κ)
  S = Step config info body unit fresh root n k

  pub Step-Moves : {s t : System T R} → S s t → Barrier n s → Moves n s t
  Step-Moves {s} (start i lt e) b = record {
    who = i;
    who_lt = lt;
    to = working;
    moved = λ j. refl;
    counted = omega (arith, ap inside e);
    kind = plain refl refl;
  }
  Step-Moves {s} (work i f t r pushed lt e deep ran) b = record {
    who = i;
    who_lt = lt;
    to = if pushed then releasing else working;
    moved = λ j. refl;
    counted = omega (arith, ap inside e, inside-if pushed releasing working 0 refl refl);
    kind = plain (marked-if pushed releasing working refl refl) refl;
  }
  Step-Moves {s} (release i lt e) b = record {
    who = i;
    who_lt = lt;
    to = _;
    moved = λ j. refl;
    counted = omega (
      arith,
      ap inside e,
      inside-if (release_multiple_nodes (s.steal_stack i) k).1 cancelling working 0 refl refl,
    );
    kind = plain (marked-if _ cancelling working refl refl) refl;
  }
  Step-Moves {s} (cancel i lt e) b = record {
    who = i;
    who_lt = lt;
    to = working;
    moved = λ j. refl;
    counted = omega (arith, ap inside e);
    kind = plain refl refl;
  }
  Step-Moves {s} (acquire i lt e shallow) b = record {
    who = i;
    who_lt = lt;
    to = _;
    moved = λ j. refl;
    counted = omega (
      arith,
      ap inside e,
      inside-if (ss_acquire (s.steal_stack i) k).1 working searching 0 refl refl,
    );
    kind = plain (marked-if _ working searching refl refl) refl;
  }
  Step-Moves {s} (find i victim lt e v_lt ne) b = record {
    who = i;
    who_lt = lt;
    to = stealing victim;
    moved = λ j. refl;
    counted = omega (arith, ap inside e);
    kind = plain refl refl;
  }
  Step-Moves {s} (steal i victim lt e v_lt ne) b = record {
    who = i;
    who_lt = lt;
    to = _;
    moved = λ j. refl;
    counted = omega (
      arith,
      ap inside e,
      inside-if (ss_steal fresh (s.steal_stack i) (s.steal_stack victim) k).2 working searching 0
          refl refl,
    );
    kind = plain (marked-if _ working searching refl refl) refl;
  }
  Step-Moves {s} (arrive i lt e) b = record {
    who = i;
    who_lt = lt;
    to = arriving;
    moved = λ j. refl;
    counted = omega (arith, ap inside e);
    kind = plain refl refl;
  }
  Step-Moves {s} (check i lt e) b = record {
    who = i;
    who_lt = lt;
    to = _;
    moved = λ j. refl;
    counted =
        omega (arith, ap inside e, inside-if (s.cb_count == n) completing waiting 1 refl refl);
    kind = checked e refl refl;
  }
  Step-Moves {s} (complete i lt e) b = record {
    who = i;
    who_lt = lt;
    to = waiting;
    moved = λ j. refl;
    counted = omega (arith, ap inside e);
    kind = completed e refl refl;
  }
  Step-Moves {s} (leave i lt e go) b = record {
    who = i;
    who_lt = lt;
    to = leaving;
    moved = λ j. refl;
    counted = omega (arith, ap inside e);
    kind = plain refl refl;
  }
  Step-Moves {s} (decrement i lt e) b = record {
    who = i;
    who_lt = lt;
    to = resetting;
    moved = λ j. refl;
    counted = omega (arith, ap inside e, b.counts, inside-le_count s.pc n i lt);
    kind = plain refl refl;
  }
  Step-Moves {s} (reset i lt e) b = record {
    who = i;
    who_lt = lt;
    to = returning;
    moved = λ j. refl;
    counted = omega (arith, ap inside e);
    kind = plain refl refl;
  }
  Step-Moves {s} (return i lt e) b = record {
    who = i;
    who_lt = lt;
    to = _;
    moved = λ j. refl;
    counted = omega (arith, ap inside e, inside-if s.cb_done finished working 0 refl refl);
    kind = returned refl refl;
  }

  -- Once there is nothing left to do, no step makes work.
  shut : (s : System T R) (i : ℕ) (p : Pc) → IsDry n s → i < n → s.pc i ≡ starting → ⊥
  shut s i p d lt e = let none = (d i lt).1 in let is = ap is_starting e in cc

  move-IsDry :
      (s : System T R) (stacks : ℕ → StealStack T) (i : ℕ) (p : Pc)
      → is_starting p ≡ false
      → ((j : ℕ) → j < n → IsEmpty (s.steal_stack j) → IsEmpty (stacks j))
      → IsDry n s
      → (j : ℕ) → j < n
      → IsEmpty (stacks j) × (is_starting (update s.pc i p j) ≡ false)
  move-IsDry s stacks i p not hs d j lt = (
    hs j lt (d j lt).0,
    elim (Bool-cases (i == j)) [ inl e ↦ rw e not | inr e ↦ rw e (d j lt).1 ],
  )

  -- A change of one stack that keeps an empty stack empty.
  one-IsEmpty :
      (stacks : ℕ → StealStack T) (i j : ℕ) (a : StealStack T)
      → (IsEmpty (stacks i) → IsEmpty a)
      → IsEmpty (stacks j)
      → IsEmpty (update stacks i a j)
  one-IsEmpty stacks i j a h e = elim (Bool-cases (i == j)) [
    | inl hit ↦ rw hit (h (subst (λ x. IsEmpty (stacks x)) (sym ((==_iff i j).0 hit)) e))
    | inr miss ↦ rw miss e
  ]

  -- A theft from an empty stack fails.
  theft-IsEmpty :
      (s : System T R) (i v : ℕ)
      → ThreadOk k (s.steal_stack i) (s.pc i)
      → ThreadOk k (s.steal_stack v) (s.pc v)
      → IsEmpty (s.steal_stack i)
      → IsEmpty (s.steal_stack v)
      → (j : ℕ) → IsEmpty (s.steal_stack j)
      → IsEmpty (
          update
            (update s.steal_stack i (ss_steal fresh (s.steal_stack i) (s.steal_stack v) k).0)
            v
            (ss_steal fresh (s.steal_stack i) (s.steal_stack v) k).1
            j)
  theft-IsEmpty s i v oi ov ei ev j e =
      let steals = ss_steal-Steals fresh (s.steal_stack i) (s.steal_stack v) k oi.valid ov.valid in
      elim steals.outcome [
        | inl (avail, won, got, lost, left) ↦
            absurd (omega (arith, ov.valid.shared_le, ov.valid.local_le))
        | inr (short, failed, same, kept) ↦
            let thief = items-IsEmpty _ _ oi.valid steals.thief_valid same ei in
            elim (Bool-cases (v == j)) [
              | inl hit ↦ rw (hit, kept) ev
              | inr miss ↦ rw miss (one-IsEmpty s.steal_stack i j _ (λ h. thief) e)
            ]
      ]

  pub Step-IsDry : {s t : System T R} → S s t → AllOk k s → IsDry n s → IsDry n t
  unfolding release_multiple_nodes ss_acquire ss_local_depth
  Step-IsDry {s} (start i lt e) ok d = absurd (shut s i working d lt e)
  Step-IsDry {s} (work i f t r pushed lt e deep ran) ok d =
      absurd
        (let empty = (d i lt).0 in let v = (ok i).valid in omega (arith, v.shared_le, v.local_le))
  Step-IsDry {s} (release i lt e) ok d =
      move-IsDry s (update s.steal_stack i (release_multiple_nodes (s.steal_stack i) k).0) i _
        (not-starting-if _ cancelling working refl refl)
        (λ j lt. one-IsEmpty s.steal_stack i j _ (λ h. ground arith)) d
  Step-IsDry {s} (cancel i lt e) ok d = move-IsDry s s.steal_stack i _ refl (λ j lt h. h) d
  Step-IsDry {s} (acquire i lt e shallow) ok d =
      move-IsDry s (update s.steal_stack i (ss_acquire (s.steal_stack i) k).0) i _
        (not-starting-if _ working searching refl refl)
        (λ j lt. one-IsEmpty s.steal_stack i j _ (λ h. ground arith)) d
  Step-IsDry {s} (find i victim lt e v_lt ne) ok d =
      move-IsDry s s.steal_stack i _ refl (λ j lt h. h) d
  Step-IsDry {s} (steal i victim lt e v_lt ne) ok d =
      move-IsDry s
        (update
          (update s.steal_stack i (ss_steal fresh (s.steal_stack i) (s.steal_stack victim) k).0)
          victim (ss_steal fresh (s.steal_stack i) (s.steal_stack victim) k).1)
        i _ (not-starting-if _ working searching refl refl)
        (λ j j_lt. theft-IsEmpty s i victim (ok i) (ok victim) (d i lt).0 (d victim v_lt).0 j) d
  Step-IsDry {s} (arrive i lt e) ok d = move-IsDry s s.steal_stack i _ refl (λ j lt h. h) d
  Step-IsDry {s} (check i lt e) ok d =
      move-IsDry s s.steal_stack i _ (not-starting-if _ completing waiting refl refl) (λ j lt h. h)
        d
  Step-IsDry {s} (complete i lt e) ok d = move-IsDry s s.steal_stack i _ refl (λ j lt h. h) d
  Step-IsDry {s} (leave i lt e go) ok d = move-IsDry s s.steal_stack i _ refl (λ j lt h. h) d
  Step-IsDry {s} (decrement i lt e) ok d = move-IsDry s s.steal_stack i _ refl (λ j lt h. h) d
  Step-IsDry {s} (reset i lt e) ok d = move-IsDry s s.steal_stack i _ refl (λ j lt h. h) d
  Step-IsDry {s} (return i lt e) ok d =
      move-IsDry s s.steal_stack i _ (not-starting-if _ finished working refl refl) (λ j lt h. h) d

  pub full-IsDry : (s : System T R) → AllOk k s → count_inside s.pc n ≡ n → IsDry n s
  full-IsDry s ok e i lt =
      let within = inside-idle (s.pc i) (all-inside s.pc n e i lt) in
      ((ok i).quiet within.0, within.1)
