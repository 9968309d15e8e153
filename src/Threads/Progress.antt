-- ===== src/Threads/Progress.antt =====
-- The threads never get stuck: a round of local work returns, and a thread that has not returned can
-- always make a step, or else another thread can.
use dparallel_recursion.Common.{
  ℕ, zero, suc, ◌≤◌, ◌<◌, ◌≡◌, ◌≢◌, refl, sym, ap, subst, ◌∙◌, Bool, true, false, inl, inr, arith,
  some, ◌>>=◌, ltb, ◌⊎◌, ◌||◌, if◌then◌else◌, update, ℕ_discrete, dec_lt, Bool-cases, Option,
}
use dparallel_recursion.Common.Reduction.{IsReduction}
use dparallel_recursion.Skeleton.{Info, Body, Config}
use dparallel_recursion.Skeleton.Tree.{IsRanked, add, value}
use dparallel_recursion.Serial.{do_it_serial}
use dparallel_recursion.Serial.Total.{SerialFuncAgrees, loop_children-sum, do_it_serial-value}
use dparallel_recursion.StealStack.{StealStack, ss_top, ss_pop, ss_local_depth}
use dparallel_recursion.Threads.Safety.{Barrier}
use dparallel_recursion.Threads.Termination.{Reach-Barrier, here, stayed}
use dparallel_recursion.Threads.{
  Pc, starting, working, releasing, cancelling, searching, stealing, arriving, completing, waiting,
  leaving, resetting, returning, finished, branch, examine, System, Step, start, work, release,
  cancel, acquire, find, steal, arrive, check, complete, leave, decrement, reset, return, Reach,
  begin, then_step, init,
}

abbrev is_waiting : Pc → Bool
is_waiting waiting = true
is_waiting _ = false

abbrev is_finished : Pc → Bool
is_finished finished = true
is_finished _ = false

pub waiting-or-not : (p : Pc) → (p ≡ waiting) ⊎ (p ≢ waiting)
waiting-or-not waiting = inl refl
waiting-or-not p = inr (λ e. cc)

pub finished-or-not : (p : Pc) → (p ≡ finished) ⊎ (p ≢ finished)
finished-or-not finished = inl refl
finished-or-not p = inr (λ e. cc)

pub or_true : (b : Bool) → (b || true) ≡ true
or_true true = refl
or_true false = refl

-- Either all threads wait in the barrier, or one does not.
all-or-other :
    (pcs : ℕ → Pc) (m : ℕ)
    → ((i : ℕ) → i < m → pcs i ≡ waiting) ⊎ ((j : ℕ) × (j < m) × (pcs j ≢ waiting))
all-or-other pcs zero = inl (λ i lt. absurd (omega arith))
all-or-other pcs (suc m) = elim (waiting-or-not (pcs m)) [
  | inr ne ↦ inr (m, omega arith, ne)
  | inl e ↦ elim (all-or-other pcs m) [
    | inr (j, lt, ne) ↦ inr (j, omega arith, ne)
    | inl all ↦ inl (λ i lt. elim (ℕ_discrete i m) [
      | yes same ↦ subst (λ x. pcs x ≡ waiting) (sym same) e
      | no ne ↦ all i (omega arith)
    ])
  ]
]

then-returns {ℓ κ} :
    {A : Type ℓ} {B : Type κ} (m : Option A) (a : A) (g : A → B)
    → m ≡ some a
    → (x : B) × ((m >>= (λ y. some (g y))) ≡ some x)
then-returns m a g e = (g a, rw e refl)

module _ {ℓ κ} {T : Type ℓ} {R : Type κ} (config : Config) (info : Info T R) (body : Body T R)
    (unit : R) (fresh root : T) (n k : ℕ) (pos : 0 < k)
    (law : IsReduction (add info body unit) unit) (ranked : IsRanked info body)
    (agrees : SerialFuncAgrees info body unit law ranked) where
  open ranked use {rank, child-lt}

  branch-returns :
      (f : ℕ) (s : StealStack T) (d : T) (r : R)
      → info.is_base (body.pre d) ≡ false
      → rank d ≤ f
      → (x : StealStack T × R × Bool) × (branch config info body fresh f s
            (body.pre_rec (body.pre d))
            r
          ≡ some x)
  unfolding branch
  branch-returns f s d r inner enough =
      let d' = body.pre_rec (body.pre d) in
      elim (Bool-cases (info.do_parallel d')) [
        | inl e ↦ elim (Bool-cases (ltb 0 (info.num_children d'))) [
          | inl e' ↦ rw (e, e') (_, refl)
          | inr e' ↦ rw (e, e') (_, refl)
        ]
        | inr e ↦ rw e (
            then-returns _ _ (λ r'. (ss_pop s, r', false))
              (loop_children-sum (add info body unit) unit law (do_it_serial info body config f)
                (λ i. info.child i d') (λ i. value info body unit ranked (info.child i d')) config
                (info.num_children d') r
                (λ i t lt.
                  let smaller = child-lt d i inner lt in
                  do_it_serial-value info body unit law ranked agrees config f t _ (omega arith))))
      ]

  -- For a reduction by a commutative monoid over a problem that gets smaller, a round of local work
  -- returns, with the rank of the top element, or more, as fuel.
  pub examine-returns :
      (f : ℕ) (s : StealStack T) (r : R)
      → rank (ss_top s) ≤ f
      → (x : StealStack T × R × Bool) × (examine config info body fresh f s r ≡ some x)
  unfolding examine
  examine-returns f s r enough = elim (Bool-cases (info.is_base (body.pre (ss_top s)))) [
    | inl e ↦ rw e (_, refl)
    | inr e ↦ let rest = branch-returns f _ (ss_top s) _ e enough in rw e rest
  ]

  abbrev S : System T R → System T R → Type (ℓ ⊔ κ)
  S = Step config info body unit fresh root n k

  -- A thread that has named a victim has named another one, in range.
  unfoldable pub VictimOk : System T R → Type 0
  VictimOk s = (i victim : ℕ) → s.pc i ≡ stealing victim → (victim < n) × (victim ≢ i)

  abbrev pub thieving : Pc → Bool
  thieving (stealing victim) = true
  thieving _ = false

  abbrev target : Pc → ℕ
  target (stealing victim) = victim
  target _ = 0

  thieving-if :
      (b : Bool) (p q : Pc)
      → thieving p ≡ false
      → thieving q ≡ false
      → thieving (if b then p else q) ≡ false
  thieving-if true p q hp hq = hp
  thieving-if false p q hp hq = hq

  pub moved-VictimOk :
      (s t : System T R) (i : ℕ) (p : Pc)
      → ((j : ℕ) → t.pc j ≡ update s.pc i p j)
      → thieving p ≡ false
      → VictimOk s
      → VictimOk t
  unfolding VictimOk
  moved-VictimOk s t i p moved calm ok j v e = elim (ℕ_discrete j i) [
    | yes same ↦
        let there : p ≡ stealing v =
          sym (here s.pc i p) ∙ sym (moved i) ∙ subst (λ x. t.pc x ≡ stealing v) same e in
        let busy = ap thieving there in cc
    | no ne ↦ ok j v (sym (stayed s.pc i j p ne) ∙ sym (moved j) ∙ e)
  ]

  pub Step-VictimOk : {s t : System T R} → S s t → VictimOk s → VictimOk t
  unfolding VictimOk
  Step-VictimOk {s} {t} (start i lt e) ok = moved-VictimOk s t i _ (λ j. refl) refl ok
  Step-VictimOk {s} {t} (work i f u r pushed lt e deep ran) ok =
      moved-VictimOk s t i _ (λ j. refl) (thieving-if pushed releasing working refl refl) ok
  Step-VictimOk {s} {t} (release i lt e) ok =
      moved-VictimOk s t i _ (λ j. refl) (thieving-if _ cancelling working refl refl) ok
  Step-VictimOk {s} {t} (cancel i lt e) ok = moved-VictimOk s t i _ (λ j. refl) refl ok
  Step-VictimOk {s} {t} (acquire i lt e shallow) ok =
      moved-VictimOk s t i _ (λ j. refl) (thieving-if _ working searching refl refl) ok
  Step-VictimOk {s} {t} (find i victim lt e v_lt v_ne) ok = λ j v e'. elim (ℕ_discrete j i) [
    | yes same ↦
        let there : stealing victim ≡ stealing v =
          sym (here s.pc i (stealing victim))
          ∙ subst (λ x. update s.pc i (stealing victim) x ≡ stealing v) same e' in
        let named = ap target there in (omega arith, λ h. v_ne (omega arith))
    | no ne ↦ ok j v (sym (stayed s.pc i j _ ne) ∙ e')
  ]
  Step-VictimOk {s} {t} (steal i victim lt e v_lt v_ne) ok =
      moved-VictimOk s t i _ (λ j. refl) (thieving-if _ working searching refl refl) ok
  Step-VictimOk {s} {t} (arrive i lt e) ok = moved-VictimOk s t i _ (λ j. refl) refl ok
  Step-VictimOk {s} {t} (check i lt e) ok =
      moved-VictimOk s t i _ (λ j. refl) (thieving-if _ completing waiting refl refl) ok
  Step-VictimOk {s} {t} (complete i lt e) ok = moved-VictimOk s t i _ (λ j. refl) refl ok
  Step-VictimOk {s} {t} (leave i lt e cond) ok = moved-VictimOk s t i _ (λ j. refl) refl ok
  Step-VictimOk {s} {t} (decrement i lt e) ok = moved-VictimOk s t i _ (λ j. refl) refl ok
  Step-VictimOk {s} {t} (reset i lt e) ok = moved-VictimOk s t i _ (λ j. refl) refl ok
  Step-VictimOk {s} {t} (return i lt e) ok =
      moved-VictimOk s t i _ (λ j. refl) (thieving-if _ finished working refl refl) ok

  pub Reach-VictimOk :
      {raw : ℕ → StealStack T} {size : ℕ} {s : System T R}
      → Reach config info body unit fresh root n k raw size s
      → VictimOk s
  unfolding VictimOk init
  Reach-VictimOk begin = λ i v e. absurd (let busy = ap thieving e in cc)
  Reach-VictimOk (then_step r st) = Step-VictimOk st (Reach-VictimOk r)

  -- A thread that has not returned and does not spin in the barrier can make a step.
  pub active-steps :
      (s : System T R) (i : ℕ)
      → VictimOk s
      → i < n
      → (p : Pc) → s.pc i ≡ p
      → p ≢ waiting
      → p ≢ finished
      → (t : System T R) × S s t
  unfolding VictimOk
  active-steps s i ok lt starting e w d = (_, start i lt e)
  active-steps s i ok lt working e w d = elim (dec_lt 0 (ss_local_depth (s.steal_stack i))) [
    | yes deep ↦
        let ran =
          examine-returns (rank (ss_top (s.steal_stack i))) (s.steal_stack i) (s.result i)
            (omega arith) in
        (_, work i _ _ _ _ lt e deep ran.1)
    | no shallow ↦ (_, acquire i lt e (omega arith))
  ]
  active-steps s i ok lt releasing e w d = (_, release i lt e)
  active-steps s i ok lt cancelling e w d = (_, cancel i lt e)
  active-steps s i ok lt searching e w d = (_, arrive i lt e)
  active-steps s i ok lt (stealing v) e w d =
      let other = ok i v e in (_, steal i v lt e other.0 other.1)
  active-steps s i ok lt arriving e w d = (_, check i lt e)
  active-steps s i ok lt completing e w d = (_, complete i lt e)
  active-steps s i ok lt waiting e w d = absurd (w refl)
  active-steps s i ok lt leaving e w d = (_, decrement i lt e)
  active-steps s i ok lt resetting e w d = (_, reset i lt e)
  active-steps s i ok lt returning e w d = (_, return i lt e)
  active-steps s i ok lt finished e w d = absurd (d refl)

  -- Where a thread waits in the barrier, it or another thread can make a step.
  waiting-steps :
      (s : System T R) (i : ℕ)
      → VictimOk s
      → Barrier n s
      → i < n
      → s.pc i ≡ waiting
      → (t : System T R) × S s t
  waiting-steps s i ok b lt e = elim (all-or-other s.pc n) [
    | inl all ↦ (_, leave i lt e (rw (b.awake all) (or_true s.cb_cancel)))
    | inr (j, j_lt, other) ↦ elim (finished-or-not (s.pc j)) [
      | inl over ↦ (_, leave i lt e (rw (b.over j over) (or_true s.cb_cancel)))
      | inr going ↦ active-steps s j ok j_lt (s.pc j) refl other going
    ]
  ]

  -- For a reduction by a commutative monoid over a problem that gets smaller, at least one thread
  -- and chunks of at least one element: in a reachable state with a thread that has not returned,
  -- some thread can make a step.
  pub some-Step :
      {raw : ℕ → StealStack T} {size : ℕ} {s : System T R}
      → 0 < n
      → Reach config info body unit fresh root n k raw size s
      → (i : ℕ) → i < n
      → s.pc i ≢ finished
      → (t : System T R) × Step config info body unit fresh root n k s t
  some-Step {s = s} pos_n r i lt going = elim (waiting-or-not (s.pc i)) [
    | inl e ↦
        waiting-steps s i (Reach-VictimOk r)
          (Reach-Barrier config info body unit fresh root n k pos law ranked agrees pos_n r) lt e
    | inr e ↦ active-steps s i (Reach-VictimOk r) lt (s.pc i) refl e going
  ]
