-- ===== src/Threads/Exceptions/Errors.antt =====
-- With exceptions, `run` still ends, and never with a wrong result.
use dparallel_recursion.Common.{
  ℕ, zero, suc, ◌<◌, ◌≡◌, ◌≢◌, refl, sym, ap, subst, Bool, true, false, inl, inr, arith, none, some,
  ◌⊎◌, ℕ_discrete, Bool-cases,
}
use dparallel_recursion.Common.Reduction.{IsReduction}
use dparallel_recursion.Skeleton.{Info, Body, Config}
use dparallel_recursion.Skeleton.Tree.{IsRanked, add, value}
use dparallel_recursion.Serial.Total.{SerialFuncAgrees}
use dparallel_recursion.StealStack.{StealStack}
use dparallel_recursion.Threads.Balance.{joined-value}
use dparallel_recursion.Threads.Progress.{
  VictimOk, moved-VictimOk, Step-VictimOk, Reach-VictimOk, active-steps, waiting-or-not, or_true,
  some-Step,
}
use dparallel_recursion.Threads.{
  finished, System, Step, start, work, release, cancel, acquire, find, steal, arrive, check,
  complete, leave, decrement, reset, return, Reach, begin, then_step,
}
use dparallel_recursion.Threads.Exceptions.{
  Failable, returned, rethrown, FailStep, proceed, throw, set_done, set_cancel, fail_init,
  FailReach, fail_begin, fail_then, outcome, IsOver,
}

-- Either some thread is in that part of the catch clause, or none is.
any-failing :
    (failing : ℕ → Bool) (m : ℕ)
    → ((j : ℕ) × (j < m) × (failing j ≡ true)) ⊎ ((i : ℕ) → i < m → failing i ≡ false)
any-failing failing zero = inr (λ i lt. absurd (omega arith))
any-failing failing (suc m) = elim (Bool-cases (failing m)) [
  | inl e ↦ inl (m, omega arith, e)
  | inr e ↦ elim (any-failing failing m) [
    | inl (j, lt, e') ↦ inl (j, omega arith, e')
    | inr none_failing ↦ inr (λ i lt. elim (ℕ_discrete i m) [
      | yes same ↦ subst (λ x. failing x ≡ false) (sym same) e
      | no ne ↦ none_failing i (omega arith)
    ])
  ]
]

module _ {ℓ κ} {T : Type ℓ} {R : Type κ} (config : Config) (info : Info T R) (body : Body T R)
    (unit : R) (fresh root : T) (n k : ℕ) where
  abbrev S : System T R → System T R → Type (ℓ ⊔ κ)
  S = Step config info body unit fresh root n k

  Step-done_kept : {s t : System T R} → S s t → s.cb_done ≡ true → t.cb_done ≡ true
  Step-done_kept (start i lt e) h = h
  Step-done_kept (work i f u r pushed lt e deep ran) h = h
  Step-done_kept (release i lt e) h = h
  Step-done_kept (cancel i lt e) h = h
  Step-done_kept (acquire i lt e shallow) h = h
  Step-done_kept (find i victim lt e v_lt v_ne) h = h
  Step-done_kept (steal i victim lt e v_lt v_ne) h = h
  Step-done_kept (arrive i lt e) h = h
  Step-done_kept (check i lt e) h = h
  Step-done_kept (complete i lt e) h = refl
  Step-done_kept (leave i lt e cond) h = h
  Step-done_kept (decrement i lt e) h = h
  Step-done_kept (reset i lt e) h = h
  Step-done_kept (return i lt e) h = h

module _ {ℓ κ} {T : Type ℓ} {R : Type κ} (config : Config) (info : Info T R) (body : Body T R)
    (unit : R) (fresh root : T) (n k : ℕ) (pos : 0 < k)
    (law : IsReduction (add info body unit) unit) (ranked : IsRanked info body)
    (agrees : SerialFuncAgrees info body unit law ranked) where
  -- Where `cb_done` is set, a thread that has not returned can make a step.
  shut-steps :
      (s : System T R) (i : ℕ)
      → VictimOk config info body unit fresh root n k pos law ranked agrees s
      → s.cb_done ≡ true
      → i < n
      → s.pc i ≢ finished
      → (t : System T R) × S config info body unit fresh root n k s t
  shut-steps s i ok h lt going = elim (waiting-or-not (s.pc i)) [
    | inl e ↦ (_, leave i lt e (rw h (or_true s.cb_cancel)))
    | inr e ↦
        active-steps config info body unit fresh root n k pos law ranked agrees s i ok lt (s.pc i)
          refl e going
  ]

module _ {ℓ κ ε} {T : Type ℓ} {R : Type κ} {E : Type ε} (config : Config) (info : Info T R)
    (body : Body T R) (unit : R) (fresh root : T) (n k : ℕ) (pos : 0 < k)
    (law : IsReduction (add info body unit) unit) (ranked : IsRanked info body)
    (agrees : SerialFuncAgrees info body unit law ranked) where
  -- Without an exception the threads are where they can get without one; with one, a thread is about to
  -- set `cb_done`, or has.
  pub data Track (raw : ℕ → StealStack T) (size : ℕ) (s : Failable T R E) : Type (ℓ ⊔ κ ⊔ ε) where
    calm :
        s.global_exception ≡ none
        → ((i : ℕ) → s.failing i ≡ false)
        → ((i : ℕ) → s.shutting i ≡ false)
        → Reach config info body unit fresh root n k raw size s.system
        → Track raw size s
    broken :
        (e : E)
        → s.global_exception ≡ some e
        → VictimOk config info body unit fresh root n k pos law ranked agrees s.system
        → ((i : ℕ) × (i < n) × (s.failing i ≡ true)) ⊎ (s.system.cb_done ≡ true)
        → Track raw size s

  Track-VictimOk :
      {raw : ℕ → StealStack T} {size : ℕ} {s : Failable T R E}
      → Track raw size s
      → VictimOk config info body unit fresh root n k pos law ranked agrees s.system
  Track-VictimOk (calm e none_failing none_shutting r) =
      Reach-VictimOk config info body unit fresh root n k pos law ranked agrees r
  Track-VictimOk (broken x e ok soon) = ok

  FailStep-Track :
      {raw : ℕ → StealStack T} {size : ℕ} {s t : Failable T R E}
      → FailStep config info body unit fresh root n k s t
      → Track raw size s
      → Track raw size t
  unfolding VictimOk
  FailStep-Track (proceed t st) (calm e none_failing none_shutting r) =
      calm e none_failing none_shutting (then_step r st)
  FailStep-Track (proceed t st) (broken x e ok soon) =
      broken x e (Step-VictimOk config info body unit fresh root n k pos law ranked agrees st ok)
        (elim soon [
          | inl f ↦ inl f
          | inr h ↦ inr (Step-done_kept config info body unit fresh root n k st h)
        ])
  FailStep-Track {s = s} {t} (throw i x left lt e) track =
      broken x refl
        (moved-VictimOk config info body unit fresh root n k pos law ranked agrees s.system t.system
          i finished (λ j. refl) refl (Track-VictimOk track))
        (inl (i, lt, ground arith))
  FailStep-Track (set_done i lt e) (calm e' none_failing none_shutting r) =
      absurd (let f = none_failing i in cc)
  FailStep-Track (set_done i lt e) (broken x e' ok soon) = broken x e' ok (inr refl)
  FailStep-Track (set_cancel i lt e) (calm e' none_failing none_shutting r) =
      absurd (let f = none_shutting i in cc)
  FailStep-Track (set_cancel i lt e) (broken x e' ok soon) = broken x e' ok soon

  FailReach-Track :
      {raw : ℕ → StealStack T} {size : ℕ} {s : Failable T R E}
      → FailReach config info body unit fresh root n k raw size s
      → Track raw size s
  unfolding fail_init
  FailReach-Track fail_begin = calm refl (λ i. refl) (λ i. refl) begin
  FailReach-Track (fail_then r st) = FailStep-Track st (FailReach-Track r)

  -- For a reduction by a commutative monoid over a problem that gets smaller, at least one thread
  -- and chunks of at least one element, where hooks and allocations may throw: when all threads are
  -- joined, either no exception is stored and `run` returns the reduction over the tree of the root,
  -- or one is, `run` rethrows it, and `cb_done` is set.
  pub outcome-value :
      {raw : ℕ → StealStack T} {size : ℕ} {s : Failable T R E}
      → 0 < n
      → FailReach config info body unit fresh root n k raw size s
      → ((i : ℕ) → i < n → IsOver s i)
      → ((s.global_exception ≡ none)
          × (outcome config info body unit fresh root n k s
              ≡ returned (value info body unit ranked root)))
        ⊎ ((e : E) × (s.global_exception ≡ some e)
            × (outcome config info body unit fresh root n k s ≡ rethrown e)
            × (s.system.cb_done ≡ true))
  unfolding outcome
  outcome-value {s = s} pos_n r over = elim (FailReach-Track r) [
    | calm e none_failing none_shutting reached ↦ inl (
      e,
      rw e (
          ap returned (
            joined-value config info body unit fresh root n k pos law ranked agrees pos_n reached
              (λ i lt. (over i lt).0))),
    )
    | broken x e ok soon ↦ inr (
      x,
      e,
      rw e refl,
      elim soon [ inl (i, lt, f) ↦ absurd (let done = (over i lt).1 in cc) | inr h ↦ h ],
    )
  ]

  -- For a reduction by a commutative monoid over a problem that gets smaller, at least one thread
  -- and chunks of at least one element, where hooks and allocations may throw: in a reachable state
  -- with a thread that has not left `run_thread`, some thread can make a step.
  pub some-FailStep :
      {raw : ℕ → StealStack T} {size : ℕ} {s : Failable T R E}
      → 0 < n
      → FailReach config info body unit fresh root n k raw size s
      → (i : ℕ) → i < n
      → ¬ IsOver s i
      → (t : Failable T R E) × FailStep config info body unit fresh root n k s t
  some-FailStep {s = s} pos_n r i lt going = elim (any-failing s.failing n) [
    | inl (j, j_lt, f) ↦ (_, set_done j j_lt f)
    | inr none_failing ↦ elim (any-failing s.shutting n) [
      | inl (j, j_lt, f) ↦ (_, set_cancel j j_lt f)
      | inr none_shutting ↦
          let not_finished : s.system.pc i ≢ finished =
            λ e. going (e, none_failing i lt, none_shutting i lt) in
          elim (FailReach-Track r) [
            | calm e calm_all quiet_all reached ↦
                let next =
                  some-Step config info body unit fresh root n k pos law ranked agrees pos_n reached
                    i lt not_finished in
                (_, proceed next.0 next.1)
            | broken x e ok soon ↦ elim soon [
              | inl (j, j_lt, f) ↦ (_, set_done j j_lt f)
              | inr h ↦
                  let next =
                    shut-steps config info body unit fresh root n k pos law ranked agrees s.system i
                      ok h lt not_finished in
                  (_, proceed next.0 next.1)
            ]
          ]
    ]
  ]
