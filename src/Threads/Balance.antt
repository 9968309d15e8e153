-- ===== src/Threads/Balance.antt =====
-- Nothing is lost and nothing is done twice: in every reachable state the threads' results and the
-- trees of all the elements on all stacks add up to the reduction over the root's tree.
use dparallel_recursion.Common.{
  ℕ, zero, suc, ◌-◌, ◌<◌, ◌≡◌, ◌≢◌, refl, sym, ap, subst, ◌∙◌, Bool, true, false, ◌&&◌, some, inl,
  inr, arith, ℕ_discrete, ◌==◌, ==_iff, if◌then◌else◌, update, Bool-cases, [], ◌∷◌, segment,
}
use dparallel_recursion.Common.Reduction.{
  IsReduction, sum_below, sum_list, sum_below-cong, sum_below-grow, sum_list-append, sum_list-one,
  swap_right, identity_left,
}
use dparallel_recursion.Skeleton.{Info, Body, Config}
use dparallel_recursion.Skeleton.Tree.{IsRanked, add, value}
use dparallel_recursion.Serial.Total.{SerialFuncAgrees}
use dparallel_recursion.StealStack.{
  StealStack, ss_init, ss_mk_empty, ss_local_depth, ss_steal, ss_acquire, release_multiple_nodes,
}
use dparallel_recursion.StealStack.View.{items, items-release_multiple_nodes, items-ss_acquire}
use dparallel_recursion.StealStack.Grow.{items-ss_push}
use dparallel_recursion.StealStack.Steal.{chunk, ss_steal-Steals}
use dparallel_recursion.Threads.Node.{weight, examine-Examined}
use dparallel_recursion.Threads.Inv.{IsEmpty, idle}
use dparallel_recursion.Threads.Reached.{AllOk, Reach-AllOk}
use dparallel_recursion.Threads.{
  Pc, starting, working, releasing, cancelling, searching, stealing, arriving, completing, waiting,
  leaving, resetting, returning, finished, examine, System, Step, start, work, release, cancel,
  acquire, find, steal, arrive, check, complete, leave, decrement, reset, return, Reach, begin,
  then_step, init, started, joined,
}

abbrev pub is_starting : Pc → Bool
is_starting starting = true
is_starting _ = false

pub not-starting-if :
    (b : Bool) (p q : Pc)
    → is_starting p ≡ false
    → is_starting q ≡ false
    → is_starting (if b then p else q) ≡ false
not-starting-if true p q hp hq = hp
not-starting-if false p q hp hq = hq

hit {ℓ} : {A : Type ℓ} (f : ℕ → A) (i : ℕ) (a : A) → update f i a i ≡ a
hit f i a = ground arith

miss {ℓ} : {A : Type ℓ} (f : ℕ → A) (i j : ℕ) (a : A) → j ≢ i → update f i a j ≡ f j
miss f i j a ne = ground arith

kept {ℓ} : {A : Type ℓ} (f : ℕ → A) (i j : ℕ) → f j ≡ update f i (f i) j
kept f i j = elim (Bool-cases (i == j)) [
  | inl e ↦ rw e (ap f (sym ((==_iff i j).0 e)))
  | inr e ↦ rw e
]

module _ {ℓ κ} {T : Type ℓ} {R : Type κ} (config : Config) (info : Info T R) (body : Body T R)
    (unit : R) (fresh root : T) (n k : ℕ) (pos : 0 < k)
    (law : IsReduction (add info body unit) unit) (ranked : IsRanked info body)
    (agrees : SerialFuncAgrees info body unit law ranked) where
  open law use {assoc, comm, identity}

  abbrev op : R → R → R
  op = add info body unit

  abbrev w : StealStack T → R
  w = weight info body unit law ranked agrees config fresh

  -- The root, before thread 0 has pushed it.
  abbrev pub pending : Pc → ℕ → R
  pending p i = if is_starting p && (i == 0) then value info body unit ranked root else unit

  -- What one thread holds.
  abbrev pub thread_load : R → StealStack T → Pc → ℕ → R
  thread_load r s p i = op r (op (w s) (pending p i))

  abbrev pub loads : System T R → ℕ → R
  loads s i = thread_load (s.result i) (s.steal_stack i) (s.pc i) i

  pub total : System T R → R
  total s = sum_below op unit (loads s) n

  no-pending : (p : Pc) (i : ℕ) → is_starting p ≡ false → pending p i ≡ unit
  no-pending p i e = rw e

  move-load :
      (r : R) (s : StealStack T) (p q : Pc) (i : ℕ)
      → is_starting p ≡ false
      → is_starting q ≡ false
      → thread_load r s q i ≡ thread_load r s p i
  move-load r s p q i hp hq =
      ap (λ x. op r (op (w s) x)) (no-pending q i hq ∙ sym (no-pending p i hp))

  same-total :
      (s t : System T R) (i : ℕ)
      → ((j : ℕ) → j ≢ i → loads t j ≡ loads s j)
      → loads t i ≡ loads s i
      → total t ≡ total s
  unfolding total
  same-total s t i others mine = sum_below-cong op unit _ _ n (λ j lt. elim (ℕ_discrete j i) [
    | yes e ↦ subst (λ x. loads t x ≡ loads s x) (sym e) mine
    | no ne ↦ others j ne
  ])

  -- A step that changes thread `i` alone.
  total-change :
      (s t : System T R) (i : ℕ) (r : R) (st : StealStack T) (p : Pc)
      → ((j : ℕ) → t.result j ≡ update s.result i r j)
      → ((j : ℕ) → t.steal_stack j ≡ update s.steal_stack i st j)
      → ((j : ℕ) → t.pc j ≡ update s.pc i p j)
      → thread_load r st p i ≡ loads s i
      → total t ≡ total s
  total-change s t i r st p hr hs hp e =
      same-total s t i
        (λ j ne. rw (
          hr j,
          hs j,
          hp j,
          miss s.result i j r ne,
          miss s.steal_stack i j st ne,
          miss s.pc i j p ne,
        ))
        (rw (hr i, hs i, hp i, hit s.result i r, hit s.steal_stack i st, hit s.pc i p) e)

  -- A step that moves thread `i` and changes nothing else of it.
  total-move :
      (s t : System T R) (i : ℕ) (p : Pc)
      → ((j : ℕ) → t.result j ≡ s.result j)
      → ((j : ℕ) → t.steal_stack j ≡ s.steal_stack j)
      → ((j : ℕ) → t.pc j ≡ update s.pc i p j)
      → is_starting (s.pc i) ≡ false
      → is_starting p ≡ false
      → total t ≡ total s
  total-move s t i p hr hs hp was is =
      total-change s t i (s.result i) (s.steal_stack i) p (λ j. hr j ∙ kept s.result i j)
        (λ j. hs j ∙ kept s.steal_stack i j) hp
        (move-load (s.result i) (s.steal_stack i) (s.pc i) p i was is)

  start-load :
      (s : System T R) (i : ℕ)
      → s.pc i ≡ starting
      → AllOk k s
      → thread_load
          (s.result i)
          (started config info body unit fresh root n k i (s.steal_stack i))
          working
          i
        ≡ loads s i
  start-load s i e ok = elim (Bool-cases (i == 0)) [
    | inl first ↦
        rw (e, first)
          (ap (op (s.result i)) (
            identity _
            ∙ ap (sum_list op unit (value info body unit ranked))
                ((items-ss_push fresh (s.steal_stack i) root (ok i).valid).1)
            ∙ sum_list-append op unit law (value info body unit ranked) (items (s.steal_stack i))
                (root ∷ [])
            ∙ ap (op (w (s.steal_stack i)))
                (sum_list-one op unit law (value info body unit ranked) root)))
    | inr other ↦ rw (e, other)
  ]

  work-load :
      (s : System T R) (i f : ℕ) (t : StealStack T) (r : R) (pushed : Bool)
      → s.pc i ≡ working
      → 0 < ss_local_depth (s.steal_stack i)
      → examine config info body fresh f (s.steal_stack i) (s.result i) ≡ some (t, r, pushed)
      → AllOk k s
      → thread_load r t (if pushed then releasing else working) i ≡ loads s i
  unfolding ss_local_depth
  work-load s i f t r pushed e deep ran ok =
      let done =
        examine-Examined info body unit law ranked agrees config fresh f (s.steal_stack i)
          (s.result i) (t, r, pushed) (ok i).valid (omega arith) ran in
      ap (λ x. op r (op (w t) x))
        (no-pending _ i (not-starting-if pushed releasing working refl refl))
      ∙ ap (op r) (identity (w t))
      ∙ done.balance
      ∙ ap (op (s.result i)) (
          sym (
            ap (op (w (s.steal_stack i))) (no-pending _ i (ap is_starting e))
            ∙ identity (w (s.steal_stack i))))

  same-items-load :
      (s : System T R) (i : ℕ) (t : StealStack T) (p : Pc)
      → is_starting (s.pc i) ≡ false
      → is_starting p ≡ false
      → items t ≡ items (s.steal_stack i)
      → thread_load (s.result i) t p i ≡ loads s i
  same-items-load s i t p was is e =
      move-load _ t (s.pc i) p i was is
      ∙ ap
          (λ l.
            op (s.result i)
              (op (sum_list op unit (value info body unit ranked) l) (pending (s.pc i) i)))
          e

  more-left : (r a q c : R) → op r (op (op a c) q) ≡ op (op r (op a q)) c
  more-left r a q c = ap (op r) (swap_right op unit law a c q) ∙ sym (assoc r (op a q) c)

  -- A theft moves the chunk from the victim's load to the thief's.
  theft-total :
      (s t : System T R) (i j : ℕ) (a b : StealStack T) (p : Pc) (c : R)
      → i < n
      → j < n
      → j ≢ i
      → ((x : ℕ) → t.result x ≡ s.result x)
      → ((x : ℕ) → t.steal_stack x ≡ update (update s.steal_stack i a) j b x)
      → ((x : ℕ) → t.pc x ≡ update s.pc i p x)
      → is_starting (s.pc i) ≡ false
      → is_starting p ≡ false
      → w a ≡ op (w (s.steal_stack i)) c
      → w (s.steal_stack j) ≡ op (w b) c
      → total t ≡ total s
  unfolding total
  theft-total s t i j a b p c i_lt j_lt ne hr hs hp was is got lost =
      sum_below-grow op unit law without (loads t) n i c i_lt others thief
      ∙ sym (
          sum_below-grow op unit law without (loads s) n j c j_lt
            (λ x x_ne. sym (miss (loads s) j x _ x_ne)) victim)
    where
      left : R
      left = thread_load (s.result j) b (s.pc j) j

      without : ℕ → R
      without = update (loads s) j left

      victim : loads s j ≡ op (without j) c
      victim =
          ap (λ x. op (s.result j) (op x (pending (s.pc j) j))) lost
          ∙ more-left (s.result j) (w b) (pending (s.pc j) j) c
          ∙ ap (λ x. op x c) (sym (hit (loads s) j left))

      thief : loads t i ≡ op (without i) c
      thief =
          rw
            (
              hr i,
              hs i,
              hp i,
              hit s.pc i p,
              miss (update s.steal_stack i a) j i b (λ e. ne (sym e)),
              hit s.steal_stack i a,
              miss (loads s) j i left (λ e. ne (sym e)),
            )
            (move-load (s.result i) a (s.pc i) p i was is
              ∙ ap (λ x. op (s.result i) (op x (pending (s.pc i) i))) got
              ∙ more-left (s.result i) (w (s.steal_stack i)) (pending (s.pc i) i) c)

      others : (x : ℕ) → x ≢ i → loads t x ≡ without x
      others x x_ne = elim (ℕ_discrete x j) [
        | yes e ↦
            subst (λ y. loads t y ≡ without y) (sym e)
              (rw (
                hr j,
                hs j,
                hp j,
                hit (update s.steal_stack i a) j b,
                miss s.pc i j p ne,
                hit (loads s) j left,
              ))
        | no y_ne ↦ rw (
          hr x,
          hs x,
          hp x,
          miss (update s.steal_stack i a) j x b y_ne,
          miss s.steal_stack i x a x_ne,
          miss s.pc i x p x_ne,
          miss (loads s) j x left y_ne,
        )
      ]

  steal-total :
      (s t : System T R) (i j : ℕ)
      → i < n
      → j < n
      → j ≢ i
      → AllOk k s
      → s.pc i ≡ stealing j
      → ((x : ℕ) → t.result x ≡ s.result x)
      → ((x : ℕ)
          → t.steal_stack x
            ≡ update
                (update s.steal_stack i (ss_steal fresh (s.steal_stack i) (s.steal_stack j) k).0)
                j
                (ss_steal fresh (s.steal_stack i) (s.steal_stack j) k).1
                x)
      → ((x : ℕ)
          → t.pc x
            ≡ update s.pc i
                (if (ss_steal fresh (s.steal_stack i) (s.steal_stack j) k).2
                  then working
                  else searching)
                x)
      → total t ≡ total s
  steal-total s t i j i_lt j_lt ne ok e hr hs hp =
      let steals =
        ss_steal-Steals fresh (s.steal_stack i) (s.steal_stack j) k (ok i).valid (ok j).valid in
      let v = value info body unit ranked in
      elim steals.outcome [
        | inl (avail, won, got, lost, fewer) ↦
            theft-total s t i j _ _ _ (sum_list op unit v (chunk (s.steal_stack j) k)) i_lt j_lt ne
              hr hs hp (ap is_starting e) (not-starting-if _ working searching refl refl)
              (ap (sum_list op unit v) got ∙ sum_list-append op unit law v _ _)
              (ap (sum_list op unit v) lost ∙ sum_list-append op unit law v _ _ ∙ comm _ _)
        | inr (short, failed, same, whole) ↦
            theft-total s t i j _ _ _ unit i_lt j_lt ne hr hs hp (ap is_starting e)
              (not-starting-if _ working searching refl refl)
              (ap (sum_list op unit v) same ∙ sym (identity _))
              (ap (λ b. w b) (sym whole) ∙ sym (identity _))
      ]

  -- A step of any thread keeps the total.
  pub Step-total :
      {s t : System T R}
      → Step config info body unit fresh root n k s t
      → AllOk k s
      → total t ≡ total s
  Step-total {s} (start i lt e) ok =
      total-change s _ i (s.result i) _ working (kept s.result i) (λ j. refl) (λ j. refl)
        (start-load s i e ok)
  Step-total {s} (work i f t r pushed lt e deep ran) ok =
      total-change s _ i r t _ (λ j. refl) (λ j. refl) (λ j. refl)
        (work-load s i f t r pushed e deep ran ok)
  Step-total {s} (release i lt e) ok =
      total-change s _ i (s.result i) _ _ (kept s.result i) (λ j. refl) (λ j. refl)
        (same-items-load s i (release_multiple_nodes (s.steal_stack i) k).0 _ (ap is_starting e)
          (not-starting-if _ cancelling working refl refl)
          (items-release_multiple_nodes (s.steal_stack i) k))
  Step-total {s} (cancel i lt e) ok =
      total-move s _ i working (λ j. refl) (λ j. refl) (λ j. refl) (ap is_starting e) refl
  Step-total {s} (acquire i lt e shallow) ok =
      total-change s _ i (s.result i) _ _ (kept s.result i) (λ j. refl) (λ j. refl)
        (same-items-load s i (ss_acquire (s.steal_stack i) k).0 _ (ap is_starting e)
          (not-starting-if _ working searching refl refl) (items-ss_acquire (s.steal_stack i) k))
  Step-total {s} (find i victim lt e v_lt ne) ok =
      total-move s _ i (stealing victim) (λ j. refl) (λ j. refl) (λ j. refl) (ap is_starting e) refl
  Step-total {s} (steal i victim lt e v_lt ne) ok =
      steal-total s _ i victim lt v_lt ne ok e (λ j. refl) (λ j. refl) (λ j. refl)
  Step-total {s} (arrive i lt e) ok =
      total-move s _ i arriving (λ j. refl) (λ j. refl) (λ j. refl) (ap is_starting e) refl
  Step-total {s} (check i lt e) ok =
      total-move s _ i _ (λ j. refl) (λ j. refl) (λ j. refl) (ap is_starting e)
        (not-starting-if _ completing waiting refl refl)
  Step-total {s} (complete i lt e) ok =
      total-move s _ i waiting (λ j. refl) (λ j. refl) (λ j. refl) (ap is_starting e) refl
  Step-total {s} (leave i lt e go) ok =
      total-move s _ i leaving (λ j. refl) (λ j. refl) (λ j. refl) (ap is_starting e) refl
  Step-total {s} (decrement i lt e) ok =
      total-move s _ i resetting (λ j. refl) (λ j. refl) (λ j. refl) (ap is_starting e) refl
  Step-total {s} (reset i lt e) ok =
      total-move s _ i returning (λ j. refl) (λ j. refl) (λ j. refl) (ap is_starting e) refl
  Step-total {s} (return i lt e) ok =
      total-move s _ i _ (λ j. refl) (λ j. refl) (λ j. refl) (ap is_starting e)
        (not-starting-if _ finished working refl refl)

  nothing-total : (m : ℕ) → sum_below op unit (λ _. unit) m ≡ unit
  unfolding sum_below
  nothing-total zero = refl
  nothing-total (suc m) = ap (λ x. op x unit) (nothing-total m) ∙ identity unit

  empty-load :
      (r : R) (s : StealStack T) (p : Pc) (i : ℕ)
      → IsEmpty s
      → thread_load r s p i ≡ op r (pending p i)
  unfolding sum_list segment
  empty-load r s p i e =
      let none_left : s.top - s.shared_start ≡ 0 = omega arith in
      rw none_left (ap (op r) (identity_left op unit law (pending p i)))

  -- Before the threads start, all there is to do is the root.
  init-total :
      (raw : ℕ → StealStack T) (size : ℕ)
      → 0 < n
      → total (init config info body unit fresh root n k raw size)
        ≡ value info body unit ranked root
  unfolding total init ss_init ss_mk_empty
  init-total raw size lt =
      sum_below-grow op unit law (λ _. unit) _ n 0 (value info body unit ranked root) lt
        (λ j ne. empty-load unit (ss_init fresh (raw j) size) starting j refl ∙ other j ne)
        (empty-load unit (ss_init fresh (raw 0) size) starting 0 refl)
      ∙ ap (λ x. op x (value info body unit ranked root)) (nothing-total n)
      ∙ identity_left op unit law _
    where
      other : (j : ℕ) → j ≢ 0 → op unit (pending starting j) ≡ unit
      other j ne = let not_first : (j == 0) ≡ false = ground arith in rw not_first (identity unit)

  -- For a reduction by a commutative monoid over a problem that gets smaller, at least one thread
  -- and chunks of at least one element: in every reachable state the results of the threads and the
  -- trees of all elements on the stacks, with the root while thread 0 has not started, add up to the
  -- reduction over the tree of the root.
  pub Reach-total :
      {raw : ℕ → StealStack T} {size : ℕ} {s : System T R}
      → 0 < n
      → Reach config info body unit fresh root n k raw size s
      → total s ≡ value info body unit ranked root
  Reach-total {raw} {size} lt begin = init-total raw size lt
  Reach-total lt (then_step r st) =
      Step-total st (Reach-AllOk config info body unit fresh root n k pos law ranked agrees r)
      ∙ Reach-total lt r

  -- For a reduction by a commutative monoid over a problem that gets smaller, at least one thread
  -- and chunks of at least one element: in a reachable state in which all threads have returned, the
  -- reduction that `run` makes of their results is the reduction over the tree of the root.
  pub joined-value :
      {raw : ℕ → StealStack T} {size : ℕ} {s : System T R}
      → 0 < n
      → Reach config info body unit fresh root n k raw size s
      → ((i : ℕ) → i < n → s.pc i ≡ finished)
      → joined config info body unit fresh root n k s ≡ value info body unit ranked root
  unfolding joined total
  joined-value {s} lt r over =
      sum_below-cong op unit _ _ n (λ i i_lt. sym (
        empty-load (s.result i) (s.steal_stack i) (s.pc i) i (
          (Reach-AllOk config info body unit fresh root n k pos law ranked agrees r i).quiet
            (ap idle (over i i_lt)))
        ∙ ap (op (s.result i)) (no-pending _ i (ap is_starting (over i i_lt)))
        ∙ identity (s.result i)))
      ∙ Reach-total lt r
