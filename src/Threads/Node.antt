-- ===== src/Threads/Node.antt =====
-- One round of local work keeps the reduction: what leaves the stack enters the thread's result.
use dparallel_recursion.Common.{
  ℕ, zero, suc, ◌+◌, ◌-◌, ◌<◌, ◌≡◌, refl, sym, ap, ap₂, subst, ◌∙◌, Bool, true, false, some,
  >>=-eq-some, [], ◌∷◌, ◌++◌, inl, inr, arith, ltb, if◌then◌else◌, segment, segment-cong,
  segment-update_above, append_last_inj, Bool-cases, lt→ltb,
}
use dparallel_recursion.Common.Reduction.{
  IsReduction, sum_below, sum_list, sum_list-append, sum_list-one, identity_left, swap_right,
}
use dparallel_recursion.Skeleton.{Info, Body, Config}
use dparallel_recursion.Skeleton.Tree.{IsRanked, add, own_value, value, value-base, value-node}
use dparallel_recursion.Serial.{do_it_serial, loop_children}
use dparallel_recursion.Serial.Total.{SerialFuncAgrees, own-add}
use dparallel_recursion.Serial.Sound.{some-inj, do_it_serial_sound, loop_children_sound}
use dparallel_recursion.StealStack.{
  StealStack, ss_check_stack_size, ss_top, ss_setvalue_pos, ss_pop, ss_top_posn,
}
use dparallel_recursion.StealStack.View.{IsValid, items, items-ss_pop, ss_pop-IsValid}
use dparallel_recursion.StealStack.Grow.{ss_check_stack_size-room}
use dparallel_recursion.Threads.Push.{placed, Replaces, items-push_children}
use dparallel_recursion.Threads.{push_children, branch, examine}

module _ {ℓ κ} {T : Type ℓ} {R : Type κ} (op : R → R → R) (unit : R) (law : IsReduction op unit)
    (v : T → R) where
  open law use {assoc, comm, identity}

  sum-segment :
      (child : ℕ → T) (i n : ℕ)
      → op (sum_below op unit (λ k. v (child k)) i) (sum_list op unit v (segment child i n))
        ≡ sum_below op unit (λ k. v (child k)) (i + n)
  unfolding sum_below sum_list segment
  sum-segment child i zero =
      let e : i ≡ i + 0 = omega arith in identity _ ∙ ap (sum_below op unit (λ k. v (child k))) e
  sum-segment child i (suc n) =
      let e : i + 1 ≡ suc i = omega arith in
      let e' : suc i + n ≡ i + suc n = omega arith in
      sym (assoc _ _ _)
      ∙ ap
          (λ j.
            op (sum_below op unit (λ k. v (child k)) (suc i))
              (sum_list op unit v (segment child j n)))
          e
      ∙ sum-segment child (suc i) n
      ∙ ap (sum_below op unit (λ k. v (child k))) e'

  sum-reversed :
      (child : ℕ → T) (n : ℕ)
      → sum_list op unit v (segment (λ k. child (n - 1 - k)) 0 n)
        ≡ sum_below op unit (λ k. v (child k)) n
  unfolding sum_below sum_list segment
  sum-reversed child zero = refl
  sum-reversed child (suc n) =
      let e : suc n - 1 - 0 ≡ n = omega arith in
      ap₂ op (ap (λ k. v (child k)) e) (
        ap (sum_list op unit v)
          (segment-cong _ (λ k. child (n - 1 - k)) (0 + 1) 0 n (λ k lt. ap child (omega arith)))
        ∙ sum-reversed child n)
      ∙ comm _ _

  -- In either order the children weigh the same.
  sum-placed :
      (config : Config) (child : ℕ → T) (n : ℕ)
      → sum_list op unit v (segment (placed config child n) 0 n)
        ≡ sum_below op unit (λ k. v (child k)) n
  unfolding sum_below
  sum-placed config child n = elim (Bool-cases config.force_l_to_r) [
    | inl e ↦ rw e (sum-reversed child n)
    | inr e ↦ rw e (
        sym (identity_left op unit law _)
        ∙ sum-segment child 0 n
        ∙ ap (sum_below op unit (λ k. v (child k))) (omega arith))
  ]

module _ {ℓ} {T : Type ℓ} where
  items-pop-setvalue :
      (s : StealStack T) (c : T)
      → IsValid s
      → s.local < s.top
      → items (ss_pop (ss_setvalue_pos s c (ss_top_posn s))) ≡ items (ss_pop s)
  unfolding ss_pop ss_setvalue_pos ss_top_posn
  items-pop-setvalue s c v lt =
      segment-update_above s.stack s.shared_start (s.top - 1 - s.shared_start) (s.top - 1) c
        (omega arith)

  setvalue-IsValid :
      (s : StealStack T) (c : T) (p : ℕ) → IsValid s → IsValid (ss_setvalue_pos s c p)
  unfolding ss_setvalue_pos
  setvalue-IsValid s c p v = record {
    shared_le = v.shared_le;
    local_le = v.local_le;
    fits = v.fits;
  }

  items-pop-cong :
      (s t : StealStack T)
      → IsValid s
      → IsValid t
      → s.local < s.top
      → t.local < t.top
      → items s ≡ items t
      → items (ss_pop s) ≡ items (ss_pop t)
  items-pop-cong s t vs vt ls lt e =
      append_last_inj _ _ (ss_top s) (ss_top t)
        (sym (items-ss_pop s vs ls) ∙ e ∙ items-ss_pop t vt lt)

-- What a round leaves behind: the shared portion untouched, and result and stack that add up.
pub record Examined {ℓ κ} {T : Type ℓ} {R : Type κ} (op : R → R → R) (weight : StealStack T → R)
    (s t : StealStack T) (r r' : R) : Type κ where
  pub valid : IsValid t
  pub same_shared : t.local - t.shared_start ≡ s.local - s.shared_start
  pub balance : op r' (weight t) ≡ op r (weight s)

module _ {ℓ κ} {T : Type ℓ} {R : Type κ} (info : Info T R) (body : Body T R) (unit : R)
    (law : IsReduction (add info body unit) unit) (ranked : IsRanked info body)
    (agrees : SerialFuncAgrees info body unit law ranked) (config : Config) (fresh : T) where
  open law use {assoc, comm, identity}
  open ranked use {child-lt}

  abbrev v : T → R
  v = value info body unit ranked

  abbrev op : R → R → R
  op = add info body unit

  -- The reduction over the trees of all elements of a stack.
  abbrev pub weight : StealStack T → R
  weight s = sum_list op unit v (items s)

  weight-top :
      (s : StealStack T)
      → IsValid s
      → s.local < s.top
      → weight s ≡ op (weight (ss_pop s)) (v (ss_top s))
  weight-top s w lt =
      ap (sum_list op unit v) (items-ss_pop s w lt)
      ∙ sum_list-append op unit law v (items (ss_pop s)) (ss_top s ∷ [])
      ∙ ap (op (weight (ss_pop s))) (sum_list-one op unit law v (ss_top s))

  -- The top element leaves the stack, and its whole tree enters the result.
  pop-Examined :
      (s t : StealStack T) (r r' : R)
      → IsValid s
      → s.local < s.top
      → IsValid t
      → t.local ≡ s.local
      → t.shared_start ≡ s.shared_start
      → items t ≡ items (ss_pop s)
      → r' ≡ op r (v (ss_top s))
      → Examined op weight s t r r'
  pop-Examined s t r r' w lt valid same_local same_start same_items grown = record {
    valid = valid;
    same_shared = ap₂ ◌-◌ same_local same_start;
    balance =
        ap₂ op grown (ap (sum_list op unit v) same_items)
        ∙ swap_right op unit law r (v (ss_top s)) (weight (ss_pop s))
        ∙ assoc r (weight (ss_pop s)) (v (ss_top s))
        ∙ ap (op r) (sym (weight-top s w lt));
  }

  -- The children take the place of the top element.
  push-Examined :
      (s u : StealStack T) (r b : R) (child : ℕ → T) (n : ℕ)
      → IsValid s
      → s.local < s.top
      → items (ss_pop u) ≡ items (ss_pop s)
      → u.local - u.shared_start ≡ s.local - s.shared_start
      → Replaces u
          (push_children config child (suc n) u)
          (segment (placed config child (suc n)) 0 (suc n))
      → v (ss_top s) ≡ op b (sum_below op unit (λ k. v (child k)) (suc n))
      → Examined op weight s (push_children config child (suc n) u) r (op r b)
  push-Examined s u r b child n w lt same shared rep tree = record {
    valid = rep.valid;
    same_shared = ap₂ ◌-◌ rep.same_local rep.same_shared ∙ shared;
    balance =
        ap (op (op r b)) (
          ap (sum_list op unit v)
            (rep.new_items ∙ ap (λ l. l ++ segment (placed config child (suc n)) 0 (suc n)) same)
          ∙ sum_list-append op unit law v (items (ss_pop s)) _
          ∙ ap (op (weight (ss_pop s))) (sum-placed op unit law v config child (suc n)))
        ∙ assoc r b _
        ∙ ap (op r) (
            sym (assoc b (weight (ss_pop s)) _)
            ∙ ap (λ a. op a (sum_below op unit (λ k. v (child k)) (suc n)))
                (comm b (weight (ss_pop s)))
            ∙ assoc (weight (ss_pop s)) b _
            ∙ ap (op (weight (ss_pop s))) (sym tree)
            ∙ sym (weight-top s w lt));
  }

  module _ (s u : StealStack T) (d : T) (r r₁ : R) (w : IsValid s) (lt : s.local < s.top)
      (valid : IsValid u) (same_local : u.local ≡ s.local)
      (same_start : u.shared_start ≡ s.shared_start) (same_top : u.top ≡ s.top)
      (same : items (ss_pop u) ≡ items (ss_pop s)) (own : r₁ ≡ op r (own_value body unit d)) where
    parallel-Examined :
        (n : ℕ) (x : StealStack T × R × Bool)
        → v (ss_top s) ≡ op (own_value body unit d) (sum_below op unit (λ i. v (info.child i d)) n)
        → (if ltb 0 n
            then some (
              push_children config (λ i. info.child i d) n (ss_check_stack_size fresh u n),
              r₁,
              true,
            )
            else some (ss_pop u, r₁, false))
          ≡ some x
        → Examined op weight s x.0 r x.1
    unfolding sum_below ss_pop
    parallel-Examined zero x tree e =
        subst (λ y. Examined op weight s y.0 r y.1) (some-inj e)
          (pop-Examined s (ss_pop u) r r₁ w lt (ss_pop-IsValid u valid (omega arith)) same_local
            same_start same (own ∙ ap (op r) (sym (identity (own_value body unit d)) ∙ sym tree)))
    parallel-Examined (suc m) x tree e =
        let (grown, room) = ss_check_stack_size-room fresh u (suc m) valid in
        let still : (ss_check_stack_size fresh u (suc m)).local
            < (ss_check_stack_size fresh u (suc m)).top =
          omega (arith, grown.same_local) in
        subst (λ y. Examined op weight s y.0 r y.1)
          (some-inj (rw (lt→ltb 0 (suc m) (omega arith)) at e))
          (subst
            (λ a.
              Examined op weight s
                (push_children config (λ i. info.child i d) (suc m)
                  (ss_check_stack_size fresh u (suc m)))
                r a)
            (sym own)
            (push-Examined s (ss_check_stack_size fresh u (suc m)) r (own_value body unit d)
              (λ i. info.child i d) m w lt
              (items-pop-cong (ss_check_stack_size fresh u (suc m)) u grown.valid valid still
                  (omega arith) grown.same_items
                ∙ same)
              (grown.same_shared ∙ ap₂ ◌-◌ same_local same_start)
              (items-push_children config (λ i. info.child i d) m
                (ss_check_stack_size fresh u (suc m)) grown.valid still room)
              tree))

    branch-Examined :
        (f : ℕ) (x : StealStack T × R × Bool)
        → v (ss_top s)
          ≡ op
              (own_value body unit d)
              (sum_below op unit (λ i. v (info.child i d)) (info.num_children d))
        → branch config info body fresh f u d r₁ ≡ some x
        → Examined op weight s x.0 r x.1
    unfolding branch ss_pop
    branch-Examined f x tree e = elim (Bool-cases (info.do_parallel d)) [
      | inl p ↦ parallel-Examined (info.num_children d) x tree (rw p at e)
      | inr p ↦
          let (a, ran, rest) =
            >>=-eq-some
              (loop_children config (do_it_serial info body config f) (λ i. info.child i d)
                (info.num_children d) r₁)
              (λ r'. some (ss_pop u, r', false)) (rw p at e) in
          let kids =
            loop_children_sound op unit law (do_it_serial info body config f) (λ i. info.child i d)
              (λ i. v (info.child i d)) config (info.num_children d) r₁ a
              (λ k z y k_lt q. do_it_serial_sound info body unit law ranked agrees config f z y _ q)
              ran in
          subst (λ y. Examined op weight s y.0 r y.1) (some-inj rest)
            (pop-Examined s (ss_pop u) r a w lt (ss_pop-IsValid u valid (omega arith)) same_local
              same_start same
              (kids
                ∙ ap (λ b. op b (sum_below op unit (λ i. v (info.child i d)) (info.num_children d)))
                    own
                ∙ assoc r _ _
                ∙ ap (op r) (sym tree)))
    ]

  -- For a reduction by a commutative monoid over a problem that gets smaller, a round of local work
  -- that returns, on a well-formed stack with local work, leaves a well-formed stack, adds to the
  -- result the reduction that the stack loses, and keeps the size of the shared portion.
  pub examine-Examined :
      (f : ℕ) (s : StealStack T) (r : R) (x : StealStack T × R × Bool)
      → IsValid s
      → s.local < s.top
      → examine config info body fresh f s r ≡ some x
      → Examined op weight s x.0 r x.1
  unfolding examine ss_pop
  examine-Examined f s r x w lt e = elim (Bool-cases (info.is_base (body.pre (ss_top s)))) [
    | inl leaf ↦
        subst (λ y. Examined op weight s y.0 r y.1) (some-inj (rw leaf at e))
          (pop-Examined s _ r _ w lt (ss_pop-IsValid _ (setvalue-IsValid s _ _ w) lt) refl refl
            (items-pop-setvalue s _ w lt)
            (ap (op r) (sym (value-base info body unit ranked (ss_top s) leaf))))
    | inr inner ↦
        branch-Examined s
          (ss_setvalue_pos (ss_setvalue_pos s (body.pre (ss_top s)) (ss_top_posn s))
            (body.pre_rec (body.pre (ss_top s))) (ss_top_posn s))
          (body.pre_rec (body.pre (ss_top s))) r _ w lt
          (setvalue-IsValid _ _ _ (setvalue-IsValid s _ _ w)) refl refl refl
          (items-pop-setvalue (ss_setvalue_pos s (body.pre (ss_top s)) (ss_top_posn s)) _
              (setvalue-IsValid s _ _ w) lt
            ∙ items-pop-setvalue s _ w lt)
          (own-add info body unit law ranked r (body.pre_rec (body.pre (ss_top s)))) f x
          (value-node info body unit ranked (ss_top s) inner) (rw inner at e)
  ]
