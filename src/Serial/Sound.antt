-- ===== src/Serial/Sound.antt =====
-- Whatever fuel lets the recursion return, it returns the reduction over the whole tree.
use native.Mathlib.Nat.{zero-add}
use dparallel_recursion.Common.{
  ℕ, zero, suc, ◌+◌, ◌<◌, ◌≡◌, refl, sym, ap, ◌∙◌, false, Option, none, some, >>=-eq-some, arith,
  Bool-cases, inl, inr, subst,
}
use dparallel_recursion.Common.Reduction.{IsReduction, sum_below, swap_right}
use dparallel_recursion.Skeleton.{Info, Body, Config}
use dparallel_recursion.Skeleton.Tree.{IsRanked, add, own_value, value, value-base, value-node}
use dparallel_recursion.Serial.{
  loop_up, loop_down, loop_children, serial_node, or_serial_func, do_it_serial,
}
use dparallel_recursion.Serial.Total.{SerialFuncAgrees, own-add}

pub some-inj {ℓ} : {A : Type ℓ} {a b : A} → some a ≡ some b → a ≡ b
some-inj e = cc

module _ {ℓ κ} {T : Type ℓ} {R : Type κ} (op : R → R → R) (unit : R)
    (law : IsReduction op unit) where
  open law use {assoc, comm, identity}

  module _ (rec : R → T → Option R) (child : ℕ → T) (v : ℕ → R) where
    loop_up_sound :
        (n i : ℕ) (r acc x : R)
        → ((k : ℕ) (s y : R) → k < i + n → rec s (child k) ≡ some y → y ≡ op s (v k))
        → acc ≡ op r (sum_below op unit v i)
        → loop_up rec child n i acc ≡ some x
        → x ≡ op r (sum_below op unit v (i + n))
    unfolding loop_up sum_below
    loop_up_sound zero i r acc x h start e =
        let same : i ≡ i + 0 = omega arith in
        sym (some-inj e) ∙ start ∙ ap (λ m. op r (sum_below op unit v m)) same
    loop_up_sound (suc n) i r acc x h start e =
        let (y, first, rest) = >>=-eq-some (rec acc (child i)) (loop_up rec child n (i + 1)) e in
        let e' : i + 1 ≡ suc i = omega arith in
        let same : suc i + n ≡ i + suc n = omega arith in
        loop_up_sound n (suc i) r y x (λ k s z lt. h k s z (omega arith))
          (h i acc y (omega arith) first
            ∙ ap (λ a. op a (v i)) start
            ∙ assoc r (sum_below op unit v i) (v i))
          (subst (λ m. loop_up rec child n m y ≡ some x) e' rest)
        ∙ ap (λ m. op r (sum_below op unit v m)) same

    loop_down_sound :
        (n : ℕ) (r x : R)
        → ((k : ℕ) (s y : R) → k < n → rec s (child k) ≡ some y → y ≡ op s (v k))
        → loop_down rec child n r ≡ some x
        → x ≡ op r (sum_below op unit v n)
    unfolding loop_down sum_below
    loop_down_sound zero r x h e = sym (some-inj e) ∙ sym (identity r)
    loop_down_sound (suc n) r x h e =
        let (y, first, rest) = >>=-eq-some (rec r (child n)) (loop_down rec child n) e in
        loop_down_sound n y x (λ k s z lt. h k s z (omega arith)) rest
        ∙ ap (λ a. op a (sum_below op unit v n)) (h n r y (omega arith) first)
        ∙ swap_right op unit law r (v n) (sum_below op unit v n)
        ∙ assoc r (sum_below op unit v n) (v n)

    pub loop_children_sound :
        (config : Config) (n : ℕ) (r x : R)
        → ((k : ℕ) (s y : R) → k < n → rec s (child k) ≡ some y → y ≡ op s (v k))
        → loop_children config rec child n r ≡ some x
        → x ≡ op r (sum_below op unit v n)
    unfolding loop_children sum_below
    loop_children_sound config n r x h e = elim (Bool-cases config.force_r_to_l) [
      | inl down ↦ loop_down_sound n r x h (rw down at e)
      | inr up ↦
          loop_up_sound n 0 r r x (λ k s y lt. h k s y (omega arith)) (sym (identity r))
            (rw up at e)
          ∙ ap (λ m. op r (sum_below op unit v m)) (zero-add n)
    ]

or_serial_func_sound {ℓ κ} :
    {T : Type ℓ} {R : Type κ} (o : Option (T → R → R)) (y r x : R) (d : T) (rest : Option R)
    → ((g : T → R → R) → o ≡ some g → g d r ≡ y)
    → (rest ≡ some x → x ≡ y)
    → or_serial_func o r d rest ≡ some x
    → x ≡ y
unfolding or_serial_func
or_serial_func_sound none y r x d rest h k e = k e
or_serial_func_sound (some g) y r x d rest h k e = sym (some-inj e) ∙ h g refl

module _ {ℓ κ} {T : Type ℓ} {R : Type κ} (info : Info T R) (body : Body T R) (unit : R)
    (law : IsReduction (add info body unit) unit) (ranked : IsRanked info body)
    (agrees : SerialFuncAgrees info body unit law ranked) where
  open law use {assoc}
  open ranked use {child-lt}

  -- The sum over the children of a datum, after `pre` and `pre_rec`.
  abbrev kids : T → R
  kids d =
      sum_below (add info body unit) unit
        (λ i. value info body unit ranked (info.child i (body.pre_rec (body.pre d))))
        (info.num_children (body.pre_rec (body.pre d)))

  pub serial_node_sound :
      (children : T → R → Option R) (d : T) (r x : R)
      → ((s : R)
          → info.is_base (body.pre d) ≡ false
          → children (body.pre_rec (body.pre d)) s ≡ some x
          → x ≡ body.post (kids d) s)
      → serial_node info body children r d ≡ some x
      → x ≡ body.post (value info body unit ranked d) r
  unfolding serial_node
  serial_node_sound children d r x h e = elim (Bool-cases (info.is_base (body.pre d))) [
    | inl leaf ↦
        sym (some-inj (rw leaf at e))
        ∙ ap (λ b. body.post b r) (sym (value-base info body unit ranked d leaf))
    | inr inner ↦
        h _ inner (rw inner at e)
        ∙ ap (body.post (kids d)) (own-add info body unit law ranked r (body.pre_rec (body.pre d)))
        ∙ assoc r (own_value body unit (body.pre_rec (body.pre d))) (kids d)
        ∙ ap (λ b. body.post b r) (sym (value-node info body unit ranked d inner))
  ]

  -- For a reduction by a commutative monoid over a problem that gets smaller, and whatever the fuel:
  -- a result of the recursion is the accumulator plus the reduction over the whole tree of the
  -- datum.
  pub do_it_serial_sound :
      (config : Config) (f : ℕ) (r x : R) (d : T)
      → do_it_serial info body config f r d ≡ some x
      → x ≡ body.post (value info body unit ranked d) r
  unfolding do_it_serial
  do_it_serial_sound config zero r x d e = cc
  do_it_serial_sound config (suc f) r x d e =
      or_serial_func_sound info.do_serial_func (body.post (value info body unit ranked d) r) r x d _
        (λ g e'. agrees g d r e')
        (serial_node_sound
          (λ z.
            loop_children config (do_it_serial info body config f) (λ i. info.child i z)
              (info.num_children z))
          d r x
          (λ s inner e'.
            loop_children_sound (add info body unit) unit law (do_it_serial info body config f)
              (λ i. info.child i (body.pre_rec (body.pre d)))
              (λ i. value info body unit ranked (info.child i (body.pre_rec (body.pre d)))) config _
              s x (λ k t y lt e''. do_it_serial_sound config f t y _ e'') e'))
        e
