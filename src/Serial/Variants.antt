-- ===== src/Serial/Variants.antt =====
-- The specialisations agree: fixed arity, arity 2 and no result are the general recursion.
use dparallel_recursion.Common.{
  ℕ, zero, suc, ◌≡◌, refl, ap, sym, fun_ext, ◌∙◌, Option, none, some, ◌>>=◌, Bool-cases, inl, inr,
}
use dparallel_recursion.Skeleton.{Info, Body, VoidBody, Config}
use dparallel_recursion.Serial.{
  loop_children, two_children, serial_node, or_serial_func, do_it_serial, do_it_serial_fixed,
  do_it_serial_two, serial_node_void, do_it_serial_void, do_it_serial_void_fixed,
  do_it_serial_void_two,
}

>>=-some {ℓ} : {A : Type ℓ} (m : Option A) → (m >>= some) ≡ m
>>=-some none = refl
>>=-some (some a) = refl

module _ {ℓ κ} {T : Type ℓ} {R : Type κ} (config : Config) where
  two_children-eq :
      (rec : R → T → Option R) (child : ℕ → T) (r : R)
      → two_children config rec child r ≡ loop_children config rec child 2 r
  unfolding two_children loop_children
  two_children-eq rec child r = elim (Bool-cases config.force_r_to_l) [
    | inl e ↦
        rw e (ap (λ k. rec r (child 1) >>= k) (fun_ext (λ s. sym (>>=-some (rec s (child 0))))))
    | inr e ↦
        rw e (ap (λ k. rec r (child 0) >>= k) (fun_ext (λ s. sym (>>=-some (rec s (child 1))))))
  ]

  module _ (info : Info T R) (body : Body T R) where
    -- On a problem of a fixed arity, the specialisation for that arity runs as the general
    -- recursion.
    pub do_it_serial_fixed-eq :
        (n : ℕ)
        → ((d : T) → info.num_children d ≡ n)
        → (f : ℕ) (r : R) (d : T)
        → do_it_serial_fixed info body config n f r d ≡ do_it_serial info body config f r d
    unfolding do_it_serial_fixed do_it_serial
    do_it_serial_fixed-eq n h zero r d = refl
    do_it_serial_fixed-eq n h (suc f) r d =
        ap (λ c. or_serial_func info.do_serial_func r d (serial_node info body c r d))
          (fun_ext (λ x.
            ap (λ k. loop_children config k (λ i. info.child i x) n)
              (fun_ext (λ s. fun_ext (do_it_serial_fixed-eq n h f s)))
            ∙ ap (loop_children config (do_it_serial info body config f) (λ i. info.child i x))
                (sym (h x))))

    -- On a problem with two children at each node, the specialisation for two children runs as the
    -- general recursion.
    pub do_it_serial_two-eq :
        ((d : T) → info.num_children d ≡ 2)
        → (f : ℕ) (r : R) (d : T)
        → do_it_serial_two info body config f r d ≡ do_it_serial info body config f r d
    unfolding do_it_serial_two do_it_serial
    do_it_serial_two-eq h zero r d = refl
    do_it_serial_two-eq h (suc f) r d =
        ap (λ c. or_serial_func info.do_serial_func r d (serial_node info body c r d))
          (fun_ext (λ x.
            ap (λ k. two_children config k (λ i. info.child i x))
              (fun_ext (λ s. fun_ext (do_it_serial_two-eq h f s)))
            ∙ fun_ext (two_children-eq (do_it_serial info body config f) (λ i. info.child i x))
            ∙ ap (loop_children config (do_it_serial info body config f) (λ i. info.child i x))
                (sym (h x))))

    -- A body with results, as one whose memory is the accumulator.
    abbrev pub as_void : VoidBody T R
    as_void = record {
      process_non_base = body.process_non_base;
      pre = body.pre;
      pre_rec = body.pre_rec;
      base = λ d r. body.post (body.base d) r;
      non_base = λ d r. body.post (body.non_base d) r;
    }

    -- The recursion with no result, over the accumulator as its memory, runs as the one with a
    -- result.
    pub do_it_serial_void-eq :
        (f : ℕ) (r : R) (d : T)
        → do_it_serial_void info as_void config f r d ≡ do_it_serial info body config f r d
    unfolding do_it_serial_void do_it_serial
    do_it_serial_void-eq zero r d = refl
    do_it_serial_void-eq (suc f) r d =
        ap
          (λ k. or_serial_func info.do_serial_func r d (
            serial_node info body
              (λ x. loop_children config k (λ i. info.child i x) (info.num_children x)) r d))
          (fun_ext (λ s. fun_ext (do_it_serial_void-eq f s)))

module _ {ℓ κ} {T : Type ℓ} {W : Type κ} (config : Config) (info : Info T W)
    (body : VoidBody T W) where
  -- With no result, and on a problem of a fixed arity, the specialisation for that arity runs as the
  -- general recursion.
  pub do_it_serial_void_fixed-eq :
      (n : ℕ)
      → ((d : T) → info.num_children d ≡ n)
      → (f : ℕ) (w : W) (d : T)
      → do_it_serial_void_fixed info body config n f w d ≡ do_it_serial_void info body config f w d
  unfolding do_it_serial_void_fixed do_it_serial_void
  do_it_serial_void_fixed-eq n h zero w d = refl
  do_it_serial_void_fixed-eq n h (suc f) w d =
      ap (λ c. or_serial_func info.do_serial_func w d (serial_node_void info body c w d))
        (fun_ext (λ x.
          ap (λ k. loop_children config k (λ i. info.child i x) n)
            (fun_ext (λ s. fun_ext (do_it_serial_void_fixed-eq n h f s)))
          ∙ ap (loop_children config (do_it_serial_void info body config f) (λ i. info.child i x))
              (sym (h x))))

  -- With no result, and on a problem with two children at each node, the specialisation for two
  -- children runs as the general recursion.
  pub do_it_serial_void_two-eq :
      ((d : T) → info.num_children d ≡ 2)
      → (f : ℕ) (w : W) (d : T)
      → do_it_serial_void_two info body config f w d ≡ do_it_serial_void info body config f w d
  unfolding do_it_serial_void_two do_it_serial_void
  do_it_serial_void_two-eq h zero w d = refl
  do_it_serial_void_two-eq h (suc f) w d =
      ap (λ c. or_serial_func info.do_serial_func w d (serial_node_void info body c w d))
        (fun_ext (λ x.
          ap (λ k. two_children config k (λ i. info.child i x))
            (fun_ext (λ s. fun_ext (do_it_serial_void_two-eq h f s)))
          ∙ fun_ext
              (two_children-eq config (do_it_serial_void info body config f) (λ i. info.child i x))
          ∙ ap (loop_children config (do_it_serial_void info body config f) (λ i. info.child i x))
              (sym (h x))))
