-- ===== src/ArrayRecursion/Variants.antt =====
-- The specialisations of the recursion over arrays of results agree.
use dparallel_recursion.Common.{
  ℕ, zero, suc, ◌≡◌, refl, ap, sym, fun_ext, ◌∙◌, Option, none, some, ◌>>=◌, [], ◌∷◌,
}
use dparallel_recursion.Serial.{loop_up}
use dparallel_recursion.ArrayRecursion.{
  ArrayInfo, ArrayBody, ArrayVoidBody, results_from, array_node, array_serial, array_serial_fixed,
  array_serial_two, array_node_void, array_serial_void, array_serial_void_fixed,
  array_serial_void_two,
}

>>=-some {ℓ} : {A : Type ℓ} (m : Option A) → m ≡ (m >>= some)
>>=-some none = refl
>>=-some (some a) = refl

two_results {ℓ} :
    {R : Type ℓ} (a b : Option R)
    → (a >>= (λ r. b >>= (λ s. some (r ∷ s ∷ []))))
      ≡ (a >>= (λ r. (b >>= (λ s. some (s ∷ []))) >>= (λ rs. some (r ∷ rs))))
two_results none b = refl
two_results (some r) none = refl
two_results (some r) (some s) = refl

module _ {ℓ κ} {T : Type ℓ} {R : Type κ} (info : ArrayInfo T) (body : ArrayBody T R) where
  -- On a problem of a fixed arity, whose `num_children` does not change the datum, the
  -- specialisation for that arity runs as the general recursion over arrays of results.
  pub array_serial_fixed-eq :
      (n : ℕ)
      → ((d : T) → info.num_children d ≡ (d, n))
      → (f : ℕ) (d : T) → array_serial_fixed info body n f d ≡ array_serial info body f d
  unfolding array_serial_fixed array_serial
  array_serial_fixed-eq n h zero d = refl
  array_serial_fixed-eq n h (suc f) d =
      ap (λ kids. array_node info body kids d)
        (fun_ext (λ x.
          ap (λ rec. (x, results_from rec (λ i. info.child i x) n 0))
            (fun_ext (array_serial_fixed-eq n h f))
          ∙ ap (λ c. (c.0, results_from (array_serial info body f) (λ i. info.child i c.0) c.1 0))
              (sym (h x))))

  -- The specialisation for two children runs as the one for the fixed arity 2.
  pub array_serial_two-eq :
      (f : ℕ) (d : T) → array_serial_two info body f d ≡ array_serial_fixed info body 2 f d
  unfolding array_serial_two array_serial_fixed results_from
  array_serial_two-eq zero d = refl
  array_serial_two-eq (suc f) d =
      ap
        (λ rec.
          array_node info body
            (λ x. (
              x,
              rec (info.child 0 x) >>= (λ r. rec (info.child 1 x) >>= (λ s. some (r ∷ s ∷ []))),
            ))
            d)
        (fun_ext (array_serial_two-eq f))
      ∙ ap (λ kids. array_node info body kids d)
          (fun_ext (λ x.
            ap (λ o. (x, o))
              (two_results (array_serial_fixed info body 2 f (info.child 0 x))
                (array_serial_fixed info body 2 f (info.child 1 x)))))

module _ {ℓ κ} {T : Type ℓ} {W : Type κ} (info : ArrayInfo T) (body : ArrayVoidBody T W) where
  -- With no result, and on a problem of a fixed arity, whose `num_children` does not change the
  -- datum, the specialisation for that arity runs as the general recursion.
  pub array_serial_void_fixed-eq :
      (n : ℕ)
      → ((d : T) → info.num_children d ≡ (d, n))
      → (f : ℕ) (w : W) (d : T)
      → array_serial_void_fixed info body n f w d ≡ array_serial_void info body f w d
  unfolding array_serial_void_fixed array_serial_void
  array_serial_void_fixed-eq n h zero w d = refl
  array_serial_void_fixed-eq n h (suc f) w d =
      ap (λ kids. array_node_void info body kids w d)
        (fun_ext (λ x. fun_ext (λ w'.
          ap (λ rec. loop_up rec (λ i. info.child i x) n 0 w')
            (fun_ext (λ y. fun_ext (array_serial_void_fixed-eq n h f y)))
          ∙ ap (λ c. loop_up (array_serial_void info body f) (λ i. info.child i c.0) c.1 0 w')
              (sym (h x)))))

  -- With no result, the specialisation for two children runs as the one for the fixed arity 2.
  pub array_serial_void_two-eq :
      (f : ℕ) (w : W) (d : T)
      → array_serial_void_two info body f w d ≡ array_serial_void_fixed info body 2 f w d
  unfolding array_serial_void_two array_serial_void_fixed loop_up
  array_serial_void_two-eq zero w d = refl
  array_serial_void_two-eq (suc f) w d =
      ap
        (λ rec.
          array_node_void info body
            (λ x w'. rec w' (info.child 0 x) >>= (λ y. rec y (info.child 1 x))) w d)
        (fun_ext (λ y. fun_ext (array_serial_void_two-eq f y)))
      ∙ ap (λ kids. array_node_void info body kids w d)
          (fun_ext (λ x. fun_ext (λ w'.
            ap (λ k. array_serial_void_fixed info body 2 f w' (info.child 0 x) >>= k)
              (fun_ext
                (λ y. >>=-some (array_serial_void_fixed info body 2 f y (info.child 1 x)))))))
