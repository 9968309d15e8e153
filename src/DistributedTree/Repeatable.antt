-- ===== src/DistributedTree/Repeatable.antt =====
-- Problems that stay whole while the tree grows meet the hooks `pre` and `pre_rec` again, level by level:
-- what makes the repetition harmless, and the results of a list of problems.
use dparallel_recursion.Common.{
  ℕ, zero, suc, ◌+◌, ◌≡◌, refl, Option, some, ◌>>=◌, >>=-eq-some, List, [], ◌∷◌, ◌++◌, segment,
  Bool-cases, inl, inr, length,
}
use dparallel_recursion.ArrayRecursion.{
  ArrayInfo, ArrayBody, results_from, array_node, array_serial,
}
use dparallel_recursion.DistributedTree.{pre_parallel, split_front}

-- `num_children` leaves the problem as it is, and hooks that run again change nothing.
pub record IsRepeatable {ℓ κ} {T : Type ℓ} {R : Type κ} (info : ArrayInfo T) (body : ArrayBody T R)
    : Type ℓ where
  pub num_children_same : (d : T) → (info.num_children d).0 ≡ d
  pub pre_again : (d : T) → body.pre (body.pre d) ≡ body.pre d
  pub pre_after_rec : (d : T) → body.pre (body.pre_rec (body.pre d)) ≡ body.pre_rec (body.pre d)
  pub pre_rec_again : (d : T) → body.pre_rec (body.pre_rec d) ≡ body.pre_rec d
  pub is_base_same : (d : T) → info.is_base (body.pre_rec d) ≡ info.is_base d

module _ {κ} {R : Type κ} where
  pub split_front-append :
      (rs qs : List R) (n : ℕ) → length rs ≡ n → split_front n (rs ++ qs) ≡ some (rs, qs)
  unfolding split_front
  split_front-append [] qs n e = rw (← e) refl
  split_front-append (r ∷ rs) qs n e = rw (← e, split_front-append rs qs (length rs) refl) refl

module _ {ℓ κ} {T : Type ℓ} {R : Type κ} where
  -- The results of the problems of a list.
  unfoldable pub results_of : (T → Option R) → List T → Option (List R)
  results_of rec [] = some []
  results_of rec (d ∷ ds) = rec d >>= λ r. results_of rec ds >>= λ rs. some (r ∷ rs)

  pub results_of-segment :
      (rec : T → Option R) (child : ℕ → T) (n i : ℕ)
      → results_of rec (segment child i n) ≡ results_from rec child n i
  unfolding results_of results_from segment
  results_of-segment rec child zero i = refl
  results_of-segment rec child (suc n) i = rw (results_of-segment rec child n (i + 1)) refl

  pub results_of-append :
      (rec : T → Option R) (ds es : List T) (rs qs : List R)
      → results_of rec ds ≡ some rs
      → results_of rec es ≡ some qs
      → results_of rec (ds ++ es) ≡ some (rs ++ qs)
  unfolding results_of
  results_of-append rec [] es rs qs e e' = rw (e') (cc)
  results_of-append rec (d ∷ ds) es rs qs e e' =
      let (r, first, rest) = >>=-eq-some (rec d) _ e in
      let (ts, all, last) = >>=-eq-some (results_of rec ds) _ rest in
      rw (first, results_of-append rec ds es ts qs all e') (cc)

  pub results_from-length :
      (rec : T → Option R) (child : ℕ → T) (n i : ℕ) (rs : List R)
      → results_from rec child n i ≡ some rs
      → length rs ≡ n
  unfolding results_from
  results_from-length rec child zero i rs e = cc
  results_from-length rec child (suc n) i rs e =
      let (r, first, rest) = >>=-eq-some (rec (child i)) _ e in
      let (ts, all, last) = >>=-eq-some (results_from rec child n (i + 1)) _ rest in
      let ih = results_from-length rec child n (i + 1) ts all in cc

module _ {ℓ κ} {T : Type ℓ} {R : Type κ} (info : ArrayInfo T) (body : ArrayBody T R)
    (law : IsRepeatable info body) where
  open law use {num_children_same, pre_again, pre_after_rec, pre_rec_again, is_base_same}

  -- A problem that has met its hooks has the same result.
  pub array_serial-visited :
      (f : ℕ) (d : T)
      → array_serial info body f (pre_parallel info body d).0 ≡ array_serial info body f d
  unfolding array_serial pre_parallel array_node
  array_serial-visited zero d = refl
  array_serial-visited (suc f) d = elim (Bool-cases (info.is_base (body.pre d))) [
    | inl base ↦ rw (base, pre_again d, base) refl
    | inr node ↦
        let again = num_children_same (body.pre_rec (body.pre d)) in
        rw
          (
            node,
            again,
            pre_after_rec d,
            pre_rec_again (body.pre d),
            is_base_same (body.pre d),
            node,
            again,
          )
          refl
  ]
