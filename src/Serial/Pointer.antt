-- ===== src/Serial/Pointer.antt =====
-- include/dparallel_recursion/seq_parallel_stack_recursion.h: the overloads of do_it_serial that take a
-- pointer to the datum. They run as the others, with each child in a local variable, but hand the pointer
-- itself to `non_base`: what that overload of the user's body does is the argument `non_base_pointer`.
-- `do_serial_func` is looked up by a call with the pointer and then called with the datum: it runs only
-- in a class where that call `takes_pointer`.
use dparallel_recursion.Common.{ℕ, ◌≡◌, ap, fun_ext, Bool, true, Option, none, if◌then◌else◌}
use dparallel_recursion.Skeleton.{Info, Body, VoidBody, Config}
use dparallel_recursion.Serial.{
  do_it_serial, do_it_serial_fixed, do_it_serial_two, do_it_serial_void, do_it_serial_void_fixed,
  do_it_serial_void_two,
}

-- The class, as a call with a pointer sees it.
abbrev seen {ℓ κ} : {T : Type ℓ} {R : Type κ} → Bool → Info T R → Info T R
seen takes_pointer info = record info {
  do_serial_func = if takes_pointer then info.do_serial_func else none;
}

module _ {ℓ κ} {T : Type ℓ} {R : Type κ} (info : Info T R) (body : Body T R) where
  abbrev by_pointer : (T → R) → Body T R
  by_pointer non_base_pointer = record body { non_base = non_base_pointer }

  unfoldable pub do_it_serial_pointer : Bool → (T → R) → Config → ℕ → R → T → Option R
  do_it_serial_pointer takes_pointer non_base_pointer =
      do_it_serial (seen takes_pointer info) (by_pointer non_base_pointer)

  unfoldable pub do_it_serial_fixed_pointer :
      Bool → (T → R) → Config → (arity : ℕ) → ℕ → R → T → Option R
  do_it_serial_fixed_pointer takes_pointer non_base_pointer =
      do_it_serial_fixed (seen takes_pointer info) (by_pointer non_base_pointer)

  unfoldable pub do_it_serial_two_pointer : Bool → (T → R) → Config → ℕ → R → T → Option R
  do_it_serial_two_pointer takes_pointer non_base_pointer =
      do_it_serial_two (seen takes_pointer info) (by_pointer non_base_pointer)

  -- Where `non_base` does the same with a pointer as with the datum, the overload for a pointer runs
  -- as the one for the datum, with a run-time arity, a fixed one, and for two children.
  pub do_it_serial_pointer-eq :
      (g : T → R)
      → ((d : T) → g d ≡ body.non_base d)
      → (config : Config)
      → (do_it_serial_pointer true g config ≡ do_it_serial info body config)
        × (do_it_serial_fixed_pointer true g config ≡ do_it_serial_fixed info body config)
        × (do_it_serial_two_pointer true g config ≡ do_it_serial_two info body config)
  unfolding do_it_serial_pointer do_it_serial_fixed_pointer do_it_serial_two_pointer
  do_it_serial_pointer-eq g same config = (
    ap (λ h. do_it_serial info (by_pointer h) config) (fun_ext same),
    ap (λ h. do_it_serial_fixed info (by_pointer h) config) (fun_ext same),
    ap (λ h. do_it_serial_two info (by_pointer h) config) (fun_ext same),
  )

module _ {ℓ κ} {T : Type ℓ} {W : Type κ} (info : Info T W) (body : VoidBody T W) where
  abbrev by_pointer_void : (T → W → W) → VoidBody T W
  by_pointer_void non_base_pointer = record body { non_base = non_base_pointer }

  unfoldable pub do_it_serial_void_pointer : Bool → (T → W → W) → Config → ℕ → W → T → Option W
  do_it_serial_void_pointer takes_pointer non_base_pointer =
      do_it_serial_void (seen takes_pointer info) (by_pointer_void non_base_pointer)

  -- The body of this one hands the result of `non_base` to a `post` of one argument: both are in
  -- `non_base_pointer`.
  unfoldable pub do_it_serial_void_fixed_pointer :
      Bool → (T → W → W) → Config → (arity : ℕ) → ℕ → W → T → Option W
  do_it_serial_void_fixed_pointer takes_pointer non_base_pointer =
      do_it_serial_void_fixed (seen takes_pointer info) (by_pointer_void non_base_pointer)

  unfoldable pub do_it_serial_void_two_pointer : Bool → (T → W → W) → Config → ℕ → W → T → Option W
  do_it_serial_void_two_pointer takes_pointer non_base_pointer =
      do_it_serial_void_two (seen takes_pointer info) (by_pointer_void non_base_pointer)
