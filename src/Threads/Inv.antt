-- ===== src/Threads/Inv.antt =====
-- What holds of each thread in every reachable state: its stack is well formed, its shared portion is
-- made of whole chunks, and it is empty while the thread looks for work or waits in the barrier.
use dparallel_recursion.Common.{
  ℕ, zero, suc, ◌+◌, ◌-◌, ◌*◌, ◌/◌, ◌≤◌, ◌<◌, ◌≡◌, sym, ap, subst, ◌∙◌, Bool, true, false, inl, inr,
  arith, leb, leb→le, leb→lt, ltb, ◌==◌, ==_iff, if◌then◌else◌, update, length, length-segment,
  Bool-cases,
}
use dparallel_recursion.StealStack.{
  StealStack, ss_local_depth, ss_acquire, ss_steal, release_multiple_nodes,
}
use dparallel_recursion.StealStack.View.{
  IsValid, items, release_multiple_nodes-IsValid, ss_acquire-IsValid,
}
use dparallel_recursion.StealStack.Steal.{ss_steal-Steals}
use dparallel_recursion.Threads.{Pc, working, releasing, cancelling, searching}

-- Where a thread has no work of its own.
abbrev pub idle : Pc → Bool
idle working = false
idle releasing = false
idle cancelling = false
idle _ = true

abbrev pub IsEmpty {ℓ} : {T : Type ℓ} → StealStack T → Type 0
IsEmpty s = s.top ≡ s.shared_start

chunk_less : (k m x : ℕ) → k ≤ x → x ≡ k * m → 0 < k → x - k ≡ k * (m - 1)
chunk_less k zero x h e pos = absurd (omega arith)
chunk_less k (suc m) x h e pos = let e' : suc m - 1 ≡ m = omega arith in rw e' (omega arith)

no_chunk : (k m x : ℕ) → x < k → x ≡ k * m → x ≡ 0
no_chunk k zero x h e = omega arith
no_chunk k (suc m) x h e = absurd (omega arith)

pub record ThreadOk {ℓ} {T : Type ℓ} (k : ℕ) (s : StealStack T) (p : Pc) : Type 0 where
  pub valid : IsValid s
  pub chunks : ℕ
  pub aligned : s.local - s.shared_start ≡ k * chunks
  pub quiet : idle p ≡ true → IsEmpty s

pub items-IsEmpty {ℓ} :
    {T : Type ℓ} (s t : StealStack T)
    → IsValid s
    → IsValid t
    → items t ≡ items s
    → IsEmpty s
    → IsEmpty t
items-IsEmpty s t vs vt same empty =
    let as_long =
      sym (length-segment t.stack t.shared_start (t.top - t.shared_start))
      ∙ ap length same
      ∙ length-segment s.stack s.shared_start (s.top - s.shared_start) in
    omega (arith, as_long, vt.shared_le, vt.local_le)

module _ {ℓ} {T : Type ℓ} (k : ℕ) where
  pub update-ThreadOk :
      (stacks : ℕ → StealStack T) (pcs : ℕ → Pc) (i : ℕ) (t : StealStack T) (p : Pc)
      → ((j : ℕ) → ThreadOk k (stacks j) (pcs j))
      → ThreadOk k t p
      → (j : ℕ) → ThreadOk k (update stacks i t j) (update pcs i p j)
  update-ThreadOk stacks pcs i t p all new j = elim (Bool-cases (i == j)) [
    | inl e ↦ rw e new
    | inr e ↦ rw e (all j)
  ]

  pub move-ThreadOk :
      (stacks : ℕ → StealStack T) (pcs : ℕ → Pc) (i : ℕ) (p : Pc)
      → ((j : ℕ) → ThreadOk k (stacks j) (pcs j))
      → ThreadOk k (stacks i) p
      → (j : ℕ) → ThreadOk k (stacks j) (update pcs i p j)
  move-ThreadOk stacks pcs i p all new j = elim (Bool-cases (i == j)) [
    | inl e ↦ rw e (subst (λ x. ThreadOk k (stacks x) p) ((==_iff i j).0 e) new)
    | inr e ↦ rw e (all j)
  ]

  pub moved :
      {s : StealStack T} {p : Pc} (q : Pc)
      → ThreadOk k s p
      → (idle q ≡ true → idle p ≡ true)
      → ThreadOk k s q
  moved q ok h = record {
    valid = ok.valid;
    chunks = ok.chunks;
    aligned = ok.aligned;
    quiet = λ e. ok.quiet (h e);
  }

  pub release-ThreadOk :
      {s : StealStack T} {p : Pc} (q : Pc)
      → 0 < k
      → idle q ≡ false
      → ThreadOk k s p
      → ThreadOk k (release_multiple_nodes s k).0 q
  unfolding release_multiple_nodes
  release-ThreadOk {s} q pos busy ok = elim (Bool-cases (ltb (k * 2) (s.top - s.local))) [
    | inl e ↦ record {
      valid = release_multiple_nodes-IsValid s k pos ok.valid;
      chunks = ok.chunks + ((s.top - s.local) / k - 1);
      aligned = rw e omega (arith, ok.aligned, ok.valid.shared_le);
      quiet = λ x. cc;
    }
    | inr e ↦ record {
      valid = release_multiple_nodes-IsValid s k pos ok.valid;
      chunks = ok.chunks;
      aligned = rw e ok.aligned;
      quiet = λ x. cc;
    }
  ]

  pub acquire-ThreadOk :
      {s : StealStack T} {p : Pc}
      → 0 < k
      → ss_local_depth s ≡ 0
      → ThreadOk k s p
      → ThreadOk k (ss_acquire s k).0 (if (ss_acquire s k).1 then working else searching)
  unfolding ss_acquire ss_local_depth
  acquire-ThreadOk {s} pos empty ok = elim (Bool-cases (leb k (s.local - s.shared_start))) [
    | inl e ↦ record {
      valid = ss_acquire-IsValid s k ok.valid;
      chunks = ok.chunks - 1;
      aligned = rw e (
          let less = chunk_less k ok.chunks _ (leb→le _ _ e) ok.aligned pos in omega (arith, less));
      quiet = rw e (λ x. cc);
    }
    | inr e ↦ record {
      valid = ss_acquire-IsValid s k ok.valid;
      chunks = ok.chunks;
      aligned = rw e ok.aligned;
      quiet = rw e (λ _.
          let none_left = no_chunk k ok.chunks _ (leb→lt _ _ e) ok.aligned in
          omega (arith, ok.valid.shared_le, ok.valid.local_le));
    }
  ]

  pub thief-ThreadOk :
      (fresh : T) (s v : StealStack T) (p q : Pc)
      → idle p ≡ true
      → ThreadOk k s p
      → ThreadOk k v q
      → ThreadOk k
          (ss_steal fresh s v k).0
          (if (ss_steal fresh s v k).2 then working else searching)
  thief-ThreadOk fresh s v p q still ok ok' =
      let steals = ss_steal-Steals fresh s v k ok.valid ok'.valid in
      record {
        valid = steals.thief_valid;
        chunks = ok.chunks;
        aligned = steals.thief_shared ∙ ok.aligned;
        quiet = elim steals.outcome [
          | inl (avail, won, got, lost, left) ↦ rw won (λ x. cc)
          | inr (short, failed, same, kept) ↦
              λ _. items-IsEmpty s _ ok.valid steals.thief_valid same (ok.quiet still)
        ];
      }

  pub victim-ThreadOk :
      (fresh : T) (s v : StealStack T) (p q : Pc)
      → 0 < k
      → ThreadOk k s p
      → ThreadOk k v q
      → ThreadOk k (ss_steal fresh s v k).1 q
  victim-ThreadOk fresh s v p q pos ok ok' =
      let steals = ss_steal-Steals fresh s v k ok.valid ok'.valid in
      elim steals.outcome [
        | inl (avail, won, got, lost, left) ↦ record {
          valid = steals.victim_valid;
          chunks = ok'.chunks - 1;
          aligned =
              (let less = chunk_less k ok'.chunks _ avail ok'.aligned pos in omega (arith, less));
          quiet = λ e.
              let none_left = ok'.quiet e in
              absurd (omega (arith, ok'.valid.shared_le, ok'.valid.local_le));
        }
        | inr (short, failed, same, kept) ↦ rw kept ok'
      ]
