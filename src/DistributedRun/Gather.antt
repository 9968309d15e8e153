-- ===== src/DistributedRun/Gather.antt =====
-- The results are in place whatever the order in which they arrive.
use dparallel_recursion.Common.{
  ℕ, zero, suc, ◌+◌, ◌≤◌, ◌<◌, ◌≡◌, refl, sym, ap, subst, ◌∙◌, Bool, true, false, ◌||◌, Option,
  none, some, ◌==◌, ==_iff, List, [], ◌∷◌, ◌++◌, length, length-append, update, arith, Bool-cases,
  inl, inr,
}
use dparallel_recursion.DistributedRun.{
  slice, tagged, receive, collect, Arrives, all_received, next_message,
}

module _ {ℓ} {A : Type ℓ} where
  -- The element in a place.
  unfoldable pub nth : List A → ℕ → Option A
  nth [] k = none
  nth (x ∷ l) zero = some x
  nth (x ∷ l) (suc k) = nth l k

  -- Whether a message has the tag.
  unfoldable pub has_tag : ℕ → List (ℕ × A) → Bool
  has_tag k [] = false
  has_tag k (m ∷ ms) = (m.0 == k) || has_tag k ms

  -- All messages hold the element of their place.
  pub data AllRight (l : List A) : List (ℕ × A) → Type ℓ where
    none_left : AllRight l []
    one_right :
        (m : ℕ × A) (ms : List (ℕ × A)) → nth l m.0 ≡ some m.1 → AllRight l ms → AllRight l (m ∷ ms)

  pub AllRight-append :
      (l : List A) (ms ns : List (ℕ × A)) → AllRight l ms → AllRight l ns → AllRight l (ms ++ ns)
  AllRight-append l _ ns none_left right = right
  AllRight-append l _ ns (one_right m ms e more) right =
      one_right m (ms ++ ns) e (AllRight-append l ms ns more right)

  AllRight-tail :
      (l : List A) (m : ℕ × A) (ms : List (ℕ × A))
      → AllRight l (m ∷ ms)
      → (nth l m.0 ≡ some m.1) × AllRight l ms
  AllRight-tail l _ _ (one_right m ms e more) = (e, more)

  AllRight-middle :
      (l : List A) (ms ns : List (ℕ × A)) (m : ℕ × A)
      → AllRight l (ms ++ (m ∷ ns))
      → (nth l m.0 ≡ some m.1) × AllRight l (ms ++ ns)
  AllRight-middle l [] ns m right = AllRight-tail l m ns right
  AllRight-middle l (x ∷ ms) ns m right =
      let (e, more) = AllRight-tail l x (ms ++ (m ∷ ns)) right in
      let (e', rest) = AllRight-middle l ms ns m more in (e', one_right x (ms ++ ns) e rest)

  pub has_tag-append :
      (k : ℕ) (ms ns : List (ℕ × A)) → has_tag k (ms ++ ns) ≡ (has_tag k ms || has_tag k ns)
  unfolding has_tag
  has_tag-append k [] ns = refl
  has_tag-append k (m ∷ ms) ns = let ih = has_tag-append k ms ns in ground (arith, ih)

  -- A place with no message on its way has its element.
  abbrev pub Filled : List A → (ℕ → Option A) → List (ℕ × A) → Type ℓ
  Filled l s sent = (k : ℕ) → k < length l → has_tag k sent ≡ false → s k ≡ nth l k

  pub receive-Arrives :
      (l : List A) (s : ℕ → Option A) (sent arrived : List (ℕ × A))
      → Arrives sent arrived
      → AllRight l sent
      → Filled l s sent
      → Filled l (receive s arrived) []
  unfolding receive has_tag
  receive-Arrives l s _ _ all_received right filled = filled
  receive-Arrives l s _ _ (next_message sent before after m rest e more) right filled =
      let (here, right') = AllRight-middle l before after m (subst (AllRight l) e right) in
      receive-Arrives l (update s m.0 (some m.1)) (before ++ after) rest more right' (λ k lt none'.
        elim (Bool-cases (m.0 == k)) [
          | inl same ↦ rw same (sym here ∙ ap (nth l) ((==_iff m.0 k).0 same))
          | inr other ↦ rw other (
              filled k lt (
                ap (has_tag k) e
                ∙ has_tag-append k before (m ∷ after)
                ∙ rw other (sym (has_tag-append k before after) ∙ none')))
        ])

  pub collect-nth :
      (l : List A) (s : ℕ → Option A) (i : ℕ)
      → ((k : ℕ) → k < length l → s (i + k) ≡ nth l k)
      → collect s i (length l) ≡ some l
  unfolding collect nth
  collect-nth [] s i h = refl
  collect-nth (x ∷ l) s i h =
      let e : i + 0 ≡ i = omega arith in
      let first : s i ≡ some x = ap s (sym e) ∙ h 0 (omega arith) in
      let rest =
        collect-nth l s (i + 1) (λ k lt.
          let e' : i + 1 + k ≡ i + suc k = omega arith in rw e' (h (suc k) (omega arith))) in
      rw (first, rest) refl

  -- What is in its place already arrives first.
  pub Arrives-prefix :
      (own sent arrived : List (ℕ × A))
      → Arrives sent arrived
      → Arrives (own ++ sent) (own ++ arrived)
  Arrives-prefix [] sent arrived a = a
  Arrives-prefix (m ∷ own) sent arrived a =
      next_message (m ∷ (own ++ sent)) [] (own ++ sent) m (own ++ arrived) refl
        (Arrives-prefix own sent arrived a)

  pub receive-append :
      (s : ℕ → Option A) (ms ns : List (ℕ × A)) → receive s (ms ++ ns) ≡ receive (receive s ms) ns
  unfolding receive
  receive-append s [] ns = refl
  receive-append s (m ∷ ms) ns = receive-append (update s m.0 (some m.1)) ms ns

  pub Arrives-length :
      (sent arrived : List (ℕ × A)) → Arrives sent arrived → length arrived ≡ length sent
  Arrives-length _ _ all_received = refl
  Arrives-length _ _ (next_message sent before after m rest e more) =
      let ih = Arrives-length (before ++ after) rest more in
      omega (arith, ih, ap length e, length-append before after, length-append before (m ∷ after))

  -- A block of the list, and its messages.
  pub length-slice : (l : List A) (b n : ℕ) → b + n ≤ length l → length (slice b n l) ≡ n
  unfolding slice
  length-slice [] b n le = omega arith
  length-slice (x ∷ l) zero zero le = refl
  length-slice (x ∷ l) zero (suc n) le = ap suc (length-slice l zero n (omega arith))
  length-slice (x ∷ l) (suc b) n le = length-slice l b n (omega arith)

  pub length-tagged : (b : ℕ) (l : List A) → length (tagged b l) ≡ length l
  unfolding tagged
  length-tagged b [] = refl
  length-tagged b (x ∷ l) = ap suc (length-tagged (b + 1) l)

  nth-slice : (l : List A) (b n k : ℕ) → k < n → nth (slice b n l) k ≡ nth l (b + k)
  unfolding nth slice
  nth-slice [] b n k lt = refl
  nth-slice (x ∷ l) zero zero k lt = absurd (omega arith)
  nth-slice (x ∷ l) zero (suc n) zero lt = refl
  nth-slice (x ∷ l) zero (suc n) (suc k) lt =
      let e : suc (0 + k) ≡ 0 + suc k = omega arith in
      nth-slice l zero n k (omega arith) ∙ ap (nth (x ∷ l)) e
  nth-slice (x ∷ l) (suc b) n k lt =
      let e : suc b + k ≡ suc (b + k) = omega arith in rw e (nth-slice l b n k lt)

  tagged-AllRight :
      (l xs : List A) (b : ℕ)
      → ((k : ℕ) → k < length xs → nth xs k ≡ nth l (b + k))
      → AllRight l (tagged b xs)
  unfolding tagged nth
  tagged-AllRight l [] b h = none_left
  tagged-AllRight l (x ∷ xs) b h =
      let e : b + 0 ≡ b = omega arith in
      one_right (b, x) _ (ap (nth l) (sym e) ∙ sym (h 0 (omega arith)))
        (tagged-AllRight l xs (b + 1)
          (λ k lt. let e' : b + 1 + k ≡ b + suc k = omega arith in rw e' (h (suc k) (omega arith))))

  pub block-AllRight :
      (l : List A) (b n : ℕ) → b + n ≤ length l → AllRight l (tagged b (slice b n l))
  block-AllRight l b n le =
      tagged-AllRight l (slice b n l) b
        (λ k lt. nth-slice l b n k (omega (arith, length-slice l b n le, lt)))

  pub has_tag-tagged :
      (k : ℕ) (xs : List A) (b : ℕ) → b ≤ k → k < b + length xs → has_tag k (tagged b xs) ≡ true
  unfolding has_tag tagged
  has_tag-tagged k [] b le lt = absurd (omega arith)
  has_tag-tagged k (x ∷ xs) b le lt = elim (Bool-cases (b == k)) [
    | inl same ↦ rw same refl
    | inr other ↦
        let below : b < k = ground (arith, other, le) in
        rw other (has_tag-tagged k xs (b + 1) (omega (arith, below)) (omega arith))
  ]
