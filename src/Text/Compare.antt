-- ===== src/Text/Compare.antt =====
-- runtime/text.c: `bytes_compare` is the lexical order.
use loke.Prelude.{
  ℕ, zero, suc, ◌≤◌, ◌≡◌, refl, ap, ◌∙◌, inl, inr, List, [], ◌∷◌, arith, ltb, if◌then◌else◌, length,
  take, Bool-cases,
}
use loke.Prelude.Int.{ℤ, pos, negsuc}
use loke.Prelude.Outcome.{Outcome, ok, panic, abort, exited, overrun, ◌>>=◌}
use loke.Text.{memcmp, shared_length, length_order, order_of, bytes_compare}

-- The lexical order, by the first byte that differs; a prefix comes first.
unfoldable pub lexical : List ℕ → List ℕ → ℤ
lexical [] [] = pos 0
lexical [] (b ∷ bs) = negsuc 0
lexical (a ∷ as_) [] = pos 1
lexical (a ∷ as_) (b ∷ bs) =
    let rest = lexical as_ bs in if ltb a b then negsuc 0 else if ltb b a then pos 1 else rest

module _ (m n : ℕ) where
  shared-suc : shared_length (pos (suc m)) (pos (suc n)) ≡ suc (shared_length (pos m) (pos n))
  unfolding shared_length
  shared-suc = ground arith

  order-suc : (c : ℤ) → order_of (pos (suc m)) (pos (suc n)) c ≡ order_of (pos m) (pos n) c
  unfolding order_of length_order
  order-suc (negsuc k) = refl
  order-suc (pos zero) = ground arith
  order-suc (pos (suc k)) = refl

-- Where the two buffers have the bytes that the lengths name, `bytes_compare` stays inside them and
-- answers the lexical order of these bytes.
pub bytes_compare-lexical :
    (a : List ℕ) (m : ℕ) (b : List ℕ) (n : ℕ)
    → m ≤ length a
    → n ≤ length b
    → bytes_compare a (pos m) b (pos n) ≡ ok (lexical (take m a) (take n b))
unfolding bytes_compare memcmp lexical
bytes_compare-lexical a zero b zero h k = unfold shared_length order_of length_order in ground arith
bytes_compare-lexical a zero [] (suc n) h k = absurd (omega arith)
bytes_compare-lexical a zero (y ∷ b) (suc n) h k =
    unfold shared_length order_of length_order in ground arith
bytes_compare-lexical [] (suc m) b n h k = absurd (omega arith)
bytes_compare-lexical (x ∷ a) (suc m) b zero h k =
    unfold shared_length order_of length_order in ground arith
bytes_compare-lexical (x ∷ a) (suc m) [] (suc n) h k = absurd (omega arith)
bytes_compare-lexical (x ∷ a) (suc m) (y ∷ b) (suc n) h k =
    let rest = bytes_compare-lexical a m b n (omega arith) (omega arith) in
    elim (Bool-cases (ltb x y)) [
      | inl e ↦ rw (shared-suc m n, e) (unfold order_of in refl)
      | inr e ↦ elim (Bool-cases (ltb y x)) [
        | inl g ↦ rw (shared-suc m n, e, g) (unfold order_of in refl)
        | inr g ↦ rw (shared-suc m n, e, g) (suc_order m n _ ∙ rest)
      ]
    ]
  where
    suc_order :
        (m n : ℕ) (o : Outcome ℤ)
        → (o >>= λ c. ok (order_of (pos (suc m)) (pos (suc n)) c))
          ≡ (o >>= λ c. ok (order_of (pos m) (pos n) c))
    suc_order m n (ok c) = ap (λ (d : ℤ). ok d) (order-suc m n c)
    suc_order m n panic = refl
    suc_order m n abort = refl
    suc_order m n (exited s) = refl
    suc_order m n overrun = refl
