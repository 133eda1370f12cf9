-- ===== src/Container/Dynamic/Contents.antt =====
-- runtime/container.c: what the copies, moves and reallocations leave in each slot.
use loke.Prelude.{
  ℕ, zero, suc, ◌+◌, ◌≤◌, ◌<◌, ◌≡◌, refl, ap, ◌∙◌, ◌⊎◌, inl, inr, Option, none, List, [], ◌∷◌,
  arith, get_or, set, length, length-set, get_or-set_ne, get_or-set_self,
}
use native.Mathlib.Decide.{ℕ_discrete}
use loke.Container.Memory.{Cells, Source, frozen, live, cell, read, copy_cells}
use loke.Container.Dynamic.{refit}

module _ {ℓ} {A : Type ℓ} (d : A) where
  pub length-refit : (n : ℕ) (cells : List A) → length (refit n d cells) ≡ n
  unfolding refit
  length-refit zero cells = refl
  length-refit (suc n) [] = ap suc (length-refit n [])
  length-refit (suc n) (c ∷ cells) = ap suc (length-refit n cells)

  pub get_or-refit :
      (n : ℕ) (cells : List A) (i : ℕ) → i < n → get_or (refit n d cells) i d ≡ get_or cells i d
  unfolding refit
  get_or-refit zero cells i h = absurd (omega arith)
  get_or-refit (suc n) [] zero h = refl
  get_or-refit (suc n) [] (suc i) h = get_or-refit n [] i (omega arith)
  get_or-refit (suc n) (c ∷ cells) zero h = refl
  get_or-refit (suc n) (c ∷ cells) (suc i) h = get_or-refit n cells i (omega arith)

module _ {E : Type 0} where
  -- A source whose elements `[i, i + n)` are not overwritten by writes from `at` on.
  abbrev pub Apart : Source E → (stop at : ℕ) → Type 0
  Apart (frozen block start) stop at = Unit {0}
  Apart (live start) stop at = start + stop ≤ at

  pub length-copy_cells :
      (n i : ℕ) (src : Source E) (at : ℕ) (cells : Cells E)
      → length (copy_cells n i src at cells) ≡ length cells
  unfolding copy_cells
  length-copy_cells zero i src at cells = refl
  length-copy_cells (suc n) i src at cells =
      length-copy_cells n (i + 1) src at _ ∙ length-set cells (at + i) (read src cells i)

  -- Slots before and behind those written keep their contents.
  pub copy_cells-other :
      (n i : ℕ) (src : Source E) (at : ℕ) (cells : Cells E) (j : ℕ)
      → (j < at + i) ⊎ (at + (i + n) ≤ j)
      → cell (copy_cells n i src at cells) j ≡ cell cells j
  unfolding copy_cells
  copy_cells-other zero i src at cells j h = refl
  copy_cells-other (suc n) i src at cells j h =
      copy_cells-other n (i + 1) src at _ j
        (elim h [ inl a ↦ inl (omega arith) | inr b ↦ inr (omega arith) ])
      ∙ get_or-set_ne cells (at + i) j (read src cells i) none (omega arith)

  pub read-set :
      (src : Source E) (cells : Cells E) (at i k stop : ℕ) (v : Option E)
      → Apart src stop at
      → k < stop
      → read src (set cells (at + i) v) k ≡ read src cells k
  unfolding read
  read-set (frozen block start) cells at i k stop v a h = refl
  read-set (live start) cells at i k stop v a h =
      get_or-set_ne cells (at + i) (start + k) v none (omega arith)

  pub copy_cells-copied :
      (n i : ℕ) (src : Source E) (at : ℕ) (cells : Cells E) (k : ℕ)
      → Apart src (i + n) at
      → at + (i + n) ≤ length cells
      → i ≤ k
      → k < i + n
      → cell (copy_cells n i src at cells) (at + k) ≡ read src cells k
  unfolding copy_cells
  copy_cells-copied zero i src at cells k a f lo hi = absurd (omega arith)
  copy_cells-copied (suc n) i src at cells k a f lo hi =
      let v = read src cells i in
      let e : i + 1 + n ≡ i + suc n = omega arith in
      elim (ℕ_discrete k i) [
        | yes same ↦ rw same (
            copy_cells-other n (i + 1) src at (set cells (at + i) v) (at + i) (inl (omega arith))
            ∙ get_or-set_self cells (at + i) v none (omega arith))
        | no other ↦
            copy_cells-copied n (i + 1) src at (set cells (at + i) v) k (rw e a)
              (rw length-set (omega arith)) (omega arith) (omega arith)
            ∙ read-set src cells at i k (i + suc n) v a hi
      ]
