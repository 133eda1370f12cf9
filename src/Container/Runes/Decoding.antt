-- ===== src/Container/Runes/Decoding.antt =====
-- runtime/container.c: `string_to_runes` on a valid text.
use loke.Prelude.{
  ℕ, zero, suc, ◌+◌, ◌≤◌, ◌<◌, ◌≡◌, refl, ◌∙◌, Bool, true, false, none, some, List, [], ◌∷◌, arith,
  length, set, length-set, get_or-set_ne, get_or-set_self, ◌==◌, length-append, All,
}
use loke.Prelude.Int.{pos}
use loke.Prelude.Outcome.{ok, Returns, Returns-bind, Returns-ok, Returns-if}
use loke.Container.Checked.{int64_max}
use loke.Container.Memory.{Provider, Ops, World, Cells, cell}
use loke.Container.Dynamic.{Dynamic, inert, dyn_drop}
use loke.Container.Dynamic.Reserve.{dyn_reserve-Reserved}
use loke.Container.Runes.{decode_from, fill_runes, string_to_runes}
use loke.Utf8.{encode_rune}
use loke.Utf8.Codec.{IsScalar, HasAt}
use loke.Utf8.Valid.{
  encode_all, length-encode_rune, rune-step, rest-HasAt, rest-size, rune_count-encode_all,
}

-- The cells when the runes are written from index `at` on.
abbrev put : (at : ℕ) → List ℕ → Cells ℕ → Cells ℕ
put at [] cells = cells
put at (v ∷ vs) cells = put (at + 1) vs (set cells at (some v))

-- From index `at` on the cells are the runes.
abbrev pub HasRunes : (at : ℕ) → List ℕ → Cells ℕ → Type 0
HasRunes at [] cells = Unit
HasRunes at (v ∷ vs) cells = (cell cells at ≡ some v) × HasRunes (at + 1) vs cells

put-before :
    (at : ℕ) (vs : List ℕ) (cells : Cells ℕ) (j : ℕ)
    → j < at
    → cell (put at vs cells) j ≡ cell cells j
put-before at [] cells j h = refl
put-before at (v ∷ vs) cells j h =
    put-before (at + 1) vs (set cells at (some v)) j (omega arith)
    ∙ get_or-set_ne cells at j (some v) none (λ e. omega (arith, e))

put-HasRunes :
    (at : ℕ) (vs : List ℕ) (cells : Cells ℕ)
    → at + length vs ≤ length cells
    → HasRunes at vs (put at vs cells)
put-HasRunes at [] cells h = tt
put-HasRunes at (v ∷ vs) cells h =
    let size = length-set cells at (some v) in
    (
      put-before (at + 1) vs (set cells at (some v)) at (omega arith)
          ∙ get_or-set_self cells at (some v) none (omega arith),
      put-HasRunes (at + 1) vs (set cells at (some v)) (omega arith),
    )

module _ (bytes : List ℕ) (len count : ℕ) where
  decode_from-put :
      (fuel offset written : ℕ) (vs : List ℕ) (cells : Cells ℕ)
      → length (encode_all vs) < fuel
      → All IsScalar vs
      → HasAt bytes offset (encode_all vs)
      → offset + length (encode_all vs) ≡ len
      → written + length vs ≡ count
      → decode_from fuel (some bytes) len count offset written cells
        ≡ ok (put written vs cells, count)
  unfolding decode_from
  decode_from-put zero offset written vs cells f s h e c = absurd (omega arith)
  decode_from-put (suc fuel) offset written [] cells f s h e c = ground arith
  decode_from-put (suc fuel) offset written (v ∷ vs) cells f s h e c =
      let (lt, d) = rune-step bytes len offset v vs s.0 h e in
      let (lo, hi) = length-encode_rune v s.0 in
      let whole = length-append (encode_rune (pos v)) (encode_all vs) in
      let rest =
        decode_from-put fuel (offset + length (encode_rune (pos v))) (written + 1) vs
          (set cells written (some v)) (omega arith) s.1 (rest-HasAt bytes len offset v vs h)
          (rest-size bytes len offset v vs e) (omega arith) in
      rw d (ground (arith, rest))

module _ {S : Type 0} (selected : ℕ) (p : Provider S) (ops : Ops S ℕ) where
  -- What `string_to_runes` answers for a text of the given runes.
  pub record Filled (vs : List ℕ) (r : Bool × Dynamic ℕ × World S ℕ) : Type 0 where
    pub size : r.0 ≡ true → r.1.len ≡ length vs
    pub runes : r.0 ≡ true → HasRunes 0 vs r.1.cells
    pub refused : r.0 ≡ false → r.1 ≡ inert selected p ops

  fill_runes-Filled :
      (bytes : List ℕ) (vs : List ℕ) (r : Bool × Dynamic ℕ × World S ℕ)
      → All IsScalar vs
      → HasAt bytes 0 (encode_all vs)
      → (r.0 ≡ true → length vs ≤ length r.1.cells)
      → Returns
          (fill_runes selected p ops (some bytes) (length (encode_all vs)) (length vs) r)
          (Filled vs)
  unfolding fill_runes dyn_drop
  fill_runes-Filled bytes vs (false, out, w) s h room =
      Returns-ok _
        (record { size = λ e. absurd (cc); runes = λ e. absurd (cc); refused = λ e. refl })
  fill_runes-Filled bytes vs (true, out, w) s h room =
      let run =
        decode_from-put bytes (length (encode_all vs)) (length vs) (suc (length (encode_all vs))) 0
          0 vs out.cells (omega arith) s h (omega arith) (omega arith) in
      rw run (
        Returns-ok _ (record {
          size = λ e. refl;
          runes = λ e. put-HasRunes 0 vs out.cells (omega (arith, room refl));
          refused = λ e. absurd (cc);
        }))

  -- Where the encodings of fewer than 2^63 scalar values stand at the start of a buffer,
  -- `string_to_runes` of their length returns. If it answers 1 the array holds exactly these
  -- values in their order, and if it answers 0 the array is the empty one without a block.
  pub string_to_runes-Filled :
      (bytes : List ℕ) (vs : List ℕ) (a : ℕ) (w : World S ℕ)
      → All IsScalar vs
      → HasAt bytes 0 (encode_all vs)
      → length vs ≤ int64_max
      → Returns
          (string_to_runes selected p ops (some bytes) (pos (length (encode_all vs))) a w)
          (Filled vs)
  unfolding string_to_runes
  string_to_runes-Filled bytes [] a w s h fits =
      rw (string_to_runes, rune_count-encode_all bytes [] s h)
        (Returns-ok _ (record { size = λ e. refl; runes = λ e. tt; refused = λ e. absurd (cc) }))
  string_to_runes-Filled bytes (v ∷ vs) a w s h fits =
      rw (string_to_runes, rune_count-encode_all bytes (v ∷ vs) s h)
        (Returns-if (length (v ∷ vs) == 0) (λ t. absurd (ground arith))
          (λ f.
            Returns-bind
              (dyn_reserve-Reserved selected p ops
                (record { addr = 0; len = 0; cap = 0; allocator = a; cells = [] })
                (record {
                  len_in = omega arith;
                  cap_in = omega arith;
                  bytes_in = omega arith;
                  slots = refl;
                })
                (length (v ∷ vs)) fits w)
              (λ r got.
                fill_runes-Filled bytes (v ∷ vs) r s h
                  (λ e. omega (arith, got.room e, got.valid.slots)))))
