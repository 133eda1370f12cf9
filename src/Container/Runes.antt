-- ===== src/Container/Runes.antt =====
-- runtime/container.c: `loke_rt_v1_hash_bytes`, and `loke_rt_v1_string_to_runes`, which decodes with
-- Utf8 into a dynamic array. A rune is one element of four bytes, without a hook.
pub mod Decoding
use loke.Prelude.{
  ℕ, zero, suc, ◌+◌, ◌-◌, ◌*◌, ◌%◌, ◌^◌, bit_xor, Bool, true, false, Option, none, some, List, [],
  ◌∷◌, ltb, leb, ◌==◌, ◌&&◌, if◌then◌else◌, get_or, set,
}
use loke.Prelude.Int.{ℤ, pos, negsuc}
use loke.Prelude.Outcome.{Outcome, ok, overrun, ◌>>=◌}
use loke.Container.Memory.{Provider, Ops, World, Cells}
use loke.Container.Dynamic.{Dynamic, dyn_reserve, dyn_drop}
use loke.Utf8.{Decoded, rune_at, rune_count}

abbrev pub fnv_prime : ℕ
fnv_prime = 1099511628211

-- One step of FNV-1a.
abbrev pub hash_step : (h byte : ℕ) → ℕ
hash_step h byte = bit_xor h byte * fnv_prime % 2 ^ 64

-- The loop, with the rounds that are left; `none` is a read behind the buffer.
unfoldable pub hash_from : (rounds : ℕ) → List ℕ → (h : ℕ) → Option ℕ
hash_from zero bytes h = some h
hash_from (suc rounds) [] h = none
hash_from (suc rounds) (byte ∷ bytes) h = hash_from rounds bytes (hash_step h byte)

-- `(uint64_t)len`
abbrev pub as_u64 : ℤ → ℕ
as_u64 (pos n) = n
as_u64 (negsuc n) = 2 ^ 64 - 1 - n

abbrev hash_length : ℤ → Option ℕ → Option ℕ
hash_length len none = none
hash_length len (some h) = some (hash_step h (as_u64 len))

unfoldable pub hash_bytes : List ℕ → ℤ → (seed : ℕ) → Option ℕ
unfolding hash_from
hash_bytes bytes (pos len) seed = hash_length (pos len) (hash_from len bytes seed)
hash_bytes bytes (negsuc len) seed = hash_length (negsuc len) (some seed)

-- The decoding loop: the runes written, and how many; each round takes a byte at least.
unfoldable pub decode_from :
    (fuel : ℕ) → Option (List ℕ) → (len count offset written : ℕ) → Cells ℕ → Outcome (Cells ℕ × ℕ)
decode_from zero bytes len count offset written cells = overrun
decode_from (suc fuel) bytes len count offset written cells =
    let d = rune_at bytes (pos len) (pos offset) in
    let rest =
      decode_from fuel bytes len count (offset + d.used) (written + 1)
        (set cells written (some d.rune)) in
    if ltb offset len && ltb written count
    then (if d.used == 0 then ok (cells, written) else rest)
    else ok (cells, written)

module _ {S : Type 0} (selected : ℕ) (p : Provider S) (ops : Ops S ℕ) where
  -- What follows the count and the reservation.
  unfoldable pub fill_runes :
      Option (List ℕ)
      → (len count : ℕ) → Bool × Dynamic ℕ × World S ℕ
      → Outcome (Bool × Dynamic ℕ × World S ℕ)
  unfolding decode_from
  fill_runes bytes len count (false, out, w) =
      let (out₁, w₁) = dyn_drop selected p ops out w in ok (false, out₁, w₁)
  fill_runes bytes len count (true, out, w) =
      decode_from (suc len) bytes len count 0 0 out.cells >>= λ (cells, written).
      ok (true, record out { cells = cells; len = written }, w)

  -- A rune count that is negative or 0 is no rune. `rune_count` answers, since its fuel is enough.
  unfoldable pub string_to_runes :
      Option (List ℕ) → (len : ℤ) → (a : ℕ) → World S ℕ → Outcome (Bool × Dynamic ℕ × World S ℕ)
  unfolding fill_runes
  string_to_runes bytes (negsuc len) a w =
      ok (true, record { addr = 0; len = 0; cap = 0; allocator = a; cells = [] }, w)
  string_to_runes bytes (pos len) a w =
      let out : Dynamic ℕ = record { addr = 0; len = 0; cap = 0; allocator = a; cells = [] } in
      elim (rune_count bytes (pos len)) [
        | none ↦ overrun
        | some count ↦
            if count == 0
            then ok (true, out, w)
            else (dyn_reserve selected p ops out (pos count) w >>= fill_runes bytes len count)
      ]
