-- ===== src/Tests/Runes.antt =====
-- The theorem on `string_to_runes` at a text, and runs of runtime/container.c's hash of bytes.
use loke.Prelude.{ℕ, ◌≡◌, refl, false, some, none, [], ◌∷◌, inl, arith, length, All, List}
use loke.Prelude.Int.{pos}
use loke.Prelude.Outcome.{Returns}
use loke.Container.Memory.{Provider, Ops, World}
use loke.Container.Runes.{hash_bytes, hash_from, string_to_runes}
use loke.Container.Runes.Decoding.{Filled, string_to_runes-Filled}
use loke.Utf8.{encode_rune}
use loke.Utf8.Codec.{IsScalar}
use loke.Utf8.Valid.{encode_all}

abbrev memory : Provider Unit
memory = record {
  alloc = λ s size align. (some 4096, s);
  resize = λ s ptr old_size new_size align. (some 4096, s);
  free = λ s ptr size align. s;
}

abbrev rune_ops : Ops Unit ℕ
rune_ops = record {
  elem_size = 4;
  elem_align = 4;
  elem_drop = false;
  elem_clone = none;
  zero_value = 0;
}

abbrev no_drops : World Unit ℕ
no_drops = record { state = tt; dropped = [] }

-- The euro sign and the letter A.
abbrev text : List ℕ
text = 0xE2 ∷ 0x82 ∷ 0xAC ∷ 0x41 ∷ []

abbrev text_runes : List ℕ
text_runes = 0x20AC ∷ 0x41 ∷ []

text_runes-IsScalar : All IsScalar text_runes
text_runes-IsScalar = (
  record { in_range = omega arith; plain = inl (omega arith) },
  (record { in_range = omega arith; plain = inl (omega arith) }, tt),
)

string_to_runes-Filled_example :
    Returns
      (string_to_runes 1 memory rune_ops
        (some text)
        (pos (length (encode_all text_runes)))
        0
        no_drops)
      (Filled 1 memory rune_ops text_runes)
unfolding encode_rune
string_to_runes-Filled_example =
    string_to_runes-Filled 1 memory rune_ops text text_runes 0 no_drops text_runes-IsScalar
      (refl, (refl, (refl, (refl, tt)))) (omega arith)

-- The offset basis of FNV-1a and the letter a.
hash_runs : hash_bytes (0x61 ∷ []) (pos 1) 0xcbf29ce484222325 ≡ some 0x89be307b544f397
unfolding hash_bytes hash_from
hash_runs = refl
