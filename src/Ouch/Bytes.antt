-- ===== src/Ouch/Bytes.antt =====
-- The bytes of the fields of include/ouch/ouch_messages.hpp: numbers in big-endian order, and
-- padded text.
use hft_trading_system.Prelude.{
  ℕ, ◌+◌, ◌-◌, ◌*◌, ◌/◌, ◌%◌, none, some, List, [], ◌∷◌, ◌++◌, take, drop, replicate, get_elem?,
  length,
}

abbrev pub space : ℕ
space = 32

abbrev pub byte_at : List ℕ → ℕ → ℕ
byte_at buf i = elim (get_elem? buf i) [ none ↦ 0 | some b ↦ b ]

unfoldable pub write_be16 : ℕ → List ℕ
write_be16 val = val / 256 % 256 ∷ val % 256 ∷ []

unfoldable pub write_be32 : ℕ → List ℕ
write_be32 val = val / 16777216 % 256 ∷ val / 65536 % 256 ∷ val / 256 % 256 ∷ val % 256 ∷ []

unfoldable pub write_be64 : ℕ → List ℕ
write_be64 val =
    val / 72057594037927936 % 256
    ∷ val / 281474976710656 % 256
    ∷ val / 1099511627776 % 256
    ∷ val / 4294967296 % 256
    ∷ val / 16777216 % 256
    ∷ val / 65536 % 256
    ∷ val / 256 % 256
    ∷ val % 256
    ∷ []

-- The parts that `|` joins have no bit in common.
unfoldable pub read_be16 : List ℕ → ℕ
read_be16 buf = byte_at buf 0 * 256 + byte_at buf 1

unfoldable pub read_be32 : List ℕ → ℕ
read_be32 buf =
    byte_at buf 0 * 16777216 + byte_at buf 1 * 65536 + byte_at buf 2 * 256 + byte_at buf 3

unfoldable pub read_be64 : List ℕ → ℕ
read_be64 buf =
    byte_at buf 0 * 72057594037927936
    + byte_at buf 1 * 281474976710656
    + byte_at buf 2 * 1099511627776
    + byte_at buf 3 * 4294967296
    + byte_at buf 4 * 16777216
    + byte_at buf 5 * 65536
    + byte_at buf 6 * 256
    + byte_at buf 7

-- `memset(field, ' ', n); memcpy(field, s, min(strlen(s), n));`
unfoldable pub padded : ℕ → List ℕ → List ℕ
padded n s = take n s ++ replicate (n - length s) space

abbrev pub slice : ℕ → ℕ → List ℕ → List ℕ
slice from n bytes = take n (drop from bytes)
