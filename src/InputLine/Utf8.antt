-- ===== src/InputLine/Utf8.antt =====
-- `to_utf8` and `from_utf8` of src/ui/input_line.cpp, on bytes below 256.
use Prim.Native.Nat.{bit_and, bit_or}
use ircord_client.Base.{
  ℕ, zero, suc, ◌*◌, ◌/◌, ◌%◌, ◌^◌, ◌||◌, Option, none, some, List, [], ◌∷◌, ◌++◌, ltb, leb, ◌==◌,
  if◌then◌else◌, length, Text, ◌&&◌,
}

-- The bytes of one code point: `cp >> 6` is `cp / 64`, `cp & 0x3F` is `cp % 64`, and the cast to
-- `char` keeps the low byte.
unfoldable pub encode : ℕ → Text
encode cp =
    if ltb cp 0x80
    then cp ∷ []
    else if ltb cp 0x800
    then bit_or 0xC0 (cp / 64) % 256 ∷ bit_or 0x80 (cp % 64) % 256 ∷ []
    else if ltb cp 0x10000
    then bit_or 0xE0 (cp / 4096) % 256
      ∷ bit_or 0x80 (cp / 64 % 64) % 256
      ∷ bit_or 0x80 (cp % 64) % 256
      ∷ []
    else bit_or 0xF0 (cp / 262144) % 256
      ∷ bit_or 0x80 (cp / 4096 % 64) % 256
      ∷ bit_or 0x80 (cp / 64 % 64) % 256
      ∷ bit_or 0x80 (cp % 64) % 256
      ∷ []

unfoldable pub to_utf8 : List ℕ → Text
unfolding encode
to_utf8 [] = []
to_utf8 (cp ∷ s) = encode cp ++ to_utf8 s

-- What a leading byte starts: the bytes that must follow, of `left` that are there, and its bits.
unfoldable pub lead : ℕ → ℕ → Option (ℕ × ℕ)
lead c left =
    if ltb c 0x80
    then some (0, c)
    else if bit_and c 0xE0 == 0xC0 && leb 1 left
    then some (1, c % 32)
    else if bit_and c 0xF0 == 0xE0 && leb 2 left
    then some (2, c % 16)
    else if bit_and c 0xF8 == 0xF0 && leb 3 left
    then some (3, c % 8)
    else none

-- The inner loop over the bytes that follow, and what is left behind them.
unfoldable pub continue_with : ℕ → ℕ → Text → Option (ℕ × Text)
continue_with zero cp s = some (cp, s)
continue_with (suc k) cp [] = none
continue_with (suc k) cp (b ∷ s) =
    let more = continue_with k (bit_or (cp * 64 % 2 ^ 32) (b % 64)) s in
    if bit_and b 0xC0 == 0x80 then more else none

-- Tabs become spaces; other control characters are dropped, carriage returns first.
unfoldable pub clean : ℕ → Option ℕ
clean cp =
    if cp == 13
    then none
    else let shown = if cp == 9 then 32 else cp in
      if ltb shown 32 || shown == 127 then none else some shown

abbrev pub push : Option ℕ → List ℕ → List ℕ
push none out = out
push (some cp) out = cp ∷ out

-- One round: the code point that the bytes in front of `s` stand for, if any, and the rest.
unfoldable pub decode_one : ℕ → Text → Option ℕ × Text
unfolding lead continue_with clean
decode_one c s = elim (lead c (length s)) [
  | none ↦ (none, s)
  | some (k, bits) ↦ elim (continue_with k bits s) [
    | none ↦ (none, s)
    | some (cp, rest) ↦ (clean cp, rest)
  ]
]

-- Each round takes a byte at least, so `length s` rounds are enough.
unfoldable pub decode : ℕ → Text → List ℕ
decode zero s = []
decode (suc fuel) [] = []
decode (suc fuel) (c ∷ s) = let round = decode_one c s in push round.0 (decode fuel round.1)

unfoldable pub from_utf8 : Text → List ℕ
unfolding decode decode_one
from_utf8 s = decode (length s) s
