-- ===== src/InputLine/RoundTrip/Bytes.antt =====
-- One round of `from_utf8` on the bytes that `to_utf8` writes for one code point.
use Prim.Native.Nat.{bit_and, bit_or}
use ircord_client.Base.{
  ℕ, zero, suc, ◌+◌, ◌*◌, ◌/◌, ◌%◌, ◌^◌, ◌≤◌, ◌<◌, ◌≡◌, refl, Bool, true, some, [], ◌∷◌, ◌==◌,
  ==_iff, not, ◌&&◌, length, Text, arith,
}
use ircord_client.Base.Bits.{holds_below, holds_below_at, bit_or_six}
use ircord_client.InputLine.Utf8.{encode, lead, continue_with, clean, decode_one}

-- The bytes of an encoding, as sums.
two_lead : (x : ℕ) → x < 32 → bit_or 0xC0 x % 256 ≡ 192 + x
two_lead x h = (==_iff _ _).0 (holds_below_at 32 (λ x. bit_or 0xC0 x % 256 == 192 + x) x table h)
  where
    table : holds_below 32 (λ x. bit_or 0xC0 x % 256 == 192 + x) ≡ true
    table = unfold holds_below in refl

three_lead : (x : ℕ) → x < 16 → bit_or 0xE0 x % 256 ≡ 224 + x
three_lead x h = (==_iff _ _).0 (holds_below_at 16 (λ x. bit_or 0xE0 x % 256 == 224 + x) x table h)
  where
    table : holds_below 16 (λ x. bit_or 0xE0 x % 256 == 224 + x) ≡ true
    table = unfold holds_below in refl

four_lead : (x : ℕ) → x < 8 → bit_or 0xF0 x % 256 ≡ 240 + x
four_lead x h = (==_iff _ _).0 (holds_below_at 8 (λ x. bit_or 0xF0 x % 256 == 240 + x) x table h)
  where
    table : holds_below 8 (λ x. bit_or 0xF0 x % 256 == 240 + x) ≡ true
    table = unfold holds_below in refl

follow : (x : ℕ) → x < 64 → bit_or 0x80 x % 256 ≡ 128 + x
follow x h = (==_iff _ _).0 (holds_below_at 64 (λ x. bit_or 0x80 x % 256 == 128 + x) x table h)
  where
    table : holds_below 64 (λ x. bit_or 0x80 x % 256 == 128 + x) ≡ true
    table = unfold holds_below in refl

-- What `decode_one` reads off such bytes.
is_follow : (x : ℕ) → x < 64 → (bit_and (128 + x) 0xC0 == 0x80) ≡ true
is_follow x h = holds_below_at 64 (λ x. bit_and (128 + x) 0xC0 == 0x80) x table h
  where
    table : holds_below 64 (λ x. bit_and (128 + x) 0xC0 == 0x80) ≡ true
    table = unfold holds_below in refl

is_two : (x : ℕ) → x < 32 → (bit_and (192 + x) 0xE0 == 0xC0) ≡ true
is_two x h = holds_below_at 32 (λ x. bit_and (192 + x) 0xE0 == 0xC0) x table h
  where
    table : holds_below 32 (λ x. bit_and (192 + x) 0xE0 == 0xC0) ≡ true
    table = unfold holds_below in refl

three_table : ℕ → Bool
three_table x = not (bit_and (224 + x) 0xE0 == 0xC0) && bit_and (224 + x) 0xF0 == 0xE0

is_three : (x : ℕ) → x < 16 → three_table x ≡ true
is_three x h = holds_below_at 16 three_table x (unfold holds_below three_table in refl) h

four_table : ℕ → Bool
four_table x =
    not (bit_and (240 + x) 0xE0 == 0xC0)
    && not (bit_and (240 + x) 0xF0 == 0xE0)
    && bit_and (240 + x) 0xF8 == 0xF0

is_four : (x : ℕ) → x < 8 → four_table x ≡ true
is_four x h = holds_below_at 8 four_table x (unfold holds_below four_table in refl) h

-- A round on the bytes of a code point of each length.
pub decode_one_ascii : (c : ℕ) (s : Text) → c < 128 → decode_one c s ≡ (clean c, s)
unfolding decode_one lead continue_with
decode_one_ascii c s h = ground arith

step_bits :
    (a b k : ℕ) → a < 2 ^ 15 → b < 64 → bit_or (a * 64 % 2 ^ 32) ((128 + b) % 64) ≡ a * 64 + b
step_bits a b k ha hb =
    let e : a * 64 % 2 ^ 32 ≡ a * 64 = omega arith in
    let f : (128 + b) % 64 ≡ b = omega arith in rw (e, f) (bit_or_six a b hb)

continue_step :
    (k a b : ℕ) (s : Text)
    → a < 2 ^ 15
    → b < 64
    → continue_with (suc k) a ((128 + b) ∷ s) ≡ continue_with k (a * 64 + b) s
unfolding continue_with
continue_step k a b s ha hb = rw (is_follow b hb, step_bits a b k ha hb)

lead_two : (a n : ℕ) → a < 32 → lead (192 + a) (suc n) ≡ some (1, a)
unfolding lead
lead_two a n h = ground (arith, is_two a h)

lead_three : (a n : ℕ) → a < 16 → lead (224 + a) (suc (suc n)) ≡ some (2, a)
unfolding lead three_table
lead_three a n h = ground (arith, is_three a h)

lead_four : (a n : ℕ) → a < 8 → lead (240 + a) (suc (suc (suc n))) ≡ some (3, a)
unfolding lead four_table
lead_four a n h = ground (arith, is_four a h)

continue_done : (cp : ℕ) (s : Text) → continue_with zero cp s ≡ some (cp, s)
unfolding continue_with
continue_done cp s = refl

pub decode_one_two :
    (a b : ℕ) (s : Text)
    → a < 32
    → b < 64
    → decode_one (192 + a) ((128 + b) ∷ s) ≡ (clean (a * 64 + b), s)
unfolding decode_one
decode_one_two a b s ha hb = ground (
  arith,
  lead_two a (length s) ha,
  continue_step 0 a b s (omega arith) hb,
  continue_done (a * 64 + b) s,
)

pub decode_one_three :
    (a b c : ℕ) (s : Text)
    → a < 16
    → b < 64
    → c < 64
    → decode_one (224 + a) ((128 + b) ∷ (128 + c) ∷ s) ≡ (clean ((a * 64 + b) * 64 + c), s)
unfolding decode_one
decode_one_three a b c s ha hb hc = ground (
  arith,
  lead_three a (length s) ha,
  continue_step 1 a b ((128 + c) ∷ s) (omega arith) hb,
  continue_step 0 (a * 64 + b) c s (omega arith) hc,
  continue_done ((a * 64 + b) * 64 + c) s,
)

pub decode_one_four :
    (a b c d : ℕ) (s : Text)
    → a < 8
    → b < 64
    → c < 64
    → d < 64
    → decode_one (240 + a) ((128 + b) ∷ (128 + c) ∷ (128 + d) ∷ s)
      ≡ (clean (((a * 64 + b) * 64 + c) * 64 + d), s)
unfolding decode_one
decode_one_four a b c d s ha hb hc hd = ground (
  arith,
  lead_four a (length s) ha,
  continue_step 2 a b ((128 + c) ∷ (128 + d) ∷ s) (omega arith) hb,
  continue_step 1 (a * 64 + b) c ((128 + d) ∷ s) (omega arith) hc,
  continue_step 0 ((a * 64 + b) * 64 + c) d s (omega arith) hd,
  continue_done (((a * 64 + b) * 64 + c) * 64 + d) s,
)

-- The code points that the four forms can write, those of Unicode among them.
abbrev pub IsPoint : ℕ → Type 0
IsPoint cp = cp < 2 ^ 21

pub encode_two :
    (cp : ℕ) → 128 ≤ cp → cp < 2048 → encode cp ≡ (192 + cp / 64) ∷ (128 + cp % 64) ∷ []
unfolding encode
encode_two cp lo hi =
    ground (arith, two_lead (cp / 64) (omega arith), follow (cp % 64) (omega arith))

pub encode_three :
    (cp : ℕ)
    → 2048 ≤ cp
    → cp < 65536
    → encode cp ≡ (224 + cp / 4096) ∷ (128 + cp / 64 % 64) ∷ (128 + cp % 64) ∷ []
unfolding encode
encode_three cp lo hi = ground (
  arith,
  three_lead (cp / 4096) (omega arith),
  follow (cp / 64 % 64) (omega arith),
  follow (cp % 64) (omega arith),
)

pub encode_four :
    (cp : ℕ)
    → 65536 ≤ cp
    → IsPoint cp
    → encode cp
      ≡ (240 + cp / 262144) ∷ (128 + cp / 4096 % 64) ∷ (128 + cp / 64 % 64) ∷ (128 + cp % 64) ∷ []
unfolding encode
encode_four cp lo hi = ground (
  arith,
  four_lead (cp / 262144) (omega arith),
  follow (cp / 4096 % 64) (omega arith),
  follow (cp / 64 % 64) (omega arith),
  follow (cp % 64) (omega arith),
)

pub encode_one : (cp : ℕ) → cp < 128 → encode cp ≡ cp ∷ []
unfolding encode
encode_one cp h = ground arith
