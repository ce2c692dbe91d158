-- ===== src/InputLine/RoundTrip.antt =====
-- Decoding what `to_utf8` wrote, and what `from_utf8` can give for any bytes.
mod Bytes
use Prim.Native.Nat.{bit_and, bit_or}
use ircord_client.Base.{
  ℕ, zero, suc, ◌+◌, ◌*◌, ◌/◌, ◌%◌, ◌^◌, ◌≤◌, ◌<◌, ◌≡◌, ◌≢◌, refl, Bool, true, false, Option, none,
  some, List, [], ◌∷◌, ◌++◌, ltb, leb, ◌==◌, ==_iff, not, ◌&&◌, length, length-append, All, Text,
  arith, ap, Bool-cases, Option-cases, inl, inr, ◌∙◌,
}
use native.Mathlib.Decide.{dec_lt}
use ircord_client.Base.Bits.{holds_below, holds_below_at, bit_or_six}
use ircord_client.InputLine.Utf8.{
  encode, to_utf8, lead, continue_with, clean, push, decode_one, decode, from_utf8,
}
use Bytes.{
  IsPoint, decode_one_ascii, decode_one_two, decode_one_three, decode_one_four, encode_one,
  encode_two, encode_three, encode_four,
}

-- Decoding the bytes of a code point takes one round and gives that point, cleaned.
decode-encode :
    (n cp : ℕ) (s : Text)
    → IsPoint cp
    → decode (suc n) (encode cp ++ s) ≡ push (clean cp) (decode n s)
unfolding decode
decode-encode n cp s h = elim (dec_lt cp 128) [
  | yes one ↦ rw (encode_one cp one, decode_one_ascii cp s one)
  | no more ↦ elim (dec_lt cp 2048) [
    | yes two ↦
        let e : cp / 64 * 64 + cp % 64 ≡ cp = omega arith in
        rw (
          encode_two cp (omega arith) two,
          decode_one_two (cp / 64) (cp % 64) s (omega arith) (omega arith),
          e,
        )
    | no above ↦ elim (dec_lt cp 65536) [
      | yes three ↦
          let e : (cp / 4096 * 64 + cp / 64 % 64) * 64 + cp % 64 ≡ cp = omega arith in
          rw (
            encode_three cp (omega arith) three,
            decode_one_three (cp / 4096) (cp / 64 % 64) (cp % 64) s (omega arith) (omega arith)
                (omega arith),
            e,
          )
      | no top ↦
          let e : ((cp / 262144 * 64 + cp / 4096 % 64) * 64 + cp / 64 % 64) * 64 + cp % 64 ≡ cp =
            omega arith in
          rw (
            encode_four cp (omega arith) h,
            decode_one_four (cp / 262144) (cp / 4096 % 64) (cp / 64 % 64) (cp % 64) s (omega arith)
                (omega arith) (omega arith) (omega arith),
            e,
          )
    ]
  ]
]

length-continue_with :
    (k cp : ℕ) (s : Text) {q : ℕ × Text} → continue_with k cp s ≡ some q → length q.1 ≤ length s
unfolding continue_with
length-continue_with zero cp s h = ground arith
length-continue_with (suc k) cp [] h = cc
length-continue_with (suc k) cp (b ∷ s) {q} h =
    ground (arith, length-continue_with k (bit_or (cp * 64 % 2 ^ 32) (b % 64)) s {q = q})

length-decode_one : (c : ℕ) (s : Text) → length (decode_one c s).1 ≤ length s
unfolding decode_one
length-decode_one c s = elim (Option-cases (lead c (length s))) [
  | inl e ↦ rw (e, decode_one) (omega arith)
  | inr ((k, bits), e) ↦ elim (Option-cases (continue_with k bits s)) [
    | inl f ↦ ground arith
    | inr (q, f) ↦ ground (arith, length-continue_with k bits s f)
  ]
]

-- Enough fuel is enough: the rounds do not depend on it.
decode_fuel : (n m : ℕ) (s : Text) → length s ≤ n → length s ≤ m → decode n s ≡ decode m s
unfolding decode
decode_fuel zero zero s h k = refl
decode_fuel zero (suc m) [] h k = refl
decode_fuel zero (suc m) (c ∷ s) h k = absurd (omega arith)
decode_fuel (suc n) zero [] h k = refl
decode_fuel (suc n) zero (c ∷ s) h k = absurd (omega arith)
decode_fuel (suc n) (suc m) [] h k = refl
decode_fuel (suc n) (suc m) (c ∷ s) h k = ap (push (decode_one c s).0) (
    decode_fuel n m (decode_one c s).1 (omega (arith, length-decode_one c s))
      (omega (arith, length-decode_one c s)))

-- The code points that come back: cleaned, in order.
abbrev pub clean_all : List ℕ → List ℕ
clean_all [] = []
clean_all (cp ∷ s) = push (clean cp) (clean_all s)

encode_nonempty : (cp : ℕ) → 0 < length (encode cp)
unfolding encode
encode_nonempty cp = ground arith

decode-to_utf8 :
    (n : ℕ) (s : List ℕ)
    → All IsPoint s
    → length (to_utf8 s) ≤ n
    → decode n (to_utf8 s) ≡ clean_all s
unfolding to_utf8
decode-to_utf8 n [] h k = decode_fuel n 0 [] (omega arith) (omega arith) ∙ unfold decode in refl
decode-to_utf8 zero (cp ∷ s) h k =
    absurd (omega (arith, length-append (encode cp) (to_utf8 s), encode_nonempty cp))
decode-to_utf8 (suc n) (cp ∷ s) h k =
    decode-encode n cp (to_utf8 s) h.0
    ∙ ap (push (clean cp)) (
        decode-to_utf8 n s h.1
          (omega (arith, length-append (encode cp) (to_utf8 s), encode_nonempty cp)))

-- Reading back what `to_utf8` wrote gives the same code points, in order, except that tabs have
-- become spaces and the other control characters are gone: for all code points below 2 ^ 21.
pub from_utf8-to_utf8 : (s : List ℕ) → All IsPoint s → from_utf8 (to_utf8 s) ≡ clean_all s
unfolding from_utf8
from_utf8-to_utf8 s h = decode-to_utf8 (length (to_utf8 s)) s h (omega arith)

-- A code point that the buffer takes from text: neither a control character nor DEL.
abbrev pub IsShown : ℕ → Type 0
IsShown cp = (32 ≤ cp) × (cp ≢ 127)

push-clean : (cp : ℕ) (s : List ℕ) → All IsShown s → All IsShown (push (clean cp) s)
unfolding clean
push-clean cp s h = ground arith

push-decode_one :
    (c : ℕ) (s : Text) (out : List ℕ) → All IsShown out → All IsShown (push (decode_one c s).0 out)
unfolding decode_one
push-decode_one c s out h = elim (Option-cases (lead c (length s))) [
  | inl e ↦ rw (e, decode_one) h
  | inr ((k, bits), e) ↦ elim (Option-cases (continue_with k bits s)) [
    | inl f ↦ rw (e, decode_one) (rw f h)
    | inr ((cp, rest), f) ↦ rw (e, decode_one) (rw f (push-clean cp out h))
  ]
]

decode-IsShown : (n : ℕ) (s : Text) → All IsShown (decode n s)
unfolding decode
decode-IsShown zero s = tt
decode-IsShown (suc n) [] = tt
decode-IsShown (suc n) (c ∷ s) = push-decode_one c s _ (decode-IsShown n (decode_one c s).1)

-- Whatever the bytes are, `from_utf8` gives no control character: no newline either.
pub from_utf8-IsShown : (s : Text) → All IsShown (from_utf8 s)
unfolding from_utf8
from_utf8-IsShown s = decode-IsShown (length s) s
