-- ===== src/Net/Pin.antt =====
-- A pinned certificate: the text that is compared tells digests apart.
use ircord_client.Base.{
  ℕ, ◌/◌, ◌%◌, ◌<◌, ◌≡◌, ◌↔◌, refl, true, false, some, [], ◌∷◌, is_empty, All, Text, text_eq_iff,
  arith,
}
use ircord_client.Net.{verify_cert_pin, cert_fingerprint, fingerprint, hex_digit}

abbrev pub AreBytes : Text → Type 0
AreBytes s = All (λ b. b < 256) s

hex_byte_inj :
    (a b : ℕ)
    → a < 256
    → b < 256
    → hex_digit (a / 16) ≡ hex_digit (b / 16)
    → hex_digit (a % 16) ≡ hex_digit (b % 16)
    → a ≡ b
hex_byte_inj a b ha hb p q = ground arith

fingerprint_inj : (s t : Text) → AreBytes s → AreBytes t → fingerprint s ≡ fingerprint t → s ≡ t
unfolding fingerprint
fingerprint_inj [] [] h k e = refl
fingerprint_inj [] (b ∷ []) h k e = cc
fingerprint_inj [] (b ∷ c ∷ t) h k e = cc
fingerprint_inj (a ∷ []) [] h k e = cc
fingerprint_inj (a ∷ b ∷ s) [] h k e = cc
fingerprint_inj (a ∷ []) (b ∷ []) h k e = ground (arith, hex_byte_inj a b)
fingerprint_inj (a ∷ []) (b ∷ c ∷ t) h k e = cc
fingerprint_inj (a ∷ b ∷ s) (c ∷ []) h k e = cc
fingerprint_inj (a ∷ b ∷ s) (c ∷ d ∷ t) h k e =
    ground (arith, hex_byte_inj a c, fingerprint_inj (b ∷ s) (d ∷ t))

nonempty : (b : ℕ) (s : Text) → is_empty (fingerprint (b ∷ s)) ≡ false
unfolding fingerprint
nonempty b [] = refl
nonempty b (c ∷ s) = refl

-- With verification on and the fingerprint of a digest that is not empty as the pin, exactly the
-- certificate with that digest is accepted.
pub verify_cert_pin_iff :
    (b : ℕ) (pinned digest : Text)
    → AreBytes (b ∷ pinned)
    → AreBytes digest
    → (verify_cert_pin true (fingerprint (b ∷ pinned)) (some digest) ≡ true) ↔ (digest ≡ b ∷ pinned)
unfolding verify_cert_pin cert_fingerprint
verify_cert_pin_iff b pinned [] h k = (λ e. cc, λ e. cc)
verify_cert_pin_iff b pinned (c ∷ digest) h k = (
  λ e. ground (
    arith,
    nonempty c digest,
    nonempty b pinned,
    text_eq_iff (fingerprint (c ∷ digest)) (fingerprint (b ∷ pinned)),
    fingerprint_inj (c ∷ digest) (b ∷ pinned),
  ),
  λ e. ground (
    arith,
    nonempty c digest,
    nonempty b pinned,
    text_eq_iff (fingerprint (c ∷ digest)) (fingerprint (b ∷ pinned)),
  ),
)
