-- ===== src/Crypto/Skdm.antt =====
-- src/crypto/crypto_engine.cpp: which envelopes have the distribution message of a channel.
use ircord_client.Base.{
  ◌≡◌, refl, ◌∙◌, sym, ap, Bool, true, false, not, ◌&&◌, ◌||◌, Option, none, some, List, [], ◌∷◌,
  if◌then◌else◌, Text, text_eq, text_eq_iff, is_among, if_kept, arith, Bool-cases, Option-cases,
  inl, inr,
}
use ircord_client.Crypto.{
  Signal, Sealed, CryptoEngine, is_group_channel, create_session, encrypt_for_group, encrypt_first,
  encrypt_later, encrypt_direct, encrypt, encrypt_all, with_envelope,
}

-- An envelope has a distribution message, and just then, if none went out before.
abbrev pub is_right : Bool → Option Text → Bool
is_right true none = true
is_right true (some skdm) = false
is_right false none = false
is_right false (some skdm) = true

-- Of the envelopes to a channel the first has a distribution message, unless one went out before, and
-- no other has one.
abbrev pub carries : Bool → Text → List Sealed → Bool
carries sent_before c [] = true
carries sent_before c (env ∷ envs) =
    let later = carries true c envs in
    let same = carries sent_before c envs in
    if text_eq env.recipient_id c then is_right sent_before env.skdm && later else same

abbrev same : Bool → Bool → Bool
same true b = b
same false b = not b

-- One envelope, and whether a distribution message has gone out before and after it.
unfoldable fits : Text → Bool → Option Sealed → Bool → Bool
fits c before none after = same before after
fits c before (some env) after =
    if text_eq env.recipient_id c then is_right before env.skdm && after else same before after

carries-with_envelope :
    (c : Text) (before after : Bool) (env : Option Sealed) (envs : List Sealed)
    → fits c before env after ≡ true
    → carries after c envs ≡ true
    → carries before c (with_envelope env envs) ≡ true
unfolding fits
carries-with_envelope c true true none envs h k = k
carries-with_envelope c true false none envs h k = absurd (cc h)
carries-with_envelope c false true none envs h k = absurd (cc h)
carries-with_envelope c false false none envs h k = k
carries-with_envelope c true true (some env) envs h k = ground (arith, h, k)
carries-with_envelope c true false (some env) envs h k = ground (arith, h, k)
carries-with_envelope c false true (some env) envs h k = ground (arith, h, k)
carries-with_envelope c false false (some env) envs h k = ground (arith, h, k)

same_refl : (b : Bool) → same b b ≡ true
same_refl true = refl
same_refl false = refl

first_right :
    (to_it before : Bool) (skdm : Text)
    → (to_it ≡ true → before ≡ false)
    → (if to_it
        then is_right before (some skdm) && (to_it || before)
        else same before (to_it || before))
      ≡ true
first_right true true skdm h = absurd (cc (h refl))
first_right true false skdm h = refl
first_right false before skdm h = same_refl before

later_right :
    (to_it before : Bool)
    → (to_it ≡ true → before ≡ true)
    → (if to_it then is_right before none && before else same before before) ≡ true
later_right true true h = refl
later_right true false h = absurd (cc (h refl))
later_right false before h = same_refl before

among_same :
    (r c : Text) (sent : List Text) → text_eq r c ≡ true → is_among c sent ≡ is_among r sent
among_same r c sent h = ap (λ x. is_among x sent) (sym ((text_eq_iff r c).0 h))

module _ {ℓ} {L : Type ℓ} (lib : Signal L) where
  unfoldable Fits : Text → CryptoEngine L → Option Sealed × CryptoEngine L → Type 0
  Fits c e (env, next) =
      fits c (is_among c e.sent_skdm_channels) env (is_among c next.sent_skdm_channels) ≡ true

  later-Fits :
      (sender r plaintext c : Text) (e : CryptoEngine L)
      → is_among r e.sent_skdm_channels ≡ true
      → Fits c e (encrypt_later lib sender r plaintext e)
  unfolding encrypt_later Fits fits
  later-Fits sender r plaintext c e sent =
      elim (Option-cases (encrypt_for_group lib e.local_id r plaintext e.signal).0) [
        | inl failed ↦ rw (failed, encrypt_later) (same_refl (is_among c e.sent_skdm_channels))
        | inr (bytes, done) ↦
            rw (done, encrypt_later)
              (later_right (text_eq r c) (is_among c e.sent_skdm_channels)
                (λ h. among_same r c e.sent_skdm_channels h ∙ sent))
      ]

  first-Fits :
      (sender r plaintext c : Text) (e : CryptoEngine L)
      → is_among r e.sent_skdm_channels ≡ false
      → Fits c e (encrypt_first lib sender r plaintext e)
  unfolding encrypt_first Fits fits
  first-Fits sender r plaintext c e fresh =
      elim (Option-cases (create_session lib e.local_id r e.signal).0) [
        | inl failed ↦ rw (failed, encrypt_first) (same_refl (is_among c e.sent_skdm_channels))
        | inr (skdm, made) ↦
            elim (Option-cases
              (encrypt_for_group lib e.local_id r plaintext
                (create_session lib e.local_id r e.signal).1).0) [
                  | inl failed ↦
                      rw (made, encrypt_first)
                        (rw (failed, encrypt_first) (same_refl (is_among c e.sent_skdm_channels)))
                  | inr (bytes, done) ↦
                      rw (made, encrypt_first)
                        (rw (done, encrypt_first)
                          (first_right (text_eq r c) (is_among c e.sent_skdm_channels) skdm
                            (λ h. among_same r c e.sent_skdm_channels h ∙ fresh)))
                ]
      ]

  none-Fits :
      (c : Text) (e next : CryptoEngine L)
      → next.sent_skdm_channels ≡ e.sent_skdm_channels
      → Fits c e (none, next)
  unfolding Fits fits
  none-Fits c e next kept = rw kept (same_refl (is_among c e.sent_skdm_channels))

  sealed-Fits :
      (c : Text) (e next : CryptoEngine L) (env : Sealed)
      → text_eq env.recipient_id c ≡ false
      → next.sent_skdm_channels ≡ e.sent_skdm_channels
      → Fits c e (some env, next)
  unfolding Fits fits
  sealed-Fits c e next env other kept =
      rw (other, kept) (same_refl (is_among c e.sent_skdm_channels))

  direct-Fits :
      (sender r plaintext c : Text) (e : CryptoEngine L)
      → text_eq r c ≡ false
      → Fits c e (encrypt_direct lib sender r plaintext e)
  unfolding encrypt_direct
  direct-Fits sender r plaintext c e other =
      if_kept (Fits c e) (not (lib.has_session r e.signal)) (none-Fits c e _ refl) (
        if_kept (Fits c e) (not (lib.has_cipher r e.signal)) (none-Fits c e e refl)
          (elim (Option-cases (lib.encrypt_session r plaintext e.signal).0) [
            | inl failed ↦ rw failed (none-Fits c e _ refl)
            | inr (sealed, done) ↦ rw done (sealed-Fits c e _ _ other refl)
          ]))

  other_user :
      (r c : Text) → is_group_channel r ≡ false → is_group_channel c ≡ true → text_eq r c ≡ false
  other_user r c user channel = elim (Bool-cases (text_eq r c)) [
    | inl same ↦ absurd (cc (user, channel, (text_eq_iff r c).0 same))
    | inr other ↦ other
  ]

  encrypt-Fits :
      (sender r plaintext c : Text) (e : CryptoEngine L)
      → is_group_channel c ≡ true
      → Fits c e (encrypt lib sender r plaintext e)
  unfolding encrypt
  encrypt-Fits sender r plaintext c e channel = elim (Bool-cases (is_group_channel r)) [
    | inr user ↦
        rw (user, encrypt) (direct-Fits sender r plaintext c e (other_user r c user channel))
    | inl room ↦ elim (Bool-cases (is_among r e.sent_skdm_channels)) [
      | inl sent ↦ rw (room, sent, encrypt) (later-Fits sender r plaintext c e sent)
      | inr fresh ↦ rw (room, fresh, encrypt) (first-Fits sender r plaintext c e fresh)
    ]
  ]

  -- Whatever messages go to whatever channels and users, and whichever calls of the library fail on the
  -- way: of the envelopes that go out to a channel the first has a distribution message, unless the
  -- engine has sent one there before, and no other has one.
  pub encrypt_all-carries :
      (sender : Text) (ms : List (Text × Text)) (e : CryptoEngine L) (c : Text)
      → is_group_channel c ≡ true
      → carries (is_among c e.sent_skdm_channels) c (encrypt_all lib sender ms e).0 ≡ true
  unfolding Fits
  encrypt_all-carries sender [] e c channel = refl
  encrypt_all-carries sender ((r, plaintext) ∷ ms) e c channel =
      carries-with_envelope c _ _ _ _ (encrypt-Fits sender r plaintext c e channel)
        (encrypt_all-carries sender ms (encrypt lib sender r plaintext e).1 c channel)
