-- ===== src/Crypto/Delivery.antt =====
-- src/crypto/crypto_engine.cpp: from one engine to another.
use ircord_client.Base.{
  ◌≡◌, refl, ap, true, false, Option, none, some, List, [], ◌∷◌, Text, is_among, Option-cases, inl,
  inr,
}
use ircord_client.Crypto.Steps.{
  SenderKeys, if_some, if_none, if_made, later_failed, later_done, read_later, read_opening,
  first_unmade, first_failed, first_done, started, among_self,
}
use ircord_client.Crypto.{
  Signal, Sealed, CryptoEngine, is_group_channel, create_session, encrypt_for_group, encrypt,
  encrypt_all, decrypt_all,
}

abbrev pub with_text : Option Sealed → Text → List (Option Text) → List (Option Text)
with_text none p ps = ps
with_text (some env) p ps = some p ∷ ps

-- The messages to a channel.
abbrev pub to_channel : Text → List Text → List (Text × Text)
to_channel c [] = []
to_channel c (p ∷ ps) = (c, p) ∷ to_channel c ps

module _ {ℓ} {L : Type ℓ} (lib : Signal L) (c : Text) where
  -- The plaintexts that an envelope went out for.
  abbrev pub sealed_texts : List Text → CryptoEngine L → List (Option Text)
  sealed_texts [] e = []
  sealed_texts (p ∷ ps) e =
      let (env, next) = encrypt lib e.local_id c p e in with_text env p (sealed_texts ps next)

module _ {ℓ} {L : Type ℓ} (lib : Signal L) (keys : SenderKeys lib) (c : Text) where
  -- From engines that are tuned to each other on.
  read_all :
      (ps : List Text) (e r : CryptoEngine L)
      → is_group_channel c ≡ true
      → is_among c e.sent_skdm_channels ≡ true
      → keys.Tuned c e.local_id e.signal r.signal
      → (decrypt_all lib (encrypt_all lib e.local_id (to_channel c ps) e).0 r).0
        ≡ sealed_texts lib c ps e
  read_all [] e r channel sent tuned = refl
  read_all (p ∷ ps) e r channel sent tuned =
      elim (Option-cases (encrypt_for_group lib e.local_id c p e.signal).0) [
        | inl failed ↦ rw (later_failed lib keys c p e channel sent failed) (
            read_all ps (record e { signal = (encrypt_for_group lib e.local_id c p e.signal).1 }) r
              channel sent
              (if_none (λ s. keys.Tuned c e.local_id s r.signal)
                (lib.has_group_cipher c e.local_id e.signal)
                (lib.encrypt_group c e.local_id p e.signal) e.signal tuned
                (keys.stays c e.local_id p e.signal r.signal tuned) failed))
        | inr (ct, done) ↦
            let u = e.local_id in
            let l = (encrypt_for_group lib u c p e.signal).1 in
            let d = (lib.decrypt_group c u ct r.signal).1 in
            let back = keys.reverses c u p ct e.signal r.signal tuned in
            let made =
              if_made (lib.has_group_cipher c u e.signal) (lib.encrypt_group c u p e.signal)
                e.signal done in
            rw (later_done lib keys c p ct e channel sent done) (
              rw (read_later lib keys c u ct r (keys.ready c u e.signal r.signal tuned)) (
                rw (back made).0 (
                  ap (λ t. some p ∷ t)
                    (read_all ps (record e { signal = l }) (record r { signal = d }) channel sent
                      (if_some (λ s. keys.Tuned c u s d) (lib.has_group_cipher c u e.signal)
                        (lib.encrypt_group c u p e.signal) e.signal (λ h. (back h).1) done)))))
      ]

  -- Where the library keeps the laws of sender keys: of the messages that an engine sends to a channel
  -- for which it has not distributed a key yet, another engine that gets the envelopes in their order
  -- reads each that went out as it was written, whichever calls of the library failed on the way.
  pub decrypt_all-encrypt_all :
      (ps : List Text) (e r : CryptoEngine L)
      → is_group_channel c ≡ true
      → is_among c e.sent_skdm_channels ≡ false
      → (decrypt_all lib (encrypt_all lib e.local_id (to_channel c ps) e).0 r).0
        ≡ sealed_texts lib c ps e
  decrypt_all-encrypt_all [] e r channel fresh = refl
  decrypt_all-encrypt_all (p ∷ ps) e r channel fresh =
      let u = e.local_id in
      let l = (create_session lib u c e.signal).1 in
      let m = (encrypt_for_group lib u c p l).1 in
      elim (Option-cases (create_session lib u c e.signal).0) [
        | inl unmade ↦
            rw (first_unmade lib keys c p e channel fresh unmade)
              (decrypt_all-encrypt_all ps (record e { signal = l }) r channel fresh)
        | inr (d, made) ↦ elim (Option-cases (encrypt_for_group lib u c p l).0) [
          | inl failed ↦
              rw (first_failed lib keys c p d e channel fresh made failed)
                (decrypt_all-encrypt_all ps (record e { signal = m }) r channel fresh)
          | inr (ct, done) ↦
              let q = lib.process_session c u d r.signal in
              let s = started lib keys c u d e.signal r.signal made in
              let back = keys.reverses c u p ct l q s.1 in
              let there = if_made (lib.has_group_cipher c u l) (lib.encrypt_group c u p l) l done in
              rw (first_done lib keys c p d ct e channel fresh made done) (
                rw (read_opening lib keys c u d ct r s.0.0 s.0.1 (keys.ready c u l q s.1)) (
                  rw (back there).0 (
                    ap (λ t. some p ∷ t)
                      (read_all ps
                        (record e { signal = m; sent_skdm_channels = c ∷ e.sent_skdm_channels })
                        (record r { signal = (lib.decrypt_group c u ct q).1 }) channel
                        (among_self lib keys c e.sent_skdm_channels)
                        (if_some (λ x. keys.Tuned c u x (lib.decrypt_group c u ct q).1)
                          (lib.has_group_cipher c u l) (lib.encrypt_group c u p l) l
                          (λ h. (back h).1) done)))))
        ]
      ]
