-- ===== src/Crypto/Steps.antt =====
-- src/crypto/crypto_engine.cpp: the laws of sender keys, and single messages to a channel.
use ircord_client.Base.{
  ◌≡◌, refl, ◌∙◌, sym, ap, subst, Bool, true, false, Option, none, some, List, ◌∷◌, if◌then◌else◌,
  Text, text_eq_refl, is_among, is_empty,
}
use ircord_client.Crypto.{
  Signal, Sealed, CryptoEngine, is_group_channel, create_session, encrypt_for_group, encrypt_first,
  encrypt_later, encrypt, decrypt,
}

-- What libsignal documents of sender keys: `Tuned c u s r` says that `r` has the chain key with which
-- `s` encrypts next for the channel `c` as the user `u`.
pub record SenderKeys {ℓ} {L : Type ℓ} (lib : Signal L) : Type (ℓ ⊔ 1) where
  pub Tuned : Text → Text → L → L → Type 0
  pub builder : (r : L) → lib.builds r ≡ true
  pub distribution :
      (c u d : Text) (s r : L)
      → (lib.start_session c u s).0 ≡ some d
      → (is_empty d ≡ false) × (lib.reads_distribution d r ≡ true)
  pub tunes :
      (c u d : Text) (s r : L)
      → (lib.start_session c u s).0 ≡ some d
      → Tuned c u (lib.start_session c u s).1 (lib.process_session c u d r)
  pub ready : (c u : Text) (s r : L) → Tuned c u s r → lib.has_group_cipher c u r ≡ true
  pub reverses :
      (c u p ct : Text) (s r : L)
      → Tuned c u s r
      → (lib.encrypt_group c u p s).0 ≡ some ct
      → ((lib.decrypt_group c u ct r).0 ≡ some p)
        × Tuned c u (lib.encrypt_group c u p s).1 (lib.decrypt_group c u ct r).1
  pub stays :
      (c u p : Text) (s r : L)
      → Tuned c u s r
      → (lib.encrypt_group c u p s).0 ≡ none
      → Tuned c u (lib.encrypt_group c u p s).1 r

-- A call that is made only where a test holds.
module _ {ℓ} {L : Type ℓ} (P : L → Type 0) where
  pub if_some :
      (b : Bool) (x : Option Text × L) (s : L) {a : Text}
      → ((x.0 ≡ some a) → P x.1)
      → (if b then x else (none, s)).0 ≡ some a
      → P (if b then x else (none, s)).1
  if_some true x s k h = k h
  if_some false x s k h = absurd (cc h)

  pub if_none :
      (b : Bool) (x : Option Text × L) (s : L)
      → P s
      → ((x.0 ≡ none) → P x.1)
      → (if b then x else (none, s)).0 ≡ none
      → P (if b then x else (none, s)).1
  if_none true x s q k h = k h
  if_none false x s q k h = q

pub if_made {ℓ} :
    {L : Type ℓ} (b : Bool) (x : Option Text × L) (s : L) {a : Text}
    → (if b then x else (none, s)).0 ≡ some a
    → x.0 ≡ some a
if_made true x s h = h
if_made false x s h = absurd (cc h)

module _ {ℓ} {L : Type ℓ} (lib : Signal L) (keys : SenderKeys lib) (c : Text) where
  abbrev pub bytes_of : Text → Text → Sealed
  bytes_of u ct = record {
    sender_id = u;
    recipient_id = c;
    ciphertext = ct;
    ciphertext_type = 4;
    skdm = none;
  }

  -- A message for which the library has no cipher or does not encrypt, and one that it encrypts.
  pub later_failed :
      (p : Text) (e : CryptoEngine L)
      → is_group_channel c ≡ true
      → is_among c e.sent_skdm_channels ≡ true
      → (encrypt_for_group lib e.local_id c p e.signal).0 ≡ none
      → encrypt lib e.local_id c p e
        ≡ (none, record e { signal = (encrypt_for_group lib e.local_id c p e.signal).1 })
  unfolding encrypt encrypt_later
  later_failed p e channel sent failed =
      rw (channel, sent, encrypt) (rw (failed, encrypt_later) refl)

  pub later_done :
      (p ct : Text) (e : CryptoEngine L)
      → is_group_channel c ≡ true
      → is_among c e.sent_skdm_channels ≡ true
      → (encrypt_for_group lib e.local_id c p e.signal).0 ≡ some ct
      → encrypt lib e.local_id c p e ≡ (
        some (bytes_of e.local_id ct),
        record e { signal = (encrypt_for_group lib e.local_id c p e.signal).1 },
      )
  unfolding encrypt encrypt_later
  later_done p ct e channel sent done = rw (channel, sent, encrypt) (rw (done, encrypt_later) refl)

  abbrev pub opening : Text → Text → Text → Sealed
  opening u d ct = record (bytes_of u ct) { skdm = some d }

  pub read_later :
      (u ct : Text) (r : CryptoEngine L)
      → lib.has_group_cipher c u r.signal ≡ true
      → decrypt lib (bytes_of u ct) r ≡ (
        (lib.decrypt_group c u ct r.signal).0,
        record r { signal = (lib.decrypt_group c u ct r.signal).1 },
      )
  unfolding decrypt
  read_later u ct r has = rw has refl

  pub read_opening :
      (u d ct : Text) (r : CryptoEngine L)
      → is_empty d ≡ false
      → lib.reads_distribution d r.signal ≡ true
      → lib.has_group_cipher c u (lib.process_session c u d r.signal) ≡ true
      → decrypt lib (opening u d ct) r ≡ (
        (lib.decrypt_group c u ct (lib.process_session c u d r.signal)).0,
        record r { signal = (lib.decrypt_group c u ct (lib.process_session c u d r.signal)).1 },
      )
  unfolding decrypt
  read_opening u d ct r full reads has = rw (full, reads, keys.builder r.signal) (rw has refl)

  pub first_unmade :
      (p : Text) (e : CryptoEngine L)
      → is_group_channel c ≡ true
      → is_among c e.sent_skdm_channels ≡ false
      → (create_session lib e.local_id c e.signal).0 ≡ none
      → encrypt lib e.local_id c p e
        ≡ (none, record e { signal = (create_session lib e.local_id c e.signal).1 })
  unfolding encrypt encrypt_first
  first_unmade p e channel fresh unmade =
      rw (channel, fresh, encrypt) (rw (unmade, encrypt_first) refl)

  pub first_failed :
      (p d : Text) (e : CryptoEngine L)
      → is_group_channel c ≡ true
      → is_among c e.sent_skdm_channels ≡ false
      → (create_session lib e.local_id c e.signal).0 ≡ some d
      → let l = (create_session lib e.local_id c e.signal).1 in
        (encrypt_for_group lib e.local_id c p l).0 ≡ none
        → encrypt lib e.local_id c p e
          ≡ (none, record e { signal = (encrypt_for_group lib e.local_id c p l).1 })
  unfolding encrypt encrypt_first
  first_failed p d e channel fresh made failed =
      rw (channel, fresh, encrypt) (rw (made, encrypt_first) (rw (failed, encrypt_first) refl))

  pub first_done :
      (p d ct : Text) (e : CryptoEngine L)
      → is_group_channel c ≡ true
      → is_among c e.sent_skdm_channels ≡ false
      → (create_session lib e.local_id c e.signal).0 ≡ some d
      → let l = (create_session lib e.local_id c e.signal).1 in
        (encrypt_for_group lib e.local_id c p l).0 ≡ some ct
        → encrypt lib e.local_id c p e ≡ (
          some (opening e.local_id d ct),
          record e {
            signal = (encrypt_for_group lib e.local_id c p l).1;
            sent_skdm_channels = c ∷ e.sent_skdm_channels;
          },
        )
  unfolding encrypt encrypt_first
  first_done p d ct e channel fresh made done =
      rw (channel, fresh, encrypt) (rw (made, encrypt_first) (rw (done, encrypt_first) refl))

  pub started :
      (u d : Text) (s r : L)
      → (create_session lib u c s).0 ≡ some d
      → ((is_empty d ≡ false) × (lib.reads_distribution d r ≡ true))
        × keys.Tuned c u (create_session lib u c s).1 (lib.process_session c u d r)
  started u d s r made =
      let whole : create_session lib u c s ≡ lib.start_session c u s = rw (keys.builder s) refl in
      let made_there = sym (ap (λ x. x.0) whole) ∙ made in
      (
        keys.distribution c u d s r made_there,
        subst (λ x. keys.Tuned c u x.1 (lib.process_session c u d r)) (sym whole)
            (keys.tunes c u d s r made_there),
      )

  pub among_self : (sent : List Text) → is_among c (c ∷ sent) ≡ true
  among_self sent = rw (text_eq_refl c) refl
