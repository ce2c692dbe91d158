-- ===== src/Crypto.antt =====
-- src/crypto/crypto_engine.cpp and src/crypto/group_session.cpp: which session a message goes through,
-- and when the key of a channel is distributed.
pub mod Skdm
pub mod Steps
pub mod Delivery
mod Tests
use ircord_client.Base.{
  ℕ, ◌+◌, Bool, true, false, not, ◌&&◌, ◌||◌, ◌==◌, Option, none, some, List, [], ◌∷◌, ◌++◌,
  if◌then◌else◌, Text, codes, text_eq, is_among, is_empty,
}
use ircord_client.Base.Assoc.{Assoc, insert}

-- What the engine calls of libsignal, on a state of any type with the key store in it. A test is a call
-- that gives `SG_SUCCESS`; the other calls give nothing where they fail.
pub record Signal {ℓ} (L : Type ℓ) : Type ℓ where
  -- `group_session_builder_create`
  pub builds : L → Bool
  -- `group_session_builder_create_session`, of a channel and a user
  pub start_session : Text → Text → L → Option Text × L
  -- `sender_key_distribution_message_deserialize`
  pub reads_distribution : Text → L → Bool
  -- `group_session_builder_process_session`
  pub process_session : Text → Text → Text → L → L
  -- `group_cipher_create`
  pub has_group_cipher : Text → Text → L → Bool
  pub encrypt_group : Text → Text → Text → L → Option Text × L
  -- `sender_key_message_deserialize` and `group_cipher_decrypt`
  pub decrypt_group : Text → Text → Text → L → Option Text × L
  -- `signal_protocol_session_contains_session`
  pub has_session : Text → L → Bool
  -- `session_cipher_create`
  pub has_cipher : Text → L → Bool
  pub encrypt_session : Text → Text → L → Option (Text × ℕ) × L
  -- Reading a message and decrypting it, for the first messages of a session and for the others.
  pub decrypt_pre_key : Text → Text → L → Option Text × L
  pub decrypt_message : Text → Text → L → Option Text × L

-- A `ChatEnvelope` with its distribution message.
pub record Sealed : Type 0 where
  pub sender_id : Text
  pub recipient_id : Text
  pub ciphertext : Text
  pub ciphertext_type : ℕ
  pub skdm : Option Text

-- `requested` are the users whose keys `key_request_fn` was called for.
pub record CryptoEngine {ℓ} (L : Type ℓ) : Type ℓ where
  pub signal : L
  pub local_id : Text
  pub sent_skdm_channels : List Text
  pub pending_plaintexts : Assoc Text
  pub requested : List Text

abbrev pub is_group_channel : Text → Bool
is_group_channel [] = false
is_group_channel (c ∷ s) = c == b'#'

abbrev pub with_envelope : Option Sealed → List Sealed → List Sealed
with_envelope none envs = envs
with_envelope (some env) envs = env ∷ envs

module _ {ℓ} {L : Type ℓ} (lib : Signal L) where
  abbrev pub create_session : Text → Text → L → Option Text × L
  create_session local channel_id l =
      if lib.builds l then lib.start_session channel_id local l else (none, l)

  abbrev pub encrypt_for_group : Text → Text → Text → L → Option Text × L
  encrypt_for_group local channel_id plaintext l =
      if lib.has_group_cipher channel_id local l
      then lib.encrypt_group channel_id local plaintext l
      else (none, l)

  abbrev pub process_distribution : Text → Text → Text → L → L
  process_distribution channel_id sender_id skdm l =
      if lib.reads_distribution skdm l && lib.builds l
      then lib.process_session channel_id sender_id skdm l
      else l

  abbrev pub decrypt_for_group : Text → Text → Text → L → Option Text × L
  decrypt_for_group channel_id sender_id ciphertext l =
      if lib.has_group_cipher channel_id sender_id l
      then lib.decrypt_group channel_id sender_id ciphertext l
      else (none, l)

  -- The first message to a channel; no envelope stands for the empty one.
  unfoldable pub encrypt_first :
      Text → Text → Text → CryptoEngine L → Option Sealed × CryptoEngine L
  encrypt_first sender channel plaintext e =
      let (skdm, l) = create_session e.local_id channel e.signal in
      elim skdm [
        | none ↦ (none, record e { signal = l })
        | some distribution ↦
            let (ct, m) = encrypt_for_group e.local_id channel plaintext l in
            elim ct [
              | none ↦ (none, record e { signal = m })
              | some bytes ↦ (
                some (record {
                  sender_id = sender;
                  recipient_id = channel;
                  ciphertext = bytes;
                  ciphertext_type = 4;
                  skdm = some distribution;
                }),
                record e { signal = m; sent_skdm_channels = channel ∷ e.sent_skdm_channels },
              )
            ]
      ]

  unfoldable pub encrypt_later :
      Text → Text → Text → CryptoEngine L → Option Sealed × CryptoEngine L
  encrypt_later sender channel plaintext e =
      let (ct, l) = encrypt_for_group e.local_id channel plaintext e.signal in
      elim ct [
        | none ↦ (none, record e { signal = l })
        | some bytes ↦ (
          some (record {
            sender_id = sender;
            recipient_id = channel;
            ciphertext = bytes;
            ciphertext_type = 4;
            skdm = none;
          }),
          record e { signal = l },
        )
      ]

  unfoldable pub encrypt_direct :
      Text → Text → Text → CryptoEngine L → Option Sealed × CryptoEngine L
  encrypt_direct sender recipient plaintext e =
      let (ct, l) = lib.encrypt_session recipient plaintext e.signal in
      let waiting = record e {
        pending_plaintexts = insert recipient plaintext e.pending_plaintexts;
        requested = e.requested ++ (recipient ∷ []);
      } in
      let sealed = elim ct as (λ x. Option Sealed) [
        | none ↦ none
        | some (bytes, kind) ↦ some (record {
          sender_id = sender;
          recipient_id = recipient;
          ciphertext = bytes;
          ciphertext_type = kind;
          skdm = none;
        })
      ] in
      if not (lib.has_session recipient e.signal)
      then (none, waiting)
      else if not (lib.has_cipher recipient e.signal)
      then (none, e)
      else (sealed, record e { signal = l })

  unfoldable pub encrypt : Text → Text → Text → CryptoEngine L → Option Sealed × CryptoEngine L
  unfolding encrypt_first encrypt_later encrypt_direct
  encrypt sender recipient plaintext e =
      if is_group_channel recipient
      then if is_among recipient e.sent_skdm_channels
        then encrypt_later sender recipient plaintext e
        else encrypt_first sender recipient plaintext e
      else encrypt_direct sender recipient plaintext e

  abbrev pub distributed : Sealed → L → L
  distributed env l = elim env.skdm [
    | none ↦ l
    | some skdm ↦
        if is_empty skdm then l else process_distribution env.recipient_id env.sender_id skdm l
  ]

  -- The plaintext, where there is one.
  unfoldable pub decrypt : Sealed → CryptoEngine L → Option Text × CryptoEngine L
  decrypt env e =
      let (plain, l) =
        decrypt_for_group env.recipient_id env.sender_id env.ciphertext
          (distributed env e.signal) in
      let (pre, m) = lib.decrypt_pre_key env.sender_id env.ciphertext e.signal in
      let (direct, n) = lib.decrypt_message env.sender_id env.ciphertext e.signal in
      if env.ciphertext_type == 4
      then (plain, record e { signal = l })
      else if not (lib.has_cipher env.sender_id e.signal)
      then (none, e)
      else if env.ciphertext_type == 3
      then (pre, record e { signal = m })
      else (direct, record e { signal = n })

  -- Messages of one user, one after the other, and the envelopes that go out.
  abbrev pub encrypt_all : Text → List (Text × Text) → CryptoEngine L → List Sealed × CryptoEngine L
  encrypt_all sender [] e = ([], e)
  encrypt_all sender ((recipient, plaintext) ∷ ms) e =
      let (env, next) = encrypt sender recipient plaintext e in
      let (envs, last) = encrypt_all sender ms next in (with_envelope env envs, last)

  -- Envelopes that come to one engine, one after the other, and their plaintexts.
  abbrev pub decrypt_all : List Sealed → CryptoEngine L → List (Option Text) × CryptoEngine L
  decrypt_all [] r = ([], r)
  decrypt_all (env ∷ envs) r =
      let (plain, next) = decrypt env r in
      let (plains, last) = decrypt_all envs next in (plain ∷ plains, last)
