-- ===== src/Crypto/Tests.antt =====
-- src/crypto/crypto_engine.cpp: runs with a small library.
use ircord_client.Base.{
  subst, sym, is_empty, text_eq_refl, ◌≡◌, refl, true, false, some, none, List, [], ◌∷◌, Text,
  codes, text_eq, is_among,
}
use ircord_client.Crypto.{
  decrypt_all, encrypt, encrypt_first, encrypt_later, Signal, CryptoEngine, encrypt, encrypt_all,
}
use ircord_client.Crypto.Skdm.{carries, encrypt_all-carries}
use ircord_client.Crypto.Delivery.{to_channel, decrypt_all-encrypt_all}
use ircord_client.Crypto.Steps.{SenderKeys}
use ircord_client.Base.Assoc.{or_default}

-- A library that hides nothing: its state is the list of the channels whose key it has.
abbrev plain_signal : Signal (List Text)
plain_signal = record {
  builds = λ l. true;
  start_session = λ channel user l. (some (codes "key"), channel ∷ l);
  reads_distribution = λ skdm l. true;
  process_session = λ channel user skdm l. channel ∷ l;
  has_group_cipher = λ channel user l. is_among channel l;
  encrypt_group = λ channel user plaintext l. (some plaintext, l);
  decrypt_group = λ channel user ciphertext l. (some ciphertext, l);
  has_session = λ user l. false;
  has_cipher = λ user l. true;
  encrypt_session = λ user plaintext l. (none, l);
  decrypt_pre_key = λ user ciphertext l. (none, l);
  decrypt_message = λ user ciphertext l. (none, l);
}

abbrev fresh_engine : CryptoEngine (List Text)
fresh_engine = record {
  signal = [];
  local_id = codes "me";
  sent_skdm_channels = [];
  pending_plaintexts = [];
  requested = [];
}

abbrev three_messages : List (Text × Text)
three_messages =
    (codes "#den", codes "a") ∷ (codes "bob", codes "b") ∷ (codes "#den", codes "c") ∷ []

abbrev two_texts : List Text
two_texts = codes "a" ∷ codes "c" ∷ []

encrypt_all-carries_example :
    carries false
      (codes "#den")
      (encrypt_all plain_signal (codes "me") three_messages fresh_engine).0
    ≡ true
encrypt_all-carries_example =
    encrypt_all-carries plain_signal (codes "me") three_messages fresh_engine (codes "#den") refl

-- Whoever has the key of the channel decrypts.
plain_keys : SenderKeys plain_signal
unfolding text_eq
plain_keys = record {
  Tuned = λ c u s r. is_among c r ≡ true;
  builder = λ r. refl;
  distribution = λ c u d s r h. (subst (λ o. is_empty (or_default [] o) ≡ false) h refl, refl);
  tunes = λ c u d s r h. (rw (text_eq_refl c) refl);
  ready = λ c u s r t. t;
  reverses = λ c u p ct s r t h. (sym h, t);
  stays = λ c u p s r t h. t;
}

decrypt_all-encrypt_all_example :
    (decrypt_all plain_signal
      (encrypt_all plain_signal (codes "me") (to_channel (codes "#den") two_texts) fresh_engine).0
      fresh_engine).0
    ≡ some (codes "a") ∷ some (codes "c") ∷ []
unfolding encrypt encrypt_first encrypt_later text_eq
decrypt_all-encrypt_all_example =
    decrypt_all-encrypt_all plain_signal plain_keys (codes "#den") two_texts fresh_engine
      fresh_engine refl refl
