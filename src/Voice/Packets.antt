-- ===== src/Voice/Packets.antt =====
-- src/voice/voice_engine.cpp: packets as they are built and read, and their numbers.
use ircord_client.Base.{
  ℕ, ◌+◌, ◌*◌, ◌/◌, ◌%◌, ◌^◌, ◌<◌, ◌≡◌, refl, ◌∙◌, sym, ap, subst, true, false, ◌&&◌, some, List,
  [], ◌∷◌, leb, is_empty, length, All, Text, arith,
}
use ircord_client.Base.Assoc.{Assoc}
use ircord_client.Jitter.{push}
use ircord_client.Voice.{receive_packet, Audio, PeerConn, rtp_packet, read_packet, send_to_peers}

-- A packet with Opus bytes is read as its number and these bytes.
pub read_packet-rtp_packet :
    (seq : ℕ) (opus : Text)
    → seq < 2 ^ 16
    → is_empty opus ≡ false
    → read_packet (rtp_packet seq opus) ≡ some (seq, opus)
unfolding read_packet
read_packet-rtp_packet seq [] h e = absurd (cc e)
read_packet-rtp_packet seq (c ∷ opus) h e =
    let number : seq / 2 ^ 8 % 256 * 2 ^ 8 + seq % 256 ≡ seq = omega (arith, h) in
    let long : leb (length (rtp_packet seq (c ∷ opus))) 12 ≡ false = ground arith in
    rw long (ap (λ n. some (n, c ∷ opus)) number)

next_seq : (seq : ℕ) → (seq % 2 ^ 16 + 1) % 2 ^ 16 ≡ (seq + 1) % 2 ^ 16
next_seq seq = omega arith

module _ {ℓ} {S K : Type ℓ} (audio : Audio S K) (pcm : List S) where
  -- Each of the peers is connected, has a track, and its codec makes bytes of the frame.
  abbrev pub IsReady : Text × PeerConn S K → Type 0
  IsReady (id, p) =
      ((p.connected && p.has_track) ≡ true) × (is_empty (audio.encode p.codec pcm).0 ≡ false)

  -- The packets with one number after the other, whoever gets them.
  abbrev pub numbered : ℕ → Assoc (PeerConn S K) → List (Text × Text)
  numbered seq [] = []
  numbered seq ((id, p) ∷ ps) =
      (id, rtp_packet (seq % 2 ^ 16) (audio.encode p.codec pcm).0) ∷ numbered (seq + 1) ps

  one_ready :
      (id : Text) (p : PeerConn S K) (ps : Assoc (PeerConn S K)) (seq : ℕ)
      → (p.connected && p.has_track) ≡ true
      → is_empty (audio.encode p.codec pcm).0 ≡ false
      → let r = send_to_peers audio pcm ((id, p) ∷ ps) seq in
        let later = send_to_peers audio pcm ps ((seq + 1) % 2 ^ 16) in
        (r.1 ≡ later.1) × (r.2 ≡ (id, rtp_packet seq (audio.encode p.codec pcm).0) ∷ later.2)
  unfolding send_to_peers
  one_ready id p ps seq ready bytes =
      rw (ready, send_to_peers) (rw (bytes, send_to_peers) (refl, refl))

  -- Where every peer is ready, one frame goes out once to each, and the numbers run over the peers:
  -- the i-th gets the i-th number from the last on, so that each peer's own numbers skip those of the
  -- others, and the next frame begins behind them all.
  pub send_to_peers-numbered :
      (ps : Assoc (PeerConn S K)) (seq : ℕ)
      → All IsReady ps
      → ((send_to_peers audio pcm ps (seq % 2 ^ 16)).1 ≡ (seq + length ps) % 2 ^ 16)
        × ((send_to_peers audio pcm ps (seq % 2 ^ 16)).2 ≡ numbered seq ps)
  unfolding send_to_peers
  send_to_peers-numbered [] seq h = (ground arith, refl)
  send_to_peers-numbered ((id, p) ∷ ps) seq h =
      let (n, q) = send_to_peers-numbered ps (seq + 1) h.1 in
      let first_sent = one_ready id p ps (seq % 2 ^ 16) h.0.0 h.0.1 in
      let later =
        subst
          (λ k.
            ((send_to_peers audio pcm ps k).1 ≡ (seq + 1 + length ps) % 2 ^ 16)
            × ((send_to_peers audio pcm ps k).2 ≡ numbered (seq + 1) ps))
          (sym (next_seq seq)) (n, q) in
      (
        first_sent.0 ∙ later.0 ∙ ap (λ k. k % 2 ^ 16) (omega arith),
        first_sent.1
            ∙ ap (λ l. (id, rtp_packet (seq % 2 ^ 16) (audio.encode p.codec pcm).0) ∷ l) later.1,
      )

module _ {ℓ} {S K : Type ℓ} (audio : Audio S K) where
  -- A message on a peer's track that was built from Opus bytes puts their decoded samples into the
  -- peer's jitter buffer under the number it was built with, and moves the codec on.
  pub receive_packet-rtp_packet :
      (now seq : ℕ) (opus : Text) (p : PeerConn S K)
      → seq < 2 ^ 16
      → is_empty opus ≡ false
      → ((receive_packet audio now (rtp_packet seq opus) p).jitter_buf
          ≡ push seq (audio.decode p.codec opus).0 p.jitter_buf)
        × ((receive_packet audio now (rtp_packet seq opus) p).codec ≡ (audio.decode p.codec opus).1)
  receive_packet-rtp_packet now seq opus p h e =
      rw (read_packet-rtp_packet seq opus h e, receive_packet) (refl, refl)
