-- ===== src/Voice/Rtp.antt =====
-- The RTP packets of src/voice/voice_engine.cpp: a header of 12 bytes and the Opus bytes.
use ircord_client.Base.{
  ℕ, ◌+◌, ◌*◌, ◌/◌, ◌%◌, ◌^◌, Option, none, some, ◌∷◌, if◌then◌else◌, leb, length, drop, Text,
}

abbrev pub rtp_packet : ℕ → Text → Text
rtp_packet seq opus =
    0x80 ∷ 0x6F ∷ seq / 2 ^ 8 % 256 ∷ seq % 256 ∷ 0 ∷ 0 ∷ 0 ∷ 0 ∷ 0 ∷ 0 ∷ 0 ∷ 0 ∷ opus

-- The number in the third and fourth byte, and what follows the header.
abbrev pub header_seq : Text → ℕ
header_seq (a ∷ b ∷ high ∷ low ∷ rest) = high * 2 ^ 8 + low
header_seq _ = 0

unfoldable pub read_packet : Text → Option (ℕ × Text)
read_packet packet =
    if leb (length packet) 12 then none else some (header_seq packet, drop 12 packet)
