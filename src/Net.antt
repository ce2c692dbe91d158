-- ===== src/Net.antt =====
-- src/net/net_client.cpp and net_client.hpp: frames on the wire, the reconnect loop, the writer of the
-- outbound queue, and the pinned certificate. Sockets, TLS and protobuf are not part of this code: what
-- was received is a list of bytes, and a serialised envelope is one.
pub mod Frames
pub mod Backoff
pub mod Queue
pub mod Pin
mod Tests
use ircord_client.Base.{
  ℕ, zero, suc, ◌+◌, ◌*◌, ◌/◌, ◌%◌, ◌^◌, min, Bool, true, false, not, ◌&&◌, ◌||◌, Option, none,
  some, List, [], ◌∷◌, ◌++◌, ltb, leb, ◌==◌, if◌then◌else◌, length, take, drop, is_empty, Text,
  codes, text_eq,
}

-- kMaxFrameSize
abbrev pub max_frame_size : ℕ
max_frame_size = 65536

-- The four bytes of `size_be`, which is a 32-bit number.
unfoldable pub header : ℕ → Text
header n = n / 2 ^ 24 % 256 ∷ n / 2 ^ 16 % 256 ∷ n / 2 ^ 8 % 256 ∷ n % 256 ∷ []

-- What `send` posts to the queue for a serialised envelope: nothing if that is too long.
unfoldable pub frame_of : Text → Option Text
unfolding header
frame_of body =
    if ltb max_frame_size (length body) then none else some (header (length body) ++ body)

-- `payload_size` of a header; on bytes `|` of the shifted ones is their sum.
unfoldable pub size_of : ℕ → ℕ → ℕ → ℕ → ℕ
size_of a b c d = a * 2 ^ 24 + b * 2 ^ 16 + c * 2 ^ 8 + d

-- How `read_loop` stands when the bytes are used up: it waits for more of them, or has thrown.
pub data Reading : Type 0 where
  waits : Text → Reading
  throws : ℕ → Reading

-- `read_loop` on what was received: the payloads in order, and how it stands then. Each frame takes
-- four bytes at least, so the number of bytes is fuel enough.
unfoldable pub read_frames : ℕ → Text → List Text × Reading
unfolding size_of
read_frames zero bytes = ([], waits bytes)
read_frames (suc fuel) (a ∷ b ∷ c ∷ d ∷ rest) =
    let size = size_of a b c d in
    let (later, state) = read_frames fuel (drop size rest) in
    if size == 0 || ltb max_frame_size size
    then ([], throws size)
    else if ltb (length rest) size
    then ([], waits (a ∷ b ∷ c ∷ d ∷ rest))
    else (take size rest ∷ later, state)
read_frames (suc fuel) bytes = ([], waits bytes)

unfoldable pub read_loop : Text → List Text × Reading
unfolding read_frames
read_loop bytes = read_frames (length bytes) bytes

-- The messages that `on_message` gets: a payload that does not parse is left out. `parse` is
-- `ParseFromArray`.
unfoldable pub messages {ℓ} :
    {Envelope : Type ℓ} → (Text → Option Envelope) → List Text → List Envelope
messages parse [] = []
messages parse (p ∷ ps) = elim (parse p) [
  | none ↦ messages parse ps
  | some e ↦ e ∷ messages parse ps
]

-- The fields of the reconnect loop, in seconds and attempts.
pub record Reconnect : Type 0 where
  pub delay : ℕ
  pub attempt : ℕ
  pub waited : ℕ
  pub connected : Bool

abbrev pub start : Reconnect
start = record { delay = 1; attempt = 1; waited = 0; connected = false }

-- `connect_once` up to `on_connected`.
unfoldable pub connects : Reconnect → Reconnect
connects r = record { delay = 1; attempt = 1; waited = 0; connected = true }

-- The rest of a round of `run`: the connection has ended or was not made, and the timer has expired.
unfoldable pub retries : Reconnect → Reconnect
retries r = record {
  delay = min (r.delay * 2) 60;
  attempt = r.attempt + 1;
  waited = r.waited + r.delay;
  connected = false;
}

-- Where `write_loop` stands on the strand.
pub data Phase : Type 0 where
  absent waiting draining : Phase

-- `written` is what the socket of this connection got, oldest first.
pub record Writer : Type 0 where
  pub queue : List Text
  pub phase : Phase
  pub written : List Text

-- What runs on the strand, one at a time: the handler that `send` posts, a step of `write_loop`, its
-- start with a new connection, and its end with the connection.
pub data Turn : Type 0 where
  posts : Text → Turn
  writes opens closes : Turn

abbrev pub wake : Phase → Phase
wake waiting = draining
wake p = p

-- One step of a drain: the next frame, or back to waiting.
unfoldable pub write_step : Writer → Writer
write_step w = elim w.phase [
  | absent ↦ w
  | waiting ↦ w
  | draining ↦ elim w.queue [
    | [] ↦ record w { phase = waiting }
    | f ∷ rest ↦ record w { queue = rest; written = w.written ++ (f ∷ []) }
  ]
]

unfoldable pub turn : Turn → Writer → Writer
unfolding write_step
turn (posts frame) w = record w { queue = w.queue ++ (frame ∷ []); phase = wake w.phase }
turn writes w = write_step w
turn opens w = record w { phase = waiting; written = [] }
turn closes w = record w { phase = absent }

abbrev pub turns : List Turn → Writer → Writer
turns [] w = w
turns (t ∷ ts) w = turns ts (turn t w)

abbrev pub hex_digit : ℕ → ℕ
hex_digit n = if ltb n 10 then 48 + n else 87 + n

-- `std::hex << std::setw(2) << std::setfill('0')` of a byte.
abbrev pub hex_byte : ℕ → Text
hex_byte b = hex_digit (b / 16) ∷ hex_digit (b % 16) ∷ []

-- The bytes of a digest, a colon between them.
unfoldable pub fingerprint : Text → Text
fingerprint [] = []
fingerprint (b ∷ []) = hex_byte b
fingerprint (b ∷ c ∷ bs) = hex_byte b ++ (codes ":" ++ fingerprint (c ∷ bs))

-- `cert_fingerprint_sha256` on the digest of the certificate, if the server gave one.
unfoldable pub cert_fingerprint : Option Text → Text
unfolding fingerprint
cert_fingerprint none = []
cert_fingerprint (some digest) = fingerprint digest

unfoldable pub verify_cert_pin : Bool → Text → Option Text → Bool
unfolding cert_fingerprint
verify_cert_pin verify_peer cert_pin digest =
    let fp = cert_fingerprint digest in
    if not verify_peer
    then true
    else if is_empty fp
    then false
    else if is_empty cert_pin
    then true
    else text_eq fp cert_pin
