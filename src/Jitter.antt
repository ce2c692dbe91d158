-- ===== src/Jitter.antt =====
-- src/voice/jitter_buffer.cpp and jitter_buffer.hpp: the reorder buffer of one voice sender.
-- `frames_` is a `std::map` from 16-bit numbers: a list of entries in the order of their keys. Keys
-- and `next_seq_` are below 2^16; a frame is a value of any type.
pub mod Keys
pub mod Bounds
pub mod Playback
pub mod Arrival
mod Tests
use ircord_client.Base.{
  ℕ, zero, suc, ◌+◌, ◌-◌, ◌%◌, ◌^◌, Bool, true, false, not, ◌&&◌, Option, none, some, List, [], ◌∷◌,
  ltb, leb, ◌==◌, if◌then◌else◌, length,
}

-- kWindowSize
abbrev pub window_size : ℕ
window_size = 16

abbrev pub next_of : ℕ → ℕ
next_of seq = (seq + 1) % 2 ^ 16

-- `diff < -kWindowSize || diff > kWindowSize * 2` for `diff` the difference as an `int16_t`: as a
-- 16-bit number it is negative from 2^15 on.
unfoldable pub is_outside : ℕ → ℕ → Bool
is_outside seq next_seq =
    let diff = (seq + (2 ^ 16 - next_seq)) % 2 ^ 16 in
    if ltb diff (2 ^ 15)
    then ltb (window_size + window_size) diff
    else ltb diff (2 ^ 16 - window_size)

module _ {ℓ} {Pcm : Type ℓ} where
  -- `frames_.find(seq)`
  unfoldable pub frame_at : ℕ → List (ℕ × Pcm) → Option Pcm
  frame_at seq [] = none
  frame_at seq ((k, pcm) ∷ fs) = if k == seq then some pcm else frame_at seq fs

  -- `frames_[seq] = pcm`
  unfoldable pub store : ℕ → Pcm → List (ℕ × Pcm) → List (ℕ × Pcm)
  store seq pcm [] = (seq, pcm) ∷ []
  store seq pcm ((k, q) ∷ fs) =
      if seq == k
      then (k, pcm) ∷ fs
      else if ltb seq k
      then (seq, pcm) ∷ (k, q) ∷ fs
      else (k, q) ∷ store seq pcm fs

  -- `frames_.erase(it)` for the entry of this key.
  unfoldable pub remove : ℕ → List (ℕ × Pcm) → List (ℕ × Pcm)
  remove seq [] = []
  remove seq ((k, q) ∷ fs) = if k == seq then fs else (k, q) ∷ remove seq fs

  -- The `while` loop of `push`: erase the smallest key until there are few enough.
  unfoldable pub trim : List (ℕ × Pcm) → List (ℕ × Pcm)
  trim [] = []
  trim (f ∷ fs) = let rest = trim fs in if ltb window_size (length (f ∷ fs)) then rest else f ∷ fs

pub record JitterBuffer {ℓ} (Pcm : Type ℓ) : Type ℓ where
  pub frames : List (ℕ × Pcm)
  pub next_seq : ℕ
  pub primed : Bool
  pub target_delay : ℕ

-- `JitterBuffer(target_delay_frames)`; a negative delay acts like 0.
module _ {ℓ} {Pcm : Type ℓ} where
  abbrev pub new : ℕ → JitterBuffer Pcm
  new delay = record { frames = []; next_seq = 0; primed = false; target_delay = delay }

  -- `frames_.begin()->first`; the code asks for it only where a frame is there.
  abbrev pub first_key : List (ℕ × Pcm) → ℕ
  first_key [] = 0
  first_key ((k, q) ∷ fs) = k

  unfoldable pub prime : JitterBuffer Pcm → JitterBuffer Pcm
  prime b =
      if not b.primed && leb b.target_delay (length b.frames)
      then record b { primed = true; next_seq = first_key b.frames }
      else b

  unfoldable pub push : ℕ → Pcm → JitterBuffer Pcm → JitterBuffer Pcm
  unfolding prime
  push seq pcm b =
      if b.primed && is_outside seq b.next_seq
      then b
      else prime (record b { frames = trim (store seq pcm b.frames) })

  unfoldable pub pop : JitterBuffer Pcm → Option Pcm × JitterBuffer Pcm
  pop b =
      if b.primed
      then (
        frame_at b.next_seq b.frames,
        record b { frames = remove b.next_seq b.frames; next_seq = next_of b.next_seq },
      )
      else (none, b)

  unfoldable pub reset : JitterBuffer Pcm → JitterBuffer Pcm
  reset b = record b { frames = []; primed = false; next_seq = 0 }

  unfoldable pub buffered_count : JitterBuffer Pcm → ℕ
  buffered_count b = length b.frames

-- Every call that changes the buffer.
pub data Call {ℓ} (Pcm : Type ℓ) : Type ℓ where
  pushes : ℕ → Pcm → Call Pcm
  pops resets : Call Pcm

module _ {ℓ} {Pcm : Type ℓ} where
  unfoldable pub act : Call Pcm → JitterBuffer Pcm → JitterBuffer Pcm
  act (pushes seq pcm) b = push seq pcm b
  act pops b = (pop b).1
  act resets b = reset b

  abbrev pub run : JitterBuffer Pcm → List (Call Pcm) → JitterBuffer Pcm
  run b [] = b
  run b (c ∷ cs) = run (act c b) cs
