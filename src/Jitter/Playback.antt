-- ===== src/Jitter/Playback.antt =====
-- Which frames are played, and when.
use ircord_client.Base.{
  ℕ, zero, suc, ◌+◌, ◌%◌, ◌^◌, ◌≤◌, ◌<◌, ◌≡◌, refl, ap, ◌∙◌, true, false, Option, some, List, [],
  ◌∷◌, length, arith,
}
use ircord_client.Jitter.{
  JitterBuffer, push, pop, prime, trim, store, remove, frame_at, is_outside, window_size, next_of,
}
use ircord_client.Jitter.Keys.{IsAbove, frame_at-store, frame_at-remove, length-store, trim_short}

-- Inside the window is what is at most 32 frames ahead.
ahead-is_outside : (s d : ℕ) → s < 65536 → d ≤ 32 → is_outside ((s + d) % 2 ^ 16) s ≡ false
unfolding is_outside
ahead-is_outside s d l h = ground arith

module _ {ℓ} {Pcm : Type ℓ} where
  -- The buffer after `n` pops.
  abbrev pub pop_times : ℕ → JitterBuffer Pcm → JitterBuffer Pcm
  pop_times zero b = b
  pop_times (suc n) b = pop_times n ((pop b).1)

  -- The frames that `n` pops give.
  abbrev pub played : ℕ → JitterBuffer Pcm → List (Option Pcm)
  played zero b = []
  played (suc n) b = (pop b).0 ∷ played n ((pop b).1)

  pub pop_primed :
      (b : JitterBuffer Pcm)
      → b.primed ≡ true
      → pop b ≡ (
        frame_at b.next_seq b.frames,
        record b { frames = remove b.next_seq b.frames; next_seq = next_of b.next_seq },
      )
  unfolding pop
  pop_primed b p = ground arith

  -- A frame in the buffer comes out when its number is next, after as many pops as it is ahead.
  played_in_turn :
      (d : ℕ) (b : JitterBuffer Pcm)
      → d < 65536
      → b.primed ≡ true
      → b.next_seq < 65536
      → (pop (pop_times d b)).0 ≡ frame_at ((b.next_seq + d) % 2 ^ 16) b.frames
  played_in_turn zero b l p n =
      ap (λ r. r.0) (pop_primed b p) ∙ ap (λ s. frame_at s b.frames) (omega arith)
  played_in_turn (suc d) b l p n =
      ap (λ r. (pop (pop_times d r.1)).0) (pop_primed b p)
      ∙ played_in_turn d
          (record b { frames = remove b.next_seq b.frames; next_seq = next_of b.next_seq })
          (omega arith) p (omega arith)
      ∙ frame_at-remove b.next_seq ((next_of b.next_seq + d) % 2 ^ 16) b.frames (omega arith)
      ∙ ap (λ s. frame_at s b.frames) (omega arith)

  push_inside :
      (d : ℕ) (pcm : Pcm) (b : JitterBuffer Pcm)
      → d ≤ 32
      → b.primed ≡ true
      → b.next_seq < 65536
      → length b.frames < 16
      → push ((b.next_seq + d) % 2 ^ 16) pcm b
        ≡ record b { frames = store ((b.next_seq + d) % 2 ^ 16) pcm b.frames }
  unfolding push prime
  push_inside d pcm b h p n room =
      let s = (b.next_seq + d) % 2 ^ 16 in
      rw
        (
          p,
          ahead-is_outside b.next_seq d n h,
          trim_short (store s pcm b.frames) (omega (arith, length-store s pcm b.frames, room)),
        )
        (ground arith)

  -- A frame pushed into a primed buffer that is not full, up to 32 frames ahead of the one to be
  -- played next, is what `pop` gives after as many pops as it is ahead: across the wrap of the
  -- sequence numbers too, and whether or not the frames before it came.
  pub pop-pop_times-push :
      (d : ℕ) (pcm : Pcm) (b : JitterBuffer Pcm)
      → d ≤ 32
      → b.primed ≡ true
      → b.next_seq < 65536
      → length b.frames < 16
      → (pop (pop_times d (push ((b.next_seq + d) % 2 ^ 16) pcm b))).0 ≡ some pcm
  pop-pop_times-push d pcm b h p n room =
      let s = (b.next_seq + d) % 2 ^ 16 in
      rw (push_inside d pcm b h p n room) (
        played_in_turn d (record b { frames = store s pcm b.frames }) (omega (arith, h)) p n
        ∙ rw frame_at-store (ground arith))

  store_lowest :
      (seq : ℕ) (pcm : Pcm) (fs : List (ℕ × Pcm))
      → IsAbove (suc seq) fs
      → store seq pcm fs ≡ (seq, pcm) ∷ fs
  unfolding store
  store_lowest seq pcm [] h = refl
  store_lowest seq pcm ((k, q) ∷ fs) h = ground (arith, h.0)

  trim_full : (f : ℕ × Pcm) (fs : List (ℕ × Pcm)) → length fs ≡ window_size → trim (f ∷ fs) ≡ fs
  unfolding trim
  trim_full f fs e = rw (trim_short fs (omega arith)) (ground arith)

  -- A primed buffer with 16 frames under higher keys loses any frame that comes with a lower one, the
  -- newest frame after a wrap of the sequence numbers too: `push` leaves the buffer as it was.
  pub push_wrapped :
      (seq : ℕ) (pcm : Pcm) (b : JitterBuffer Pcm)
      → b.primed ≡ true
      → length b.frames ≡ 16
      → IsAbove (suc seq) b.frames
      → push seq pcm b ≡ b
  unfolding push prime
  push_wrapped seq pcm b p full above =
      rw (store_lowest seq pcm b.frames above, trim_full (seq, pcm) b.frames full) (ground arith)
