-- ===== src/Jitter/Bounds.antt =====
-- What the jitter buffer keeps: its size, the order of its keys, 16-bit numbers.
use ircord_client.Base.{
  inl, inr, ℕ, ◌≤◌, ◌<◌, not, ◌&&◌, List, [], ◌∷◌, leb, length, arith, Bool-cases,
}
use ircord_client.Jitter.{
  JitterBuffer, Call, act, run, new, push, pop, reset, prime, trim, store, is_outside, first_key,
  pushes, pops, resets,
}
use ircord_client.Jitter.Keys.{
  IsAbove, store-IsAbove, remove-IsAbove, trim-IsAbove, length-trim, length-remove,
}

module _ {ℓ} {Pcm : Type ℓ} where
  -- At most 16 frames under ascending 16-bit keys, and a 16-bit position.
  abbrev pub IsWindow : JitterBuffer Pcm → Type 0
  IsWindow b = (length b.frames ≤ 16) × IsAbove 0 b.frames × (b.next_seq < 65536)

  -- The sequence numbers that come in are 16-bit numbers.
  abbrev pub IsCall : Call Pcm → Type 0
  IsCall (pushes seq pcm) = seq < 65536
  IsCall _ = Unit {0}

  abbrev pub AreCalls : List (Call Pcm) → Type 0
  AreCalls [] = Unit {0}
  AreCalls (c ∷ cs) = IsCall c × AreCalls cs

  first_key_bound : (fs : List (ℕ × Pcm)) → IsAbove 0 fs → first_key fs < 65536
  first_key_bound [] h = omega arith
  first_key_bound ((k, q) ∷ fs) h = h.1

  prime-IsWindow : (b : JitterBuffer Pcm) → IsWindow b → IsWindow (prime b)
  unfolding prime
  prime-IsWindow b h = elim (Bool-cases (not b.primed && leb b.target_delay (length b.frames))) [
    | inl e ↦ rw e (h.0, h.1, first_key_bound b.frames h.1)
    | inr e ↦ rw e h
  ]

  push-IsWindow :
      (seq : ℕ) (pcm : Pcm) (b : JitterBuffer Pcm)
      → seq < 65536
      → IsWindow b
      → IsWindow (push seq pcm b)
  unfolding push
  push-IsWindow seq pcm b l h = elim (Bool-cases (b.primed && is_outside seq b.next_seq)) [
    | inl e ↦ rw e h
    | inr e ↦ rw e (
        prime-IsWindow (record b { frames = trim (store seq pcm b.frames) })
          (
            length-trim (store seq pcm b.frames),
            trim-IsAbove 0 (store seq pcm b.frames)
                (store-IsAbove 0 seq pcm b.frames (omega arith) l h.1),
            h.2,
          ))
  ]

  pop-IsWindow : (b : JitterBuffer Pcm) → IsWindow b → IsWindow ((pop b).1)
  unfolding pop
  pop-IsWindow b h = elim (Bool-cases b.primed) [
    | inl e ↦ rw e (
      omega (arith, length-remove b.next_seq b.frames, h.0),
      remove-IsAbove 0 b.next_seq b.frames h.1,
      omega arith,
    )
    | inr e ↦ rw e h
  ]

  act-IsWindow : (c : Call Pcm) (b : JitterBuffer Pcm) → IsCall c → IsWindow b → IsWindow (act c b)
  unfolding act reset
  act-IsWindow (pushes seq pcm) b l h = push-IsWindow seq pcm b l h
  act-IsWindow pops b l h = pop-IsWindow b h
  act-IsWindow resets b l h = (omega arith, tt, omega arith)

  run-IsWindow :
      (cs : List (Call Pcm)) (b : JitterBuffer Pcm) → AreCalls cs → IsWindow b → IsWindow (run b cs)
  run-IsWindow [] b l h = h
  run-IsWindow (c ∷ cs) b l h = run-IsWindow cs (act c b) l.1 (act-IsWindow c b l.0 h)

  -- After any calls with 16-bit sequence numbers on a new buffer it holds at most 16 frames, each
  -- key once and in ascending order, and the next number to play is a 16-bit number.
  pub run-new-IsWindow :
      (delay : ℕ) (cs : List (Call Pcm)) → AreCalls cs → IsWindow (run (new delay) cs)
  run-new-IsWindow delay cs l = run-IsWindow cs (new delay) l (omega arith, tt, omega arith)
