-- ===== src/Net/Tests.antt =====
-- Runs of the network client, and each theorem at an input that meets its hypotheses.
use ircord_client.Base.{
  ◌+◌, ◌^◌, ◌≡◌, min, refl, none, some, List, [], ◌∷◌, ◌++◌, Text, codes, arith,
}
use ircord_client.Net.{
  read_loop, waits, throws, fingerprint, Writer, Turn, absent, posts, writes, opens, turn, turns,
  connects, start, write_step, read_frames, size_of, frame_of, header, messages,
}
use ircord_client.Net.Frames.{framed, Conserves, read_loop-framed, read_loop-Conserves}
use ircord_client.Net.Backoff.{retries_times, total_wait, retries_times-connects}
use ircord_client.Net.Queue.{write_times, write_times-turns, turns_stranded}

-- Two frames and the begin of a third.
two_and_a_bit :
    read_loop (0 ∷ 0 ∷ 0 ∷ 1 ∷ 7 ∷ 0 ∷ 0 ∷ 0 ∷ 2 ∷ 8 ∷ 9 ∷ 0 ∷ [])
    ≡ ((7 ∷ []) ∷ (8 ∷ 9 ∷ []) ∷ [], waits (0 ∷ []))
unfolding read_loop read_frames size_of
two_and_a_bit = refl

-- An empty body is framed, and its frame ends the reading.
empty_body : read_loop (framed ([] ∷ [])) ≡ ([], throws 0)
unfolding read_loop read_frames size_of frame_of header
empty_body = refl

skips_unread :
    messages (λ p. elim p [ [] ↦ none | c ∷ r ↦ some c ]) ((5 ∷ []) ∷ [] ∷ (6 ∷ []) ∷ [])
    ≡ 5 ∷ 6 ∷ []
unfolding messages
skips_unread = refl

read_loop-framed_example :
    read_loop (framed (codes "hi" ∷ codes "there" ∷ []) ++ (0 ∷ []))
    ≡ ((codes "hi" ∷ codes "there" ∷ []) ++ (read_loop (0 ∷ [])).0, (read_loop (0 ∷ [])).1)
read_loop-framed_example =
    read_loop-framed (codes "hi" ∷ codes "there" ∷ []) (0 ∷ [])
      ((omega arith, omega arith), ((omega arith, omega arith), tt))

abbrev received : Text
received = 0 ∷ 0 ∷ 0 ∷ 1 ∷ 7 ∷ 0 ∷ []

read_loop-Conserves_example : Conserves received (read_loop received)
read_loop-Conserves_example =
    read_loop-Conserves received
      (omega arith, (omega arith, (omega arith, (omega arith, (omega arith, (omega arith, tt))))))

retries_times-connects_example :
    let s = retries_times 7 (connects start) in
    (s.delay ≡ min (2 ^ 7) 60) × (s.attempt ≡ 7 + 1) × (s.waited ≡ total_wait 7)
retries_times-connects_example = retries_times-connects 7 start

abbrev calls : List Turn
calls = posts (codes "a") ∷ writes ∷ posts (codes "b") ∷ []

abbrev closed : List Text → Writer
closed q = record { queue = q; phase = absent; written = [] }

write_times-turns_example :
    (write_times 2 (turns calls (turn opens (closed [])))).written ≡ codes "a" ∷ codes "b" ∷ []
unfolding turn write_step
write_times-turns_example =
    write_times-turns calls (closed []) 2 refl (tt, (tt, (tt, tt))) (omega arith)

turns_stranded_example :
    let w = closed (codes "a" ∷ []) in
    let after = turns (writes ∷ writes ∷ []) (turn opens w) in
    (after.queue ≡ w.queue) × (after.written ≡ [])
turns_stranded_example =
    turns_stranded (writes ∷ writes ∷ []) (closed (codes "a" ∷ [])) (tt, (tt, tt))

abbrev pinned : Text
pinned = 171 ∷ 5 ∷ []

abbrev other : Text
other = 171 ∷ 6 ∷ []

printed : fingerprint (171 ∷ 5 ∷ []) ≡ codes "ab:05"
unfolding fingerprint
printed = refl
