-- ===== src/Jitter/Tests.antt =====
-- Runs of the jitter buffer, and each theorem at an input that meets its hypotheses.
use ircord_client.Base.{
  ℕ, zero, suc, false, ◌+◌, ◌%◌, ◌^◌, ◌≤◌, ◌≡◌, refl, true, none, some, List, [], ◌∷◌, arith,
}
use ircord_client.Jitter.{
  JitterBuffer, Call, push, pop, new, run, pushes, prime, trim, store, frame_at, remove, is_outside,
  act,
}
use ircord_client.Jitter.Keys.{IsAbove}
use ircord_client.Jitter.Arrival.{push_all, played-push_all}
use ircord_client.Jitter.Playback.{pop_times, played, pop-pop_times-push}

abbrev arrivals : List (Call ℕ)
arrivals = pushes 6 60 ∷ pushes 5 50 ∷ pushes 8 80 ∷ []

abbrev arrived : JitterBuffer ℕ
arrived = run (new 2) arrivals

-- Frames 5, 6 and 8 came, 6 first: they are played in order, with a gap at 7.
in_order : played 4 arrived ≡ some 50 ∷ some 60 ∷ none ∷ some 80 ∷ []
unfolding act push prime trim store frame_at remove pop is_outside
in_order = refl

-- Two numbers before the wrap.
abbrev late : JitterBuffer ℕ
late = record { frames = (65534, 1) ∷ []; next_seq = 65534; primed = true; target_delay = 1 }

pop-pop_times-push_example : (pop (pop_times 3 (push ((65534 + 3) % 2 ^ 16) 7 late))).0 ≡ some 7
pop-pop_times-push_example =
    pop-pop_times-push 3 7 late (omega arith) refl (omega arith) (omega arith)

abbrev from_key : ℕ → ℕ → List (ℕ × ℕ)
from_key k zero = []
from_key k (suc n) = (k, k) ∷ from_key (suc k) n

-- The last 16 numbers before the wrap are all here.
abbrev full : JitterBuffer ℕ
full = record { frames = from_key 65520 16; next_seq = 65520; primed = true; target_delay = 2 }

from_key-IsAbove : (n k count : ℕ) → n ≤ k → k + count ≤ 65536 → IsAbove n (from_key k count)
from_key-IsAbove n k zero h l = tt
from_key-IsAbove n k (suc count) h l =
    (h, omega arith, from_key-IsAbove (suc k) (suc k) count (omega arith) (omega arith))

-- The number 0 is inside the window of this buffer, 16 ahead of the next to be played.
zero_inside : is_outside 0 65520 ≡ false
unfolding is_outside
zero_inside = refl

abbrev by_number : List (ℕ × ℕ)
by_number = (5, 50) ∷ (6, 60) ∷ (7, 70) ∷ []

abbrev as_they_came : List (ℕ × ℕ)
as_they_came = (7, 70) ∷ (5, 50) ∷ (6, 60) ∷ []

played-push_all_example :
    played 3 (push_all as_they_came (new 3)) ≡ some 50 ∷ some 60 ∷ some 70 ∷ []
played-push_all_example =
    played-push_all 5 by_number as_they_came (refl, (refl, (refl, tt))) (omega arith) (omega arith)
      (unfold frame_at in (refl, omega arith, (refl, omega arith, (refl, omega arith, tt)))) refl
      (λ k. unfold frame_at in ground arith)
