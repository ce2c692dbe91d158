-- ===== src/Net/Queue.antt =====
-- The outbound queue: what is posted is written, in order, or stays behind.
use ircord_client.Base.{
  subst, ℕ, zero, suc, ◌<◌, ◌≡◌, refl, ap, sym, ◌∙◌, List, [], ◌∷◌, ◌++◌, length, All, Text, arith,
}
use mathlib.Core.List.{append-nil, append_assoc}
use ircord_client.Net.{
  Writer, Phase, Turn, absent, waiting, draining, posts, writes, opens, closes, turn, turns,
  write_step, wake,
}

-- A turn while a connection lasts.
abbrev pub IsWithin : Turn → Type 0
IsWithin (posts f) = Unit {0}
IsWithin writes = Unit {0}
IsWithin _ = ⊥

abbrev pub IsWrite : Turn → Type 0
IsWrite writes = Unit {0}
IsWrite _ = ⊥

-- The frames posted in these turns.
abbrev pub posted : List Turn → List Text
posted [] = []
posted (posts f ∷ ts) = f ∷ posted ts
posted (t ∷ ts) = posted ts

-- A waiting writer has an empty queue, and the writer is there.
abbrev pub IsAwake : Phase → List Text → Type 0
IsAwake absent q = ⊥
IsAwake waiting q = q ≡ []
IsAwake draining q = Unit {0}

-- What was written and what is queued are these frames, and none is waited on.
abbrev pub IsServing : List Text → Writer → Type 0
IsServing sent w = (w.written ++ w.queue ≡ sent) × IsAwake w.phase w.queue

wake-IsAwake : (p : Phase) (q q' : List Text) → IsAwake p q → IsAwake (wake p) q'
wake-IsAwake absent q q' h = absurd h
wake-IsAwake waiting q q' h = tt
wake-IsAwake draining q q' h = tt

write_step-IsServing :
    (sent : List Text) (w : Writer) → IsServing sent w → IsServing sent (write_step w)
unfolding write_step
write_step-IsServing sent w h = by_state w.phase w.queue w.written h.0 h.1
  where
    by_state :
        (p : Phase) (q done : List Text)
        → done ++ q ≡ sent
        → IsAwake p q
        → IsServing sent (write_step (record { queue = q; phase = p; written = done }))
    by_state absent q done e a = absurd a
    by_state waiting q done e a = (e, a)
    by_state draining [] done e a = (e, refl)
    by_state draining (f ∷ q) done e a = (append_assoc done (f ∷ []) q ∙ e, tt)

posts-IsServing :
    (sent : List Text) (f : Text) (w : Writer)
    → IsServing sent w
    → IsServing (sent ++ (f ∷ [])) (turn (posts f) w)
unfolding turn
posts-IsServing sent f w h = (
  sym (append_assoc w.written w.queue (f ∷ [])) ∙ ap (◌++ (f ∷ [])) h.0,
  wake-IsAwake w.phase w.queue (w.queue ++ (f ∷ [])) h.1,
)

turns-IsServing :
    (ts : List Turn) (sent : List Text) (w : Writer)
    → All IsWithin ts
    → IsServing sent w
    → IsServing (sent ++ posted ts) (turns ts w)
unfolding turn
turns-IsServing [] sent w h s = (s.0 ∙ sym (append-nil sent), s.1)
turns-IsServing (posts f ∷ ts) sent w h s =
    subst (λ l. IsServing l (turns ts (turn (posts f) w))) (append_assoc sent (f ∷ []) (posted ts))
      (turns-IsServing ts (sent ++ (f ∷ [])) (turn (posts f) w) h.1 (posts-IsServing sent f w s))
turns-IsServing (writes ∷ ts) sent w h s =
    turns-IsServing ts sent (write_step w) h.1 (write_step-IsServing sent w s)
turns-IsServing (opens ∷ ts) sent w h s = absurd h.0
turns-IsServing (closes ∷ ts) sent w h s = absurd h.0

-- `n` steps of the writer.
abbrev pub write_times : ℕ → Writer → Writer
write_times zero w = w
write_times (suc n) w = write_times n (write_step w)

idle :
    (n : ℕ) (done : List Text)
    → (write_times n (record { queue = []; phase = waiting; written = done })).written ≡ done
unfolding write_step
idle zero done = refl
idle (suc n) done = idle n done

write_times-IsServing :
    (n : ℕ) (sent : List Text) (w : Writer)
    → length w.queue < n
    → IsServing sent w
    → (write_times n w).written ≡ sent
unfolding write_step
write_times-IsServing n sent w h s = by_state n w.phase w.queue w.written h s.0 s.1
  where
    by_state :
        (n : ℕ) (p : Phase) (q done : List Text)
        → length q < n
        → done ++ q ≡ sent
        → IsAwake p q
        → (write_times n (record { queue = q; phase = p; written = done })).written ≡ sent
    by_state zero p q done h e a = absurd (omega arith)
    by_state (suc n) absent q done h e a = absurd a
    by_state (suc n) waiting [] done h e a = idle n done ∙ (sym (append-nil done) ∙ e)
    by_state (suc n) waiting (f ∷ q) done h e a = cc
    by_state (suc n) draining [] done h e a = idle n done ∙ (sym (append-nil done) ∙ e)
    by_state (suc n) draining (f ∷ q) done h e a =
        by_state n draining q (done ++ (f ∷ [])) (omega arith) (append_assoc done (f ∷ []) q ∙ e) tt

-- On a connection that opens with an empty queue, whatever is posted in between, the writer has
-- written exactly the posted frames, in order, after one step more than there are frames queued.
pub write_times-turns :
    (ts : List Turn) (w : Writer) (n : ℕ)
    → w.queue ≡ []
    → All IsWithin ts
    → length (turns ts (turn opens w)).queue < n
    → (write_times n (turns ts (turn opens w))).written ≡ posted ts
write_times-turns ts w n e h enough =
    write_times-IsServing n (posted ts) (turns ts (turn opens w)) enough
      (turns-IsServing ts [] (turn opens w) h (unfold turn in (e, e)))

write_step_waiting : (w : Writer) → w.phase ≡ waiting → write_step w ≡ w
unfolding write_step
write_step_waiting w p = ground arith

writes_idle : (ts : List Turn) (w : Writer) → All IsWrite ts → w.phase ≡ waiting → turns ts w ≡ w
unfolding turn write_step
writes_idle [] w h p = refl
writes_idle (writes ∷ ts) w h p = ap (turns ts) (write_step_waiting w p) ∙ writes_idle ts w h.1 p
writes_idle (posts f ∷ ts) w h p = absurd h.0
writes_idle (opens ∷ ts) w h p = absurd h.0
writes_idle (closes ∷ ts) w h p = absurd h.0

-- A connection that opens with frames in the queue writes none of them, however often the writer is
-- asked, as long as nothing is posted: they wait for the next `send`.
pub turns_stranded :
    (ts : List Turn) (w : Writer)
    → All IsWrite ts
    → ((turns ts (turn opens w)).queue ≡ w.queue) × ((turns ts (turn opens w)).written ≡ [])
turns_stranded ts w h = unfold turn in rw (writes_idle ts (turn opens w) h refl) (refl, refl)
