-- ===== src/Jitter/Arrival.antt =====
-- Frames that arrive in any order are played in the order of their numbers.
use ircord_client.Base.{
  ℕ, suc, ◌+◌, ◌%◌, ◌^◌, ◌≤◌, ◌<◌, ◌≡◌, refl, sym, ap, ◌∙◌, subst, inl, inr, true, false, Option,
  none, some, List, [], ◌∷◌, map, ltb, ◌==◌, length, arith, Bool-cases,
}
use ircord_client.Jitter.{
  JitterBuffer, push, new, prime, store, remove, frame_at, first_key, next_of,
}
use ircord_client.Jitter.Keys.{
  IsAbove, IsAbove-weaken, frame_at-IsAbove, frame_at-store, store-IsAbove, trim_short,
}
use ircord_client.Jitter.Playback.{played, pop_primed}

module _ {ℓ} {Pcm : Type ℓ} where
  -- Two ascending lists with the same frame under every key are the same.
  frames_equal :
      (n : ℕ) (xs ys : List (ℕ × Pcm))
      → IsAbove n xs
      → IsAbove n ys
      → ((k : ℕ) → frame_at k xs ≡ frame_at k ys)
      → xs ≡ ys
  unfolding frame_at
  frames_equal n [] [] p q h = refl
  frames_equal n [] ((k, z) ∷ ys) p q h = ground (arith, h k)
  frames_equal n ((j, w) ∷ xs) [] p q h = ground (arith, h j)
  frames_equal n ((j, w) ∷ xs) ((k, z) ∷ ys) p q h = elim (Bool-cases (j == k)) [
    | inl e ↦
        let jk : j ≡ k = ground arith in
        let wz : w ≡ z = ground (arith, h j) in
        let tail : xs ≡ ys =
          frames_equal (suc j) xs ys p.2 (subst (λ i. IsAbove (suc i) ys) (sym jk) q.2) (λ i.
            elim (Bool-cases (j == i)) [
              | inl same ↦
                  frame_at-IsAbove i (suc j) xs (ground arith) p.2
                  ∙ sym (frame_at-IsAbove i (suc k) ys (ground arith) q.2)
              | inr other ↦ ground (arith, h i)
            ]) in
        cc
    | inr e ↦ elim (Bool-cases (ltb j k)) [
      | inl lt ↦ absurd (ground (arith, h j, frame_at-IsAbove j (suc k) ys (ground arith) q.2))
      | inr ge ↦ absurd (ground (arith, h k, frame_at-IsAbove k (suc j) xs (ground arith) p.2))
    ]
  ]

  -- No number stands twice, and all are 16-bit numbers.
  abbrev pub AreDistinct : List (ℕ × Pcm) → Type ℓ
  AreDistinct [] = Unit {ℓ}
  AreDistinct ((k, q) ∷ fs) = (frame_at k fs ≡ none) × (k < 65536) × AreDistinct fs

  -- The frames stored one after the other.
  abbrev stored : List (ℕ × Pcm) → List (ℕ × Pcm) → List (ℕ × Pcm)
  stored [] fs = fs
  stored ((k, q) ∷ ps) fs = stored ps (store k q fs)

  stored-IsAbove :
      (ps fs : List (ℕ × Pcm)) → AreDistinct ps → IsAbove 0 fs → IsAbove 0 (stored ps fs)
  stored-IsAbove [] fs d p = p
  stored-IsAbove ((k, q) ∷ ps) fs d p =
      stored-IsAbove ps (store k q fs) d.2 (store-IsAbove 0 k q fs (omega arith) d.1 p)

  -- What is newly stored, or else what was there.
  abbrev or_else : Option Pcm → Option Pcm → Option Pcm
  or_else none o = o
  or_else (some q) o = some q

  frame_at-stored :
      (j : ℕ) (ps fs : List (ℕ × Pcm))
      → AreDistinct ps
      → frame_at j (stored ps fs) ≡ or_else (frame_at j ps) (frame_at j fs)
  unfolding frame_at
  frame_at-stored j [] fs d = refl
  frame_at-stored j ((k, q) ∷ ps) fs d =
      frame_at-stored j ps (store k q fs) d.2
      ∙ ap (or_else (frame_at j ps)) (frame_at-store k j q fs)
      ∙ elim (Bool-cases (k == j)) [
        | inl e ↦
            let free : frame_at j ps ≡ none =
              subst (λ i. frame_at i ps ≡ none) (ground arith) d.0 in
            rw (e, free) refl
        | inr e ↦ rw e refl
      ]

  length-store_new :
      (k : ℕ) (q : Pcm) (fs : List (ℕ × Pcm))
      → frame_at k fs ≡ none
      → length (store k q fs) ≡ suc (length fs)
  unfolding frame_at store
  length-store_new k q [] h = refl
  length-store_new k q ((j, x) ∷ fs) h = ground (arith, length-store_new k q fs)

  -- These frames are pushed one after the other.
  abbrev pub push_all : List (ℕ × Pcm) → JitterBuffer Pcm → JitterBuffer Pcm
  push_all [] b = b
  push_all ((k, q) ∷ ps) b = push_all ps (push k q b)

  -- None of the numbers is in the buffer already.
  abbrev AreNew : List (ℕ × Pcm) → List (ℕ × Pcm) → Type ℓ
  AreNew [] fs = Unit {ℓ}
  AreNew ((k, q) ∷ ps) fs = (frame_at k fs ≡ none) × AreNew ps fs

  AreNew-store :
      (k : ℕ) (q : Pcm) (ps fs : List (ℕ × Pcm))
      → frame_at k ps ≡ none
      → AreNew ps fs
      → AreNew ps (store k q fs)
  unfolding frame_at
  AreNew-store k q [] fs h n = tt
  AreNew-store k q ((j, r) ∷ ps) fs h n = elim (Bool-cases (j == k)) [
    | inl e ↦ absurd (ground (arith, h))
    | inr e ↦ (
      frame_at-store k j q fs ∙ ground (arith, n.0),
      AreNew-store k q ps fs (ground (arith, h)) n.1,
    )
  ]

  AreNew-nil : (ps : List (ℕ × Pcm)) → AreNew ps []
  unfolding frame_at
  AreNew-nil [] = tt
  AreNew-nil ((k, q) ∷ ps) = (refl, AreNew-nil ps)

  -- A push that does not complete the delay, and the one that does.
  push_waits :
      (k : ℕ) (q : Pcm) (b : JitterBuffer Pcm)
      → b.primed ≡ false
      → length (store k q b.frames) < b.target_delay
      → b.target_delay ≤ 16
      → push k q b ≡ record b { frames = store k q b.frames }
  unfolding push prime
  push_waits k q b off few small = rw (trim_short (store k q b.frames) (omega arith)) (ground arith)

  push_primes :
      (k : ℕ) (q : Pcm) (b : JitterBuffer Pcm)
      → b.primed ≡ false
      → length (store k q b.frames) ≡ b.target_delay
      → b.target_delay ≤ 16
      → push k q b ≡ record b {
        frames = store k q b.frames;
        primed = true;
        next_seq = first_key (store k q b.frames);
      }
  unfolding push prime
  push_primes k q b off full small =
      rw (trim_short (store k q b.frames) (omega arith)) (ground arith)

  -- Pushing as many new frames as the delay asks for stores them all, and starts at the lowest.
  push_all_lem :
      (k : ℕ) (q : Pcm) (ps : List (ℕ × Pcm)) (b : JitterBuffer Pcm)
      → b.primed ≡ false
      → AreDistinct ((k, q) ∷ ps)
      → AreNew ((k, q) ∷ ps) b.frames
      → length b.frames + suc (length ps) ≡ b.target_delay
      → b.target_delay ≤ 16
      → push_all ((k, q) ∷ ps) b ≡ record b {
        frames = stored ((k, q) ∷ ps) b.frames;
        primed = true;
        next_seq = first_key (stored ((k, q) ∷ ps) b.frames);
      }
  push_all_lem k q [] b off d new_ones full small =
      push_primes k q b off (omega (arith, length-store_new k q b.frames new_ones.0)) small
  push_all_lem k q ((j, r) ∷ ps) b off d new_ones full small =
      ap (push_all ((j, r) ∷ ps))
        (push_waits k q b off (omega (arith, length-store_new k q b.frames new_ones.0)) small)
      ∙ push_all_lem j r ps (record b { frames = store k q b.frames }) off d.2
          (AreNew-store k q ((j, r) ∷ ps) b.frames d.0 new_ones.1)
          (omega (arith, length-store_new k q b.frames new_ones.0)) small

  -- Frames with consecutive numbers from `s` on.
  abbrev pub IsRun : ℕ → List (ℕ × Pcm) → Type 0
  IsRun s [] = Unit {0}
  IsRun s ((k, q) ∷ fs) = (k ≡ s) × IsRun (suc s) fs

  run-IsAbove : (s : ℕ) (fs : List (ℕ × Pcm)) → IsRun s fs → s + length fs ≤ 65536 → IsAbove s fs
  run-IsAbove s [] r l = tt
  run-IsAbove s ((k, q) ∷ fs) r l = (
    omega (arith, r.0),
    omega (arith, r.0),
    subst (λ i. IsAbove (suc i) fs) (sym r.0) (run-IsAbove (suc s) fs r.1 (omega arith)),
  )

  played-run :
      (s delay : ℕ) (fs : List (ℕ × Pcm))
      → IsRun s fs
      → s + length fs ≤ 65536
      → played
          (length fs)
          (record { frames = fs; next_seq = s % 2 ^ 16; primed = true; target_delay = delay })
        ≡ map (λ f. some f.1) fs
  unfolding frame_at remove
  played-run s delay [] r l = refl
  played-run s delay ((k, q) ∷ fs) r l =
      let b : JitterBuffer Pcm = record {
        frames = (k, q) ∷ fs;
        next_seq = s % 2 ^ 16;
        primed = true;
        target_delay = delay;
      } in
      let first : k == s % 2 ^ 16 ≡ true = ground (arith, r.0) in
      let later : next_of (s % 2 ^ 16) ≡ suc s % 2 ^ 16 = omega arith in
      ap (λ x. x.0 ∷ played (length fs) x.1) (pop_primed b refl)
      ∙ rw (first, later) (ap (some q ∷◌) (played-run (suc s) delay fs r.1 (omega arith)))

  or_else-none : (o : Option Pcm) → or_else o none ≡ o
  or_else-none none = refl
  or_else-none (some q) = refl

  -- Stored into an empty buffer, frames are in the order of their numbers.
  stored-run :
      (s : ℕ) (fs ps : List (ℕ × Pcm))
      → IsRun s fs
      → s + length fs ≤ 65536
      → AreDistinct ps
      → ((k : ℕ) → frame_at k ps ≡ frame_at k fs)
      → stored ps [] ≡ fs
  unfolding frame_at
  stored-run s fs ps r l d h =
      frames_equal 0 (stored ps []) fs (stored-IsAbove ps [] d tt)
        (IsAbove-weaken 0 s fs (omega arith) (run-IsAbove s fs r l))
        (λ j. frame_at-stored j ps [] d ∙ or_else-none (frame_at j ps) ∙ h j)

  -- As many frames as the delay asks for, at most 16, with consecutive numbers that do not wrap, are
  -- played in the order of their numbers, in whatever order they were pushed into a new buffer: `fs` is
  -- the frames by number, `ps` the same frames, each once, as they came.
  pub played-push_all :
      (s : ℕ) (fs ps : List (ℕ × Pcm))
      → IsRun s fs
      → s + length fs ≤ 65536
      → length fs ≤ 16
      → AreDistinct ps
      → length ps ≡ length fs
      → ((k : ℕ) → frame_at k ps ≡ frame_at k fs)
      → played (length fs) (push_all ps (new (length fs))) ≡ map (λ f. some f.1) fs
  played-push_all s [] [] r l small d e h = refl
  played-push_all s [] (x ∷ ps) r l small d e h = absurd (omega (arith, e))
  played-push_all s (f ∷ fs) [] r l small d e h = absurd (omega (arith, e))
  played-push_all s ((i, x) ∷ fs) ((k, q) ∷ ps) r l small d e h =
      let full = (i, x) ∷ fs in
      let n = length full in
      let at_start : i ≡ s % 2 ^ 16 = omega (arith, r.0) in
      ap (played n)
        (push_all_lem k q ps (new n) refl d (AreNew-nil ((k, q) ∷ ps)) (omega (arith, e)) small)
      ∙ ap
          (λ g.
            played n
              (record { frames = g; next_seq = first_key g; primed = true; target_delay = n }))
          (stored-run s full ((k, q) ∷ ps) r l d h)
      ∙ ap (λ m. played n (record { frames = full; next_seq = m; primed = true; target_delay = n }))
          at_start
      ∙ played-run s n full r l
