-- ===== src/Jitter/Keys.antt =====
-- The frames of the jitter buffer as a map: look-ups after a store, a removal and a trim.
use ircord_client.Base.{
  inl, inr, ℕ, suc, ◌≤◌, ◌<◌, ◌≡◌, ◌≢◌, refl, none, some, List, [], ◌∷◌, ltb, ◌==◌, if◌then◌else◌,
  length, arith, Bool-cases,
}
use ircord_client.Jitter.{frame_at, store, remove, trim, window_size}

module _ {ℓ} {Pcm : Type ℓ} where
  -- All keys are above `n`, ascending, and 16-bit numbers.
  abbrev pub IsAbove : ℕ → List (ℕ × Pcm) → Type 0
  IsAbove n [] = Unit {0}
  IsAbove n ((k, q) ∷ fs) = (n ≤ k) × (k < 65536) × IsAbove (suc k) fs

  pub IsAbove-weaken : (m n : ℕ) (fs : List (ℕ × Pcm)) → m ≤ n → IsAbove n fs → IsAbove m fs
  IsAbove-weaken m n [] h p = tt
  IsAbove-weaken m n ((k, q) ∷ fs) h p = (omega (arith, p.0, h), p.1, p.2)

  pub frame_at-IsAbove :
      (s n : ℕ) (fs : List (ℕ × Pcm)) → s < n → IsAbove n fs → frame_at s fs ≡ none
  unfolding frame_at
  frame_at-IsAbove s n [] h p = refl
  frame_at-IsAbove s n ((k, q) ∷ fs) h p =
      ground (arith, frame_at-IsAbove s (suc k) fs (omega (arith, p.0, h)) p.2, p.0)

  pub store-IsAbove :
      (n s : ℕ) (pcm : Pcm) (fs : List (ℕ × Pcm))
      → n ≤ s
      → s < 65536
      → IsAbove n fs
      → IsAbove n (store s pcm fs)
  unfolding store
  store-IsAbove n s pcm [] h l p = (h, l, tt)
  store-IsAbove n s pcm ((k, q) ∷ fs) h l p = elim (Bool-cases (s == k)) [
    | inl e ↦ rw e (p.0, p.1, p.2)
    | inr e ↦ elim (Bool-cases (ltb s k)) [
      | inl b ↦ rw (e, b) (h, l, (ground arith, p.1, p.2))
      | inr b ↦ rw (e, b) (p.0, p.1, store-IsAbove (suc k) s pcm fs (ground arith) l p.2)
    ]
  ]

  pub remove-IsAbove : (n s : ℕ) (fs : List (ℕ × Pcm)) → IsAbove n fs → IsAbove n (remove s fs)
  unfolding remove
  remove-IsAbove n s [] p = tt
  remove-IsAbove n s ((k, q) ∷ fs) p = elim (Bool-cases (k == s)) [
    | inl e ↦ rw e (IsAbove-weaken n (suc k) fs (omega (arith, p.0)) p.2)
    | inr e ↦ rw e (p.0, p.1, remove-IsAbove (suc k) s fs p.2)
  ]

  pub trim-IsAbove : (n : ℕ) (fs : List (ℕ × Pcm)) → IsAbove n fs → IsAbove n (trim fs)
  unfolding trim
  trim-IsAbove n [] p = tt
  trim-IsAbove n ((k, q) ∷ fs) p = elim (Bool-cases (ltb window_size (length ((k, q) ∷ fs)))) [
    | inl e ↦
        rw e (IsAbove-weaken n (suc k) (trim fs) (omega (arith, p.0)) (trim-IsAbove (suc k) fs p.2))
    | inr e ↦ rw e p
  ]

  pub frame_at-store :
      (s j : ℕ) (pcm : Pcm) (fs : List (ℕ × Pcm))
      → frame_at j (store s pcm fs) ≡ (if s == j then some pcm else frame_at j fs)
  unfolding frame_at store
  frame_at-store s j pcm [] = refl
  frame_at-store s j pcm ((k, q) ∷ fs) = ground (arith, frame_at-store s j pcm fs)

  pub frame_at-remove :
      (s j : ℕ) (fs : List (ℕ × Pcm)) → s ≢ j → frame_at j (remove s fs) ≡ frame_at j fs
  unfolding frame_at remove
  frame_at-remove s j [] ne = refl
  frame_at-remove s j ((k, q) ∷ fs) ne = ground (arith, frame_at-remove s j fs ne)

  pub length-store :
      (s : ℕ) (pcm : Pcm) (fs : List (ℕ × Pcm)) → length (store s pcm fs) ≤ suc (length fs)
  unfolding store
  length-store s pcm [] = omega arith
  length-store s pcm ((k, q) ∷ fs) = ground (arith, length-store s pcm fs)

  pub length-remove : (s : ℕ) (fs : List (ℕ × Pcm)) → length (remove s fs) ≤ length fs
  unfolding remove
  length-remove s [] = omega arith
  length-remove s ((k, q) ∷ fs) = ground (arith, length-remove s fs)

  pub length-trim : (fs : List (ℕ × Pcm)) → length (trim fs) ≤ window_size
  unfolding trim
  length-trim [] = omega arith
  length-trim (f ∷ fs) = ground (arith, length-trim fs)

  pub trim_short : (fs : List (ℕ × Pcm)) → length fs ≤ window_size → trim fs ≡ fs
  unfolding trim
  trim_short [] h = refl
  trim_short (f ∷ fs) h = ground arith
