-- ===== src/Net/Frames.antt =====
-- The frames of the wire: what was sent is read, whatever comes behind it, and nothing is lost.
use ircord_client.Base.{
  ℕ, zero, suc, ◌+◌, ◌/◌, ◌%◌, ◌^◌, ◌≤◌, ◌<◌, ◌≡◌, refl, ap, sym, ◌∙◌, ◌⊎◌, inl, inr, ◌||◌, none,
  some, List, [], ◌∷◌, ◌++◌, ltb, ◌==◌, length, take, drop, All, Text, arith, Bool-cases,
  length-drop, length-append, take-append-drop, length-take,
}
use mathlib.Core.List.{append_assoc}
use ircord_client.Net.{
  Reading, waits, throws, frame_of, header, size_of, read_frames, read_loop, max_frame_size,
}

-- What `send` puts on the wire for these bodies, one after the other.
abbrev pub framed : List Text → Text
framed [] = []
framed (b ∷ bs) = elim (frame_of b) [ none ↦ framed bs | some f ↦ f ++ framed bs ]

-- A body that `read_loop` takes.
abbrev pub IsBody : Text → Type 0
IsBody b = (0 < length b) × (length b ≤ 65536)

abbrev pub IsByte : ℕ → Type 0
IsByte c = c < 256

framed-cons :
    (b : Text) (bs : List Text)
    → length b ≤ 65536
    → framed (b ∷ bs) ≡ header (length b) ++ (b ++ framed bs)
framed-cons b bs h = rw (frame_of_small, framed) (append_assoc (header (length b)) b (framed bs))
  where
    frame_of_small : frame_of b ≡ some (header (length b) ++ b)
    frame_of_small = unfold frame_of in ground arith

size_of-header :
    (n : ℕ)
    → n ≤ 65536
    → size_of (n / 2 ^ 24 % 256) (n / 2 ^ 16 % 256) (n / 2 ^ 8 % 256) (n % 256) ≡ n
unfolding size_of
size_of-header n h = omega arith

take_all : (b rest : Text) → take (length b) (b ++ rest) ≡ b
take_all [] rest = refl
take_all (c ∷ b) rest = ap (c ∷◌) (take_all b rest)

drop_all : (b rest : Text) → drop (length b) (b ++ rest) ≡ rest
drop_all [] rest = refl
drop_all (c ∷ b) rest = drop_all b rest

read_frames-frame :
    (fuel : ℕ) (b rest : Text)
    → IsBody b
    → read_frames (suc fuel) (header (length b) ++ (b ++ rest))
      ≡ (b ∷ (read_frames fuel rest).0, (read_frames fuel rest).1)
unfolding read_frames header
read_frames-frame fuel b rest h =
    rw (size_of-header (length b) h.1, take_all, drop_all) (ground (arith, length-append b rest))

-- More fuel than bytes changes nothing.
read_frames-enough :
    (f g : ℕ) (bytes : Text)
    → length bytes ≤ f
    → length bytes ≤ g
    → read_frames f bytes ≡ read_frames g bytes
unfolding read_frames
read_frames-enough zero zero bytes h k = refl
read_frames-enough zero (suc g) [] h k = refl
read_frames-enough (suc f) zero [] h k = refl
read_frames-enough zero (suc g) (a ∷ r) h k = absurd (omega arith)
read_frames-enough (suc f) zero (a ∷ r) h k = absurd (omega arith)
read_frames-enough (suc f) (suc g) [] h k = refl
read_frames-enough (suc f) (suc g) (a ∷ []) h k = refl
read_frames-enough (suc f) (suc g) (a ∷ b ∷ []) h k = refl
read_frames-enough (suc f) (suc g) (a ∷ b ∷ c ∷ []) h k = refl
read_frames-enough (suc f) (suc g) (a ∷ b ∷ c ∷ d ∷ rest) h k =
    rw
      (read_frames-enough f g (drop (size_of a b c d) rest)
        (omega (arith, length-drop (size_of a b c d) rest))
        (omega (arith, length-drop (size_of a b c d) rest)))
      refl

framed-cons_tail :
    (b : Text) (bs : List Text) (tail : Text)
    → length b ≤ 65536
    → framed (b ∷ bs) ++ tail ≡ header (length b) ++ (b ++ (framed bs ++ tail))
framed-cons_tail b bs tail h =
    ap (◌++ tail) (framed-cons b bs h)
    ∙ append_assoc (header (length b)) (b ++ framed bs) tail
    ∙ ap (header (length b) ++◌) (append_assoc b (framed bs) tail)

header_longer : (n : ℕ) (s : Text) → length (header n ++ s) ≡ 4 + length s
unfolding header
header_longer n s = omega arith

read_frames-framed :
    (fuel : ℕ) (bs : List Text) (tail : Text)
    → All IsBody bs
    → length (framed bs ++ tail) ≤ fuel
    → read_frames fuel (framed bs ++ tail) ≡ (bs ++ (read_loop tail).0, (read_loop tail).1)
unfolding read_loop
read_frames-framed fuel [] tail h l = read_frames-enough fuel (length tail) tail l (omega arith)
read_frames-framed zero (b ∷ bs) tail h l = absurd (
    omega (
      arith,
      l,
      ap length (framed-cons_tail b bs tail h.0.1),
      header_longer (length b) (b ++ (framed bs ++ tail)),
    ))
read_frames-framed (suc fuel) (b ∷ bs) tail h l =
    let rest = framed bs ++ tail in
    ap (read_frames (suc fuel)) (framed-cons_tail b bs tail h.0.1)
    ∙ read_frames-frame fuel b rest h.0
    ∙ ap (λ r. (b ∷ r.0, r.1))
        (read_frames-framed fuel bs tail h.1 (
          omega (
            arith,
            l,
            ap length (framed-cons_tail b bs tail h.0.1),
            header_longer (length b) (b ++ rest),
            length-append b rest,
          )))

-- What `send` frames for bodies of 1 to 65536 bytes is read as these bodies, in order, and what comes
-- behind it is read as if it stood alone.
pub read_loop-framed :
    (bs : List Text) (tail : Text)
    → All IsBody bs
    → read_loop (framed bs ++ tail) ≡ (bs ++ (read_loop tail).0, (read_loop tail).1)
unfolding read_loop
read_loop-framed bs tail h = read_frames-framed (length (framed bs ++ tail)) bs tail h (omega arith)

header-size_of :
    (a b c d : ℕ)
    → IsByte a
    → IsByte b
    → IsByte c
    → IsByte d
    → header (size_of a b c d) ≡ a ∷ b ∷ c ∷ d ∷ []
unfolding header size_of
header-size_of a b c d ha hb hc hd = ground arith

-- How the bytes behind the frames that were read begin: all of what is waited for, or a bad header.
abbrev pub IsRest : Text → Reading → Type 0
IsRest tail (waits rest) = rest ≡ tail
IsRest tail (throws size) = (size ≡ 0) ⊎ (65536 < size)

abbrev pub Conserves : Text → List Text × Reading → Type 0
Conserves bytes r =
    All IsBody r.0 × ((tail : Text) × (bytes ≡ framed r.0 ++ tail) × IsRest tail r.1)

reframe :
    (a b c d : ℕ) (rest : Text) (ps : List Text) (tail : Text)
    → All IsByte (a ∷ b ∷ c ∷ d ∷ rest)
    → size_of a b c d ≤ 65536
    → size_of a b c d ≤ length rest
    → drop (size_of a b c d) rest ≡ framed ps ++ tail
    → a ∷ b ∷ c ∷ d ∷ rest ≡ framed (take (size_of a b c d) rest ∷ ps) ++ tail
reframe a b c d rest ps tail h small fits e =
    let size = size_of a b c d in
    let full : length (take size rest) ≡ size = omega (arith, length-take size rest) in
    let (ha, (hb, (hc, (hd, _)))) = h in
    sym (
      framed-cons_tail (take size rest) ps tail (omega arith)
      ∙ ap (λ n. header n ++ (take size rest ++ (framed ps ++ tail))) full
      ∙ ap (λ s. header size ++ (take size rest ++ s)) (sym e)
      ∙ ap (header size ++◌) (take-append-drop size rest)
      ∙ ap (◌++ rest) (header-size_of a b c d ha hb hc hd))

All-drop : (n : ℕ) (s : Text) → All IsByte s → All IsByte (drop n s)
All-drop zero s h = h
All-drop (suc n) [] h = tt
All-drop (suc n) (c ∷ s) h = All-drop n s h.1

read_frames-Conserves :
    (fuel : ℕ) (bytes : Text) → All IsByte bytes → Conserves bytes (read_frames fuel bytes)
unfolding read_frames
read_frames-Conserves zero bytes h = (tt, (bytes, refl, refl))
read_frames-Conserves (suc fuel) [] h = (tt, ([], refl, refl))
read_frames-Conserves (suc fuel) (a ∷ []) h = (tt, (_, refl, refl))
read_frames-Conserves (suc fuel) (a ∷ b ∷ []) h = (tt, (_, refl, refl))
read_frames-Conserves (suc fuel) (a ∷ b ∷ c ∷ []) h = (tt, (_, refl, refl))
read_frames-Conserves (suc fuel) (a ∷ b ∷ c ∷ d ∷ rest) h =
    let size = size_of a b c d in
    elim (Bool-cases (size == 0 || ltb max_frame_size size)) [
      | inl bad ↦ rw bad (tt, (_, refl, ground arith))
      | inr good ↦ elim (Bool-cases (ltb (length rest) size)) [
        | inl short ↦ rw (good, short) (tt, (_, refl, refl))
        | inr whole ↦
            let (ok, (tail, e, r)) =
              read_frames-Conserves fuel (drop size rest) (All-drop size rest h.1.1.1.1) in
            rw (good, whole)
              (
                (
                  (ground (arith, length-take size rest), ground (arith, length-take size rest)),
                  ok,
                ),
                (
                  tail,
                  reframe a b c d rest (read_frames fuel (drop size rest)).0 tail h (ground arith)
                      (ground arith) e,
                  r,
                ),
              )
      ]
    ]

-- Whatever bytes come, each payload that `read_loop` takes has 1 to 65536 bytes, and the bytes are
-- these payloads as `send` frames them and a rest: the loop waits with all of the rest, or has thrown
-- for a size of 0 or above 65536.
pub read_loop-Conserves : (bytes : Text) → All IsByte bytes → Conserves bytes (read_loop bytes)
unfolding read_loop
read_loop-Conserves bytes h = read_frames-Conserves (length bytes) bytes h
