-- ===== src/InputLine/Edit.antt =====
-- What the editing calls do to the text before and behind the cursor.
use ircord_client.Base.{
  ℕ, zero, suc, ◌+◌, ◌-◌, ◌≤◌, ◌<◌, ◌≡◌, refl, ap, sym, false, List, [], ◌∷◌, ◌++◌, length,
  length-take, length-append, take, drop, drop_last, take-append-drop, arith, inl, inr, Bool-cases,
  ltb, leb, ◌==◌, lt→ltb, ◌∙◌,
}
use mathlib.Core.List.{append_assoc, append-nil, tail}
use ircord_client.InputLine.{
  InputLine, splice, erase_at, insert, insert_points, backspace, del_forward, move_left, move_right,
  move_home, move_end,
}
use ircord_client.InputLine.Cursor.{IsValid}

-- The abstract view: the text in two parts.
pub record Split : Type 0 where
  pub before : List ℕ
  pub after : List ℕ

abbrev pub view : InputLine → Split
view s = record { before = take s.cursor s.buf; after = drop s.cursor s.buf }

-- The editing calls, by name.
pub data Edit : Type 0 where
  put_one : ℕ → Edit
  put : List ℕ → Edit
  erase_back erase_next step_left step_right to_start to_end : Edit

-- The last and the first element, as a list.
abbrev pub last_one : List ℕ → List ℕ
last_one [] = []
last_one (x ∷ []) = x ∷ []
last_one (x ∷ y ∷ r) = last_one (y ∷ r)

abbrev pub first_one : List ℕ → List ℕ
first_one [] = []
first_one (x ∷ xs) = x ∷ []

-- What each call means on the two parts.
abbrev pub meant : Edit → Split → Split
meant (put_one ch) z = record z { before = z.before ++ (ch ∷ []) }
meant (put d) z = record z { before = z.before ++ d }
meant erase_back z = record z { before = drop_last z.before }
meant erase_next z = record z { after = tail z.after }
meant step_left z = record { before = drop_last z.before; after = last_one z.before ++ z.after }
meant step_right z = record { before = z.before ++ first_one z.after; after = tail z.after }
meant to_start z = record { before = []; after = z.before ++ z.after }
meant to_end z = record { before = z.before ++ z.after; after = [] }

-- The source's method for each.
abbrev pub perform : Edit → InputLine → InputLine
perform (put_one ch) s = insert ch s
perform (put d) s = insert_points d s
perform erase_back s = backspace s
perform erase_next s = del_forward s
perform step_left s = move_left s
perform step_right s = move_right s
perform to_start s = move_home s
perform to_end s = move_end s

take-append_length : (xs ys : List ℕ) → take (length xs) (xs ++ ys) ≡ xs
take-append_length [] ys = refl
take-append_length (x ∷ xs) ys = ap (x ∷◌) (take-append_length xs ys)

drop-append_length : (xs ys : List ℕ) → drop (length xs) (xs ++ ys) ≡ ys
drop-append_length [] ys = refl
drop-append_length (x ∷ xs) ys = drop-append_length xs ys

take-length : (xs : List ℕ) → take (length xs) xs ≡ xs
take-length [] = refl
take-length (x ∷ xs) = ap (x ∷◌) (take-length xs)

drop-length : (xs : List ℕ) → drop (length xs) xs ≡ []
drop-length [] = refl
drop-length (x ∷ xs) = drop-length xs

-- The two parts of a buffer that was put together from two parts.
split_at :
    (xs ys : List ℕ) (n : ℕ) → n ≡ length xs → (take n (xs ++ ys) ≡ xs) × (drop n (xs ++ ys) ≡ ys)
split_at xs ys n e = rw e (take-append_length xs ys, drop-append_length xs ys)

take_pred : (n : ℕ) (xs : List ℕ) → n < length xs → take n xs ≡ drop_last (take (suc n) xs)
take_pred n [] h = absurd (omega arith)
take_pred zero (x ∷ xs) h = refl
take_pred (suc n) (x ∷ []) h = absurd (omega arith)
take_pred (suc n) (x ∷ y ∷ r) h = ap (x ∷◌) (take_pred n (y ∷ r) (omega arith))

drop_pred :
    (n : ℕ) (xs : List ℕ)
    → n < length xs
    → drop n xs ≡ last_one (take (suc n) xs) ++ drop (suc n) xs
drop_pred n [] h = absurd (omega arith)
drop_pred zero (x ∷ xs) h = refl
drop_pred (suc n) (x ∷ []) h = absurd (omega arith)
drop_pred (suc n) (x ∷ y ∷ r) h = drop_pred n (y ∷ r) (omega arith)

take_succ : (n : ℕ) (xs : List ℕ) → take (suc n) xs ≡ take n xs ++ first_one (drop n xs)
take_succ zero [] = refl
take_succ (suc n) [] = refl
take_succ zero (x ∷ xs) = refl
take_succ (suc n) (x ∷ xs) = ap (x ∷◌) (take_succ n xs)

drop_succ : (n : ℕ) (xs : List ℕ) → drop (suc n) xs ≡ tail (drop n xs)
drop_succ zero [] = refl
drop_succ (suc n) [] = refl
drop_succ zero (x ∷ xs) = refl
drop_succ (suc n) (x ∷ xs) = drop_succ n xs

split_of : {s t : Split} → s.before ≡ t.before → s.after ≡ t.after → s ≡ t
split_of p q = λ i. record { before = p i; after = q i }

module _ (s : InputLine) (v : IsValid s) where
  before_length : length (take s.cursor s.buf) ≡ s.cursor
  before_length = omega (arith, length-take s.cursor s.buf, v.within)

  put-view : (d : List ℕ) → view (insert_points d s) ≡ meant (put d) (view s)
  unfolding insert_points splice
  put-view [] = split_of (rw append-nil) refl
  put-view (c ∷ d) =
      let parts =
        split_at (take s.cursor s.buf ++ c ∷ d) (drop s.cursor s.buf) (s.cursor + length (c ∷ d))
          (omega (arith, length-append (take s.cursor s.buf) (c ∷ d), before_length)) in
      rw (← append_assoc) (split_of parts.0 parts.1)

  insert-view : (ch : ℕ) → view (insert ch s) ≡ meant (put (ch ∷ [])) (view s)
  unfolding insert insert_points
  insert-view ch = put-view (ch ∷ [])

  -- The rest is by cases on the cursor, where `s` is `at s.cursor`.
  abbrev at : ℕ → InputLine
  at n = record s { cursor = n }

  erase_back-view :
      (n : ℕ) → n ≤ length s.buf → view (backspace (at n)) ≡ meant erase_back (view (at n))
  unfolding backspace erase_at
  erase_back-view zero h = refl
  erase_back-view (suc n) h =
      let e : suc n - 1 ≡ n = omega arith in
      let parts =
        split_at (take n s.buf) (drop (suc n) s.buf) n (omega (arith, length-take n s.buf)) in
      let more : (suc n == 0) ≡ false = ground arith in
      rw (more, e) (split_of (parts.0 ∙ take_pred n s.buf h) parts.1)

  at_end : (n : ℕ) → length s.buf ≤ n → n ≤ length s.buf → drop n s.buf ≡ tail (drop n s.buf)
  at_end n h k = let e : n ≡ length s.buf = omega arith in rw (e, drop-length s.buf)

  erase_next-view :
      (n : ℕ) → n ≤ length s.buf → view (del_forward (at n)) ≡ meant erase_next (view (at n))
  unfolding del_forward erase_at
  erase_next-view n h = elim (Bool-cases (leb (length s.buf) n)) [
    | inl full ↦ rw full (split_of refl (at_end n (ground arith) h))
    | inr room ↦
        let parts =
          split_at (take n s.buf) (drop (suc n) s.buf) n (omega (arith, length-take n s.buf)) in
        rw room (split_of parts.0 (parts.1 ∙ drop_succ n s.buf))
  ]

  step_left-view :
      (n : ℕ) → n ≤ length s.buf → view (move_left (at n)) ≡ meant step_left (view (at n))
  unfolding move_left
  step_left-view zero h = refl
  step_left-view (suc n) h =
      let e : suc n - 1 ≡ n = omega arith in
      rw (lt→ltb 0 (suc n) (omega arith), e) (split_of (take_pred n s.buf h) (drop_pred n s.buf h))

  step_right-view :
      (n : ℕ) → n ≤ length s.buf → view (move_right (at n)) ≡ meant step_right (view (at n))
  unfolding move_right
  step_right-view n h = elim (Bool-cases (ltb n (length s.buf))) [
    | inl room ↦
        let e : n + 1 ≡ suc n = omega arith in
        rw (room, e) (split_of (take_succ n s.buf) (drop_succ n s.buf))
    | inr full ↦ rw full (
        let e : n ≡ length s.buf = ground arith in
        split_of (rw (e, drop-length s.buf, append-nil) refl) (at_end n (ground arith) h))
  ]

-- Refinement: on the text before and behind the cursor, each editing method does what is meant.
pub view-perform : (e : Edit) (s : InputLine) → IsValid s → view (perform e s) ≡ meant e (view s)
unfolding move_home move_end
view-perform (put_one ch) s v = insert-view s v ch
view-perform (put d) s v = put-view s v d
view-perform erase_back s v = erase_back-view s v s.cursor v.within
view-perform erase_next s v = erase_next-view s v s.cursor v.within
view-perform step_left s v = step_left-view s v s.cursor v.within
view-perform step_right s v = step_right-view s v s.cursor v.within
view-perform to_start s v = split_of refl (sym (take-append-drop s.cursor s.buf))
view-perform to_end s v =
    split_of (take-length s.buf ∙ sym (take-append-drop s.cursor s.buf)) (drop-length s.buf)
