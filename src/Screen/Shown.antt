-- ===== src/Screen/Shown.antt =====
-- The messages on the screen.
use ircord_client.Base.{
  ℕ, zero, suc, ◌+◌, ◌-◌, ◌≤◌, ◌<◌, ◌≡◌, refl, ap, sym, ◌∙◌, List, [], ◌∷◌, length, take, drop,
  arith, get_elem?, length-take,
}
use ircord_client.AppState.Window.{window}
use ircord_client.Screen.{cons_some, lines, render_messages}

module _ {ℓ} {A : Type ℓ} where
  -- The loop at the next place of a longer list.
  lines-cons : (count i : ℕ) (x : A) (xs : List A) → lines count (suc i) (x ∷ xs) ≡ lines count i xs
  unfolding lines
  lines-cons zero i x xs = refl
  lines-cons (suc count) i x xs =
      ap (cons_some (get_elem? xs i))
        (ap (λ j. lines count j (x ∷ xs)) (omega arith) ∙ lines-cons count (i + 1) x xs)

  lines-drop :
      (count i : ℕ) (xs : List A)
      → i + count ≤ length xs
      → lines count i xs ≡ take count (drop i xs)
  unfolding lines
  lines-drop zero i xs h = refl
  lines-drop (suc count) i [] h = absurd (omega arith)
  lines-drop (suc count) zero (x ∷ xs) h =
      ap (x ∷◌) (lines-cons count 0 x xs ∙ lines-drop count 0 xs (omega arith))
  lines-drop (suc count) (suc i) (x ∷ xs) h =
      lines-cons (suc count) i x xs ∙ lines-drop (suc count) i xs (omega arith)

  take_nil : (n : ℕ) (xs : List A) → xs ≡ [] → xs ≡ take n xs
  take_nil zero [] e = refl
  take_nil (suc n) [] e = refl
  take_nil n (x ∷ xs) e = cc

  drop-take : (i m : ℕ) (xs : List A) → drop i (take m xs) ≡ take (m - i) (drop i xs)
  drop-take zero m xs = ap (λ n. take n xs) (omega arith)
  drop-take (suc i) zero xs =
      let none_left : 0 ≡ 0 - suc i = omega arith in ap (λ n. take n (drop (suc i) xs)) none_left
  drop-take (suc i) (suc m) [] = take_nil (suc m - suc i) [] refl
  drop-take (suc i) (suc m) (x ∷ xs) = drop-take i m xs ∙ ap (λ n. take n (drop i xs)) (omega arith)

  -- Scrolled back by fewer messages than there are, the screen shows the last `visible_rows` of those
  -- messages that are not scrolled past, in their order.
  pub render_messages-window :
      (visible_rows scroll_offset : ℕ) (messages : List A)
      → scroll_offset < length messages
      → render_messages visible_rows scroll_offset messages
        ≡ window visible_rows (take (length messages - scroll_offset) messages)
  unfolding render_messages
  render_messages-window visible scroll [] h = absurd (omega arith)
  render_messages-window visible scroll (x ∷ xs) h =
      let all = x ∷ xs in
      let unseen = length all - scroll in
      let bottom = length all - 1 - scroll in
      let top = bottom + 1 - visible in
      lines-drop (bottom + 1 - top) top all (omega arith)
      ∙ ap (λ n. take n (drop top all)) (omega arith)
      ∙ sym (drop-take top unseen all)
      ∙ ap (λ i. drop i (take unseen all)) (omega (arith, length-take unseen all))
