-- ===== src/InputLine/History.antt =====
-- Browsing the history and coming back.
use ircord_client.Base.{
  ℕ, zero, suc, ◌+◌, ◌-◌, ◌<◌, ◌≡◌, ◌≢◌, refl, ap, ◌∙◌, true, false, none, List, [], ◌∷◌, length,
  arith, is_empty, ltb, lt→ltb, drop_last, inl, inr, Bool-cases,
}
use ircord_client.InputLine.{
  InputLine, show_entry, entry, browse_back, browse_forth, history_prev, history_next, remember,
  commit, clear,
}
use ircord_client.InputLine.Utf8.{to_utf8}

abbrev pub times {ℓ} : {A : Type ℓ} → ℕ → (A → A) → A → A
times zero f a = a
times (suc n) f a = f (times n f a)

-- The line while it shows entry `pos` of its history, reached from `s`.
abbrev showing : InputLine → ℕ → InputLine
showing s pos = show_entry pos (record s { saved_input = s.buf })

-- The typed text again, as `history_next` brings it back from the newest entry.
abbrev pub restored : InputLine → InputLine
restored s = record s { cursor = length s.buf; hist_pos = none; saved_input = s.buf }

times-shift {ℓ} : {A : Type ℓ} (n : ℕ) (f : A → A) (a : A) → times (suc n) f a ≡ times n f (f a)
times-shift zero f a = refl
times-shift (suc n) f a = ap f (times-shift n f a)

module _ (s : InputLine) (idle : s.hist_pos ≡ none) where
  nonempty : {n : ℕ} (h : List (List ℕ)) → n < length h → is_empty h ≡ false
  nonempty [] l = absurd (omega arith)
  nonempty (e ∷ es) l = refl

  prev_times : (n : ℕ) → n < length s.history → times (suc n) history_prev s ≡ showing s n
  unfolding history_prev browse_back show_entry
  prev_times zero l = rw (nonempty s.history l, idle, browse_back)
  prev_times (suc n) l =
      let step : ltb n (length s.history - 1) ≡ true = lt→ltb _ _ (omega arith) in
      let e : n + 1 ≡ suc n = omega arith in
      rw (prev_times n (omega arith), nonempty s.history l, step, e)

  next_times : (n : ℕ) → times (suc n) history_next (showing s n) ≡ restored s
  unfolding history_next browse_forth show_entry
  next_times zero = refl
  next_times (suc n) = times-shift (suc n) history_next (showing s (suc n)) ∙ next_times n

-- Going back through `n` entries and forward through as many gives the typed text back, with the
-- cursor at its end, for any `n` from one to the length of the history.
pub next-prev :
    (s : InputLine) (n : ℕ)
    → s.hist_pos ≡ none
    → n < length s.history
    → times (suc n) history_next (times (suc n) history_prev s) ≡ restored s
next-prev s n idle l = ap (times (suc n) history_next) (prev_times s idle n l) ∙ next_times s idle n

-- With room for one, the newest entry is the committed line.
remember-newest :
    (m : ℕ) (line : List ℕ) (history : List (List ℕ))
    → 0 < m
    → line ≢ []
    → (rest : List (List ℕ)) × (remember m line history ≡ line ∷ rest)
unfolding remember
remember-newest m [] history room h = absurd (h refl)
remember-newest m (c ∷ cs) [] room h = ([], ground arith)
remember-newest m (c ∷ cs) (y ∷ ys) room h = elim (Bool-cases (ltb m (length (y ∷ ys) + 1))) [
  | inl over ↦ (drop_last (y ∷ ys), ground arith)
  | inr fits ↦ (y ∷ ys, ground arith)
]

-- What `commit` gives is the text as UTF-8; it leaves an empty line that is not browsing, and if
-- there was text and room for a history, the next `history_prev` shows that text again.
pub prev-commit :
    (s : InputLine)
    → s.buf ≢ []
    → 0 < s.max_history
    → ((commit s).1 ≡ to_utf8 s.buf)
      × ((commit s).0.buf ≡ [])
      × ((commit s).0.hist_pos ≡ none)
      × ((history_prev (commit s).0).buf ≡ s.buf)
unfolding commit clear history_prev browse_back show_entry entry
prev-commit s h room =
    let (rest, e) = remember-newest s.max_history s.buf s.history room h in
    (refl, refl, refl, rw (e, history_prev, browse_back))
