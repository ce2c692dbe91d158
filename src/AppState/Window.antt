-- ===== src/AppState/Window.antt =====
-- What a channel holds after messages were pushed to it.
use ircord_client.Base.{
  ℕ, suc, ◌+◌, ◌-◌, ◌≤◌, ◌<◌, ◌≡◌, refl, ap, sym, ◌∙◌, Bool, not, ◌||◌, List, [], ◌∷◌, ◌++◌, length,
  length-append, drop, arith, ltb, if◌then◌else◌, Text, text_eq, text_eq_refl,
}
use mathlib.Core.List.{append_assoc, append-nil}
use ircord_client.Base.Assoc.{lookup-insert}
use ircord_client.AppState.{
  AppState, Message, ChannelState, max_messages, push_bounded, receive, push_message,
  channel_snapshot,
}
use native.Mathlib.Decide.{dec_lt}

module _ {ℓ} {A : Type ℓ} where
  -- The last `n` elements.
  abbrev pub window : ℕ → List A → List A
  window n xs = drop (length xs - n) xs

  abbrev push_all : ℕ → List A → List A → List A
  push_all n xs [] = xs
  push_all n xs (y ∷ ys) = push_all n (push_bounded n y xs) ys

  push_with_room :
      (n : ℕ) (x : A) (xs : List A) → length xs < n → push_bounded n x xs ≡ xs ++ (x ∷ [])
  unfolding push_bounded
  push_with_room n x xs h = ground (arith, length-append xs (x ∷ []))

  push_when_full :
      (n : ℕ) (x y : A) (ys : List A)
      → length (y ∷ ys) ≡ n
      → push_bounded n x (y ∷ ys) ≡ ys ++ (x ∷ [])
  unfolding push_bounded
  push_when_full n x y ys h = ground (arith, length-append ys (x ∷ []))

  pub length-push_bounded :
      (n : ℕ) (x : A) (xs : List A) → length xs ≤ n → length (push_bounded n x xs) ≤ n
  unfolding push_bounded
  length-push_bounded n x [] h = ground arith
  length-push_bounded n x (y ∷ ys) h = ground (arith, length-append ys (x ∷ []))

  window_whole : (n : ℕ) (xs : List A) → length xs ≤ n → window n xs ≡ xs
  window_whole n xs h = let e : length xs - n ≡ 0 = omega arith in rw e

  -- One element out, one in: the windows of the two lists are the same.
  window_slide :
      (n : ℕ) (x m : A) (r ms : List A)
      → length (x ∷ r) ≡ n
      → window n ((r ++ (m ∷ [])) ++ ms) ≡ window n ((x ∷ r) ++ (m ∷ ms))
  window_slide n x m r ms h =
      let e : length (r ++ (m ∷ ms)) - n ≡ length ms = omega (arith, length-append r (m ∷ ms)) in
      let f : length ((x ∷ r) ++ (m ∷ ms)) - n ≡ suc (length ms) =
        omega (arith, length-append r (m ∷ ms)) in
      rw (append_assoc, e, f)

  -- Pushing one by one keeps the last `n` of all.
  push_all-window :
      (n : ℕ) (xs ys : List A) → length xs ≤ n → 0 < n → push_all n xs ys ≡ window n (xs ++ ys)
  push_all-window n xs [] h room = rw append-nil (sym (window_whole n xs h))
  push_all-window n [] (y ∷ ys) h room =
      rw (push_with_room n y [] room) (push_all-window n (y ∷ []) ys room room)
  push_all-window n (x ∷ r) (y ∷ ys) h room = elim (dec_lt (length (x ∷ r)) n) [
    | yes l ↦ rw (push_with_room n y (x ∷ r) l) (
        push_all-window n (x ∷ (r ++ (y ∷ []))) ys (omega (arith, length-append r (y ∷ []))) room
        ∙ ap (window n) (append_assoc (x ∷ r) (y ∷ []) ys))
    | no l ↦ rw (push_when_full n y x r (omega arith)) (
        push_all-window n (r ++ (y ∷ [])) ys (omega (arith, length-append r (y ∷ []))) room
        ∙ window_slide n x y r ys (omega arith))
  ]

abbrev pub push_messages : Text → List Message → AppState → AppState
push_messages id [] s = s
push_messages id (m ∷ ms) s = push_messages id ms (push_message id m s)

-- Whether `push_message` counts a message of this channel as unread.
abbrev pub counts_unread : Text → AppState → Bool
counts_unread id s = not (text_eq id s.active) || ltb 0 (channel_snapshot id s).scroll_offset

abbrev pub unread_after : Bool → ℕ → ℕ → ℕ
unread_after counted unread k = if counted then unread + k else unread

push_message-snapshot :
    (id : Text) (m : Message) (s : AppState)
    → channel_snapshot id (push_message id m s)
      ≡ receive (not (text_eq id s.active)) m (channel_snapshot id s)
unfolding push_message channel_snapshot
push_message-snapshot id m s = rw (lookup-insert, text_eq_refl)

abbrev receive_all : Bool → List Message → ChannelState → ChannelState
receive_all elsewhere [] ch = ch
receive_all elsewhere (m ∷ ms) ch = receive_all elsewhere ms (receive elsewhere m ch)

receive_all_lem :
    (elsewhere : Bool) (ms : List Message) (ch : ChannelState)
    → receive_all elsewhere ms ch ≡ record {
      messages = push_all max_messages ch.messages ms;
      unread_count = unread_after (elsewhere || ltb 0 ch.scroll_offset) ch.unread_count (length ms);
      scroll_offset = ch.scroll_offset;
    }
unfolding receive
receive_all_lem elsewhere [] ch = ground arith
receive_all_lem elsewhere (m ∷ ms) ch =
    ground (arith, receive_all_lem elsewhere ms (receive elsewhere m ch))

push_messages-receive_all :
    (id : Text) (ms : List Message) (s : AppState)
    → channel_snapshot id (push_messages id ms s)
      ≡ receive_all (not (text_eq id s.active)) ms (channel_snapshot id s)
unfolding push_message
push_messages-receive_all id [] s = refl
push_messages-receive_all id (m ∷ ms) s =
    push_messages-receive_all id ms (push_message id m s)
    ∙ ap (receive_all (not (text_eq id s.active)) ms) (push_message-snapshot id m s)

channel_of :
    {ms ns : List Message} {unread scroll : ℕ}
    → ms ≡ ns
    → ◌≡◌ {A = ChannelState}
        (record { messages = ms; unread_count = unread; scroll_offset = scroll })
        (record { messages = ns; unread_count = unread; scroll_offset = scroll })
channel_of {unread = unread} {scroll = scroll} p =
    λ i. record { messages = p i; unread_count = unread; scroll_offset = scroll }

-- After any messages were pushed to a channel, it holds the last `max_messages` of what it held
-- and them, in order; where the channel is not on the screen or is scrolled up, each has been
-- counted as unread, and elsewhere none; the scroll offset is as before.
pub push_messages-snapshot :
    (id : Text) (ms : List Message) (s : AppState)
    → length (channel_snapshot id s).messages ≤ max_messages
    → channel_snapshot id (push_messages id ms s) ≡ record {
      messages = window max_messages ((channel_snapshot id s).messages ++ ms);
      unread_count =
          unread_after (counts_unread id s) (channel_snapshot id s).unread_count (length ms);
      scroll_offset = (channel_snapshot id s).scroll_offset;
    }
push_messages-snapshot id ms s h =
    push_messages-receive_all id ms s
    ∙ receive_all_lem (not (text_eq id s.active)) ms (channel_snapshot id s)
    ∙ channel_of (push_all-window max_messages (channel_snapshot id s).messages ms h (omega arith))
