-- ===== src/App/Sanitize.antt =====
-- src/app.cpp: the names of channels that may be joined.
use ircord_client.Base.{
  ℕ, ◌≡◌, refl, ap, true, false, some, [], ◌∷◌, ◌⊎◌, inl, inr, Text, codes, text_eq, ◌==◌, arith,
  Bool-cases,
}
use ircord_client.Command.{is_space, lower}
use ircord_client.App.{
  is_server_channel, trim_end, trim_ascii_whitespace, is_valid_channel_char, all_valid, with_hash,
  checked_name, sanitized, sanitize_channel_name,
}

-- A `#` and then letters, digits, `_`, `-` and `.`, at least one.
abbrev pub IsChannelName : Text → Type 0
IsChannelName n = (c : ℕ) × (s : Text) × (n ≡ 35 ∷ c ∷ s) × (all_valid (c ∷ s) ≡ true)

valid-is_space : (c : ℕ) → is_valid_channel_char c ≡ true → is_space c ≡ false
valid-is_space c h = ground arith

trim_end-valid : (s : Text) → all_valid s ≡ true → trim_end s ≡ s
trim_end-valid [] h = refl
trim_end-valid (c ∷ s) h = ground (arith, trim_end-valid s, valid-is_space c)

trim_name : (s : Text) → all_valid s ≡ true → trim_ascii_whitespace (35 ∷ s) ≡ 35 ∷ s
unfolding trim_ascii_whitespace
trim_name s h = ap (λ l. 35 ∷ l) (trim_end-valid s h)

checked_name-IsChannelName : (t n : Text) → checked_name (with_hash t) ≡ some n → IsChannelName n
checked_name-IsChannelName [] n h = absurd (cc h)
checked_name-IsChannelName (c ∷ []) n h = elim (Bool-cases (c == 35)) [
  | inl hash ↦ absurd (ground arith)
  | inr other ↦ (c, [], ground arith, ground arith)
]
checked_name-IsChannelName (c ∷ d ∷ s) n h = elim (Bool-cases (c == 35)) [
  | inl hash ↦ (d, s, ground arith, ground arith)
  | inr other ↦ (c, d ∷ s, ground arith, ground arith)
]

hash-is_server_channel : (s : Text) → is_server_channel (35 ∷ s) ≡ false
unfolding is_server_channel lower text_eq
hash-is_server_channel s = ground arith

-- Such a name is taken as it is.
IsChannelName-sanitize : (n : Text) → IsChannelName n → sanitize_channel_name n ≡ some n
unfolding sanitize_channel_name sanitized
IsChannelName-sanitize n (c, s, e, h) =
    let trimmed : trim_ascii_whitespace (35 ∷ c ∷ s) ≡ 35 ∷ c ∷ s = trim_name (c ∷ s) h in
    rw e (
      rw (trimmed, sanitize_channel_name)
        (rw (hash-is_server_channel (c ∷ s)) (rw (h, all_valid) refl)))

server-sanitize : sanitize_channel_name (codes "server") ≡ some (codes "server")
unfolding sanitize_channel_name sanitized trim_ascii_whitespace is_server_channel lower text_eq
server-sanitize = refl

sanitized-IsChannelName :
    (t n : Text) → sanitized t ≡ some n → (n ≡ codes "server") ⊎ IsChannelName n
unfolding sanitized
sanitized-IsChannelName [] n h = absurd (cc h)
sanitized-IsChannelName (c ∷ s) n h = elim (Bool-cases (is_server_channel (c ∷ s))) [
  | inl tab ↦ inl (ground arith)
  | inr other ↦ inr (checked_name-IsChannelName (c ∷ s) n (ground arith))
]

-- What is accepted as the name of a channel is the internal tab or a `#` with letters, digits, `_`,
-- `-` and `.` behind it, and is accepted again as it is.
pub sanitize_channel_name-IsChannelName :
    (raw n : Text)
    → sanitize_channel_name raw ≡ some n
    → ((n ≡ codes "server") ⊎ IsChannelName n) × (sanitize_channel_name n ≡ some n)
unfolding sanitize_channel_name
sanitize_channel_name-IsChannelName raw n h =
    let kind = sanitized-IsChannelName (trim_ascii_whitespace raw) n h in (kind, again kind)
  where
    again : (n ≡ codes "server") ⊎ IsChannelName n → sanitize_channel_name n ≡ some n
    again (inl tab) = rw tab server-sanitize
    again (inr name) = IsChannelName-sanitize n name
