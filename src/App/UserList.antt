-- ===== src/App/UserList.antt =====
-- src/app.cpp: the user list in the answer to `names`.
use ircord_client.Base.{
  ◌≡◌, refl, ◌∙◌, ap, Bool, true, false, not, ◌&&◌, some, List, [], ◌∷◌, ◌++◌, map, All, length,
  ltb, ◌==◌, Text, codes, arith,
}
use ircord_client.AppState.{
  ChannelUserInfo, UserRole, regular, voice, admin, display_name, role_prefix,
}
use ircord_client.App.{
  find_header, get_lines, cons_line, info_of, info_of_line, infos_of, channel_of_names, parse_names,
}

-- The format that the source's comment gives: `Users in #channel:`, and a line for each user with `@`
-- or `+` in front for the role.
abbrev pub name_lines : List ChannelUserInfo → Text
name_lines [] = []
name_lines (u ∷ us) = display_name u ++ (10 ∷ name_lines us)

abbrev pub names_text : Text → List ChannelUserInfo → Text
names_text channel us = (codes "Users in " ++ channel) ++ (58 ∷ 10 ∷ name_lines us)

-- The name of a regular user does not begin with a mark of a role.
abbrev pub is_nick : UserRole → Text → Bool
is_nick regular [] = false
is_nick regular (c ∷ s) = not (c == 64) && not (c == 43)
is_nick _ s = true

abbrev pub IsListed : ChannelUserInfo → Type 0
IsListed u = (is_nick u.role u.user_id ≡ true) × All (λ c. (c == 10) ≡ false) u.user_id

find_header-head :
    (head rest : Text)
    → All (λ c. (c == 58) ≡ false) head
    → find_header (head ++ (58 ∷ 10 ∷ rest)) ≡ some (head, rest)
unfolding find_header
find_header-head [] rest h = refl
find_header-head (c ∷ []) rest h = rw (h.0, find_header) refl
find_header-head (c ∷ d ∷ head) rest h =
    rw (h.0, find_header) (rw (find_header-head (d ∷ head) rest h.1, find_header) refl)

get_lines-line :
    (name rest : Text)
    → All (λ c. (c == 10) ≡ false) name
    → get_lines (name ++ (10 ∷ rest)) ≡ name ∷ get_lines rest
unfolding get_lines
get_lines-line [] rest h = refl
get_lines-line (c ∷ name) rest h =
    rw (h.0, get_lines) (ap (cons_line c) (get_lines-line name rest h.1))

display_name-line :
    (u : ChannelUserInfo) (rest : Text)
    → All (λ c. (c == 10) ≡ false) u.user_id
    → get_lines (display_name u ++ (10 ∷ rest)) ≡ display_name u ∷ get_lines rest
unfolding display_name
display_name-line u rest h = get_lines-line (display_name u) rest (marked u.role u.user_id h)
  where
    marked :
        (r : UserRole) (id : Text)
        → All (λ c. (c == 10) ≡ false) id
        → All (λ c. (c == 10) ≡ false) (role_prefix r ++ id)
    marked admin id h = (refl, h)
    marked voice id h = (refl, h)
    marked regular id h = h

info-display_name :
    (r : UserRole) (id : Text)
    → is_nick r id ≡ true
    → info_of_line (role_prefix r ++ id) ≡ info_of r id ∷ []
info-display_name admin id h = refl
info-display_name voice id h = refl
info-display_name regular [] h = absurd (cc h)
info-display_name regular (c ∷ s) h = ground arith

infos-name_lines :
    (us : List ChannelUserInfo)
    → All IsListed us
    → infos_of (get_lines (name_lines us)) ≡ map (λ u. info_of u.role u.user_id) us
unfolding get_lines display_name
infos-name_lines [] h = refl
infos-name_lines (u ∷ us) h =
    ap infos_of (display_name-line u (name_lines us) h.0.1)
    ∙ ap (◌++ infos_of (get_lines (name_lines us))) (info-display_name u.role u.user_id h.0.0)
    ∙ ap (info_of u.role u.user_id ∷◌) (infos-name_lines us h.1)

channel_of_names-names_text :
    (channel : Text) (us : List ChannelUserInfo)
    → channel_of_names (names_text channel us) (codes "Users in " ++ channel) ≡ some channel
channel_of_names-names_text channel us =
    let long : ltb (length (names_text channel us)) 9 ≡ false = ground arith in
    let head_long : ltb (length (codes "Users in " ++ channel)) 9 ≡ false = ground arith in
    rw (long, head_long) refl

-- The answer to `names` in the documented format is read as its channel and its users with their
-- roles, if the channel has no colon, no name has a line break, and a regular user's name is not empty
-- and does not begin with `@` or `+`.
pub parse_names-names_text :
    (channel : Text) (us : List ChannelUserInfo)
    → All (λ c. (c == 58) ≡ false) channel
    → All IsListed us
    → parse_names (names_text channel us)
      ≡ some (some (channel, map (λ u. info_of u.role u.user_id) us))
unfolding parse_names
parse_names-names_text channel us h k =
    let head = codes "Users in " ++ channel in
    let found =
      find_header-head head (name_lines us)
        (refl, (refl, (refl, (refl, (refl, (refl, (refl, (refl, (refl, h))))))))) in
    rw (found, parse_names)
      (rw (channel_of_names-names_text channel us)
        (ap (λ l. some (some (channel, l))) (infos-name_lines us k)))
