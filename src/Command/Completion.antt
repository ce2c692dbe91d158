-- ===== src/Command/Completion.antt =====
-- The candidates of a completion: which they are, and their order.
use ircord_client.Base.{
  ℕ, ◌≡◌, refl, inl, inr, true, List, [], ◌∷◌, ◌++◌, ◌==◌, if◌then◌else◌, All, Text, codes, arith,
  Bool-cases, text_lt, text_lt_asym,
}
use ircord_client.Base.Sort.{sort, insert_sorted, sort-perm, sort-IsSorted, IsSorted}
use ircord_client.Command.{build_candidates, matching, starts_with, lower}
use mathlib.Core.List.{Perm}

-- A candidate begins with what was typed, but for the case of its letters.
abbrev pub Extends : Text → Text → Type 0
Extends partial c = starts_with (lower partial) (lower c) ≡ true

lower-append : (s t : Text) → lower (s ++ t) ≡ lower s ++ lower t
unfolding lower
lower-append [] t = refl
lower-append (c ∷ s) t = ground (arith, lower-append s t)

starts_with-append : (p s t : Text) → starts_with p s ≡ true → starts_with p (s ++ t) ≡ true
unfolding starts_with
starts_with-append [] s t h = refl
starts_with-append (c ∷ p) [] t h = cc
starts_with-append (c ∷ p) (d ∷ s) t h = ground (arith, starts_with-append p s t)

matching-Extends :
    (partial suffix : Text) (ns : List Text) → All (Extends partial) (matching partial suffix ns)
unfolding matching
matching-Extends partial suffix [] = tt
matching-Extends partial suffix (n ∷ ns) =
    elim (Bool-cases (starts_with (lower partial) (lower n))) [
      | inl e ↦ rw e (
        rw lower-append (starts_with-append (lower partial) (lower n) (lower suffix) e),
        matching-Extends partial suffix ns,
      )
      | inr e ↦ rw e (matching-Extends partial suffix ns)
    ]

module _ (P : Text → Type 0) where
  All-insert_sorted :
      (a : Text) (xs : List Text) → P a → All P xs → All P (insert_sorted text_lt a xs)
  unfolding insert_sorted
  All-insert_sorted a [] h hs = (h, tt)
  All-insert_sorted a (x ∷ xs) h hs = elim (Bool-cases (text_lt x a)) [
    | inl e ↦ rw e (hs.0, All-insert_sorted a xs h hs.1)
    | inr e ↦ rw e (h, hs)
  ]

  All-sort : (xs : List Text) → All P xs → All P (sort text_lt xs)
  unfolding sort
  All-sort [] h = tt
  All-sort (x ∷ xs) h = All-insert_sorted x (sort text_lt xs) h.0 (All-sort xs h.1)

-- The names that a completion draws on, and what it puts behind them.
abbrev pub pool : ℕ → List Text → List Text → List Text → List Text
pool c users channels commands =
    if c == b'/' then commands else if c == b'#' then channels else users

abbrev pub suffix_of : ℕ → Text
suffix_of c = if c == b'/' then codes " " else if c == b'#' then [] else codes ": "

build_candidates_lem :
    (c : ℕ) (p : Text) (users channels commands : List Text)
    → build_candidates (c ∷ p) users channels commands
      ≡ sort text_lt (matching (c ∷ p) (suffix_of c) (pool c users channels commands))
unfolding build_candidates
build_candidates_lem c p users channels commands = ground arith

-- Whatever is typed but nothing, the candidates begin with it but for the case of letters, are in
-- ascending order, and are those names of the commands for a slash, of the channels for a "#" and of
-- the users else that begin so, each with its suffix and as often as it is there.
pub build_candidates-IsSorted :
    (c : ℕ) (p : Text) (users channels commands : List Text)
    → let found = build_candidates (c ∷ p) users channels commands in
      All (Extends (c ∷ p)) found
      × IsSorted text_lt found
      × Perm found (matching (c ∷ p) (suffix_of c) (pool c users channels commands))
build_candidates-IsSorted c p users channels commands =
    let names = matching (c ∷ p) (suffix_of c) (pool c users channels commands) in
    rw build_candidates_lem (
      All-sort (Extends (c ∷ p)) names
          (matching-Extends (c ∷ p) (suffix_of c) (pool c users channels commands)),
      sort-IsSorted text_lt (λ x y h. inl (text_lt_asym x y h)) names,
      sort-perm text_lt names,
    )
