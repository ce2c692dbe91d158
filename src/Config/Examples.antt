-- ===== src/Config/Examples.antt =====
-- A TOML library and a file system that obey the laws: values are lists of numbers behind a tag.
use ircord_client.Base.{
  ℕ, zero, suc, ◌==◌, ◌≡◌, refl, ap, Bool, true, false, ◌&&◌, Option, none, some, List, [], ◌∷◌,
  ◌++◌, if◌then◌else◌, length, take, drop, Text, codes, text_eq, text_eq_refl, arith, Bool-cases,
  inl, inr,
}
use ircord_client.Base.Assoc.{Assoc, is_some, lookup, insert, erase, lookup-insert, lookup-erase}
use ircord_client.Config.TomlLibrary.{Toml}
use ircord_client.Config.FileSystem.{Files, Removal, removed, failed}

abbrev pub framed : Text → Text → Text
framed s rest = length s ∷ (s ++ rest)

-- The first framed text, and the rest.
abbrev unframe : Text → Text × Text
unframe [] = ([], [])
unframe (n ∷ l) = (take n l, drop n l)

take_framed : (s rest : Text) → take (length s) (s ++ rest) ≡ s
take_framed [] rest = refl
take_framed (c ∷ s) rest = ap (λ l. c ∷ l) (take_framed s rest)

drop_framed : (s rest : Text) → drop (length s) (s ++ rest) ≡ rest
drop_framed [] rest = refl
drop_framed (c ∷ s) rest = drop_framed s rest

unframe-framed : (s rest : Text) → unframe (framed s rest) ≡ (s, rest)
unframe-framed s rest = rw (take_framed s rest, drop_framed s rest)

-- The entry_at among the first `n`.
unfoldable pub find_entry : ℕ → Text → Text → Text → Option Text
find_entry zero s k l = none
find_entry (suc n) s k l =
    let (s', l1) = unframe l in
    let (k', l2) = unframe l1 in
    let (v, l3) = unframe l2 in if text_eq s' s && text_eq k' k then some v else find_entry n s k l3

unfoldable pub find_texts : ℕ → Text → List Text
find_texts zero l = []
find_texts (suc n) l = (unframe l).0 ∷ find_texts n (unframe l).1

abbrev frame_all : List Text → Text
frame_all [] = []
frame_all (s ∷ ss) = framed s (frame_all ss)

pub find_texts-frame_all : (ss : List Text) → find_texts (length ss) (frame_all ss) ≡ ss
unfolding find_texts
find_texts-frame_all [] = refl
find_texts-frame_all (s ∷ ss) =
    rw (take_framed s (frame_all ss), drop_framed s (frame_all ss))
      (ap (λ l. s ∷ l) (find_texts-frame_all ss))

abbrev tagged : ℕ → Text → Option Text
tagged n [] = none
tagged n (t ∷ l) = if t == n then some l else none

find_assigned :
    (n : ℕ) (s k v l s' k' : Text)
    → find_entry (suc n) s' k' (framed s (framed k (framed v l)))
      ≡ (if text_eq s s' && text_eq k k' then some v else find_entry n s' k' l)
unfolding find_entry
find_assigned n s k v l s' k' = simp (take_framed, drop_framed)

abbrev as_text : Text → Option Text
as_text v = tagged 0 v

abbrev as_int : Text → Option ℕ
as_int [] = none
as_int (t ∷ []) = none
as_int (t ∷ n ∷ l) = if t == 1 then some n else none

abbrev as_bool : Text → Option Bool
as_bool [] = none
as_bool (t ∷ []) = none
as_bool (t ∷ n ∷ l) = if t == 2 then some (n == 1) else none

abbrev as_float : Text → Option ℕ
as_float [] = none
as_float (t ∷ []) = none
as_float (t ∷ n ∷ l) = if t == 3 then some n else none

abbrev as_texts : Text → Option (List Text)
as_texts [] = none
as_texts (t ∷ []) = none
as_texts (t ∷ n ∷ l) = if t == 4 then some (find_texts n l) else none

abbrev entry_at : Text → Text → Text → Option Text
entry_at s k [] = none
entry_at s k (t ∷ []) = none
entry_at s k (t ∷ n ∷ l) = if t == 5 then find_entry n s k l else none

abbrev admits : Text → Text → Bool
admits s [] = false
admits s (t ∷ []) = false
admits s (t ∷ n ∷ l) = t == 5

abbrev assign : Text → Text → Text → Text → Option Text
assign s k v [] = none
assign s k v (t ∷ []) = none
assign s k v (t ∷ n ∷ l) =
    if t == 5 then some (5 ∷ suc n ∷ framed s (framed k (framed v l))) else none

pub is_some-assign : (s k v d : Text) → is_some (assign s k v d) ≡ admits s d
is_some-assign s k v [] = refl
is_some-assign s k v (t ∷ []) = refl
is_some-assign s k v (t ∷ n ∷ l) = ground arith

pub admits-assign : (s k v d d' s' : Text) → assign s k v d ≡ some d' → admits s' d' ≡ admits s' d
admits-assign s k v [] d' s' e = cc e
admits-assign s k v (t ∷ []) d' s' e = cc e
admits-assign s k v (t ∷ n ∷ l) d' s' e = ground arith

pub entry_at-assign :
    (s k v d d' s' k' : Text)
    → assign s k v d ≡ some d'
    → entry_at s' k' d' ≡ (if text_eq s s' && text_eq k k' then some v else entry_at s' k' d)
entry_at-assign s k v [] d' s' k' e = cc e
entry_at-assign s k v (t ∷ []) d' s' k' e = cc e
entry_at-assign s k v (t ∷ n ∷ l) d' s' k' e = ground (arith, find_assigned n s k v l s' k')

abbrev of_bool : Bool → Text
of_bool b = 2 ∷ (if b then 1 else 0) ∷ []

pub as_bool-of_bool : (b : Bool) → as_bool (of_bool b) ≡ some b
as_bool-of_bool b = ground arith

pub entry_at-empty : (s k : Text) → entry_at s k (5 ∷ 0 ∷ []) ≡ none
unfolding find_entry
entry_at-empty s k = refl

abbrev pub library : Toml Text ℕ
library = record {
  empty = 5 ∷ 0 ∷ [];
  entry = entry_at;
  admits = admits;
  assign = assign;
  as_text = as_text;
  as_int = as_int;
  as_bool = as_bool;
  as_float = as_float;
  as_texts = as_texts;
  of_text = λ x. 0 ∷ x;
  of_int = λ n. 1 ∷ n ∷ [];
  of_bool = of_bool;
  of_float = λ n. 3 ∷ n ∷ [];
  of_texts = λ l. 4 ∷ length l ∷ frame_all l;
  parse = λ t. some t;
  print = λ d. d;
  as_text-of_text = λ x. refl;
  as_int-of_int = λ x h. refl;
  as_bool-of_bool = as_bool-of_bool;
  as_float-of_float = λ x. refl;
  as_texts-of_texts = λ x. ap some (find_texts-frame_all x);
  entry-empty = entry_at-empty;
  admits-empty = λ s. refl;
  is_some-assign = is_some-assign;
  admits-assign = admits-assign;
  entry-assign = entry_at-assign;
  parse-print = λ d. (d, refl, λ s k. refl);
}

-- A disk is its files; one of them cannot be removed.
abbrev pub locked : Text
locked = codes "/locked"

abbrev removal : Text → Assoc Text → Assoc Text × Removal
removal p d = if text_eq locked p then (d, failed (codes "busy")) else (erase p d, removed 1)

pub exists-removal :
    (p : Text) (d : Assoc Text) (n : ℕ)
    → (removal p d).1 ≡ removed n
    → is_some (lookup p (removal p d).0) ≡ false
exists-removal p d n e = elim (Bool-cases (text_eq locked p)) [
  | inl is_locked ↦ absurd (cc (e, is_locked))
  | inr free ↦ rw free (rw (lookup-erase p p d) (rw (text_eq_refl p) refl))
]

pub removal_makes_nothing :
    (p q : Text) (d : Assoc Text)
    → is_some (lookup q d) ≡ false
    → is_some (lookup q (removal p d).0) ≡ false
removal_makes_nothing p q d h = elim (Bool-cases (text_eq locked p)) [
  | inl is_locked ↦ rw is_locked h
  | inr free ↦ rw free (rw (lookup-erase p q d) (ground arith))
]

lookup_same : (p t : Text) (d : Assoc Text) → lookup p (insert p t d) ≡ some t
lookup_same p t d = rw (lookup-insert p p t d) (rw (text_eq_refl p) refl)

pub contents-write :
    (p t : Text) (d d' : Assoc Text)
    → some (insert p t d) ≡ some d'
    → (is_some (lookup p d') ≡ true) × (lookup p d' ≡ some t)
contents-write p t d d' e = ground (arith, lookup_same p t d)

abbrev pub file_system : Files (Assoc Text)
file_system = record {
  exists = λ p d. is_some (lookup p d);
  is_directory = λ p d. false;
  contents = lookup;
  write = λ p t d. some (insert p t d);
  remove = removal;
  remove_all = removal;
  contents-write = contents-write;
  exists-remove = exists-removal;
  exists-remove_all = exists-removal;
  remove_makes_nothing = removal_makes_nothing;
  remove_all_makes_nothing = removal_makes_nothing;
}
