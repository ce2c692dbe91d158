-- ===== src/Base/Assoc.antt =====
-- Maps from texts: an association list, in the container's order of iteration.
use mathlib.Core.Path.{◌≡◌, refl}
use mathlib.Core.Bool.{Bool, true, false}
use mathlib.Core.Option.{Option, none, some}
use mathlib.Core.List.{List, [], ◌∷◌}
use native.Mathlib.Omega.{arith}
use ircord_client.Base.Tests.{if◌then◌else◌}
use ircord_client.Base.Texts.{Text, text_eq, text_eq_iff}

abbrev pub Assoc {ℓ} : Type ℓ → Type ℓ
Assoc V = List (Text × V)

module _ {ℓ} {V : Type ℓ} where
  -- `find`
  unfoldable pub lookup : Text → Assoc V → Option V
  lookup k [] = none
  lookup k ((j, v) ∷ m) = if text_eq j k then some v else lookup k m

  -- `m[k] = v`
  unfoldable pub insert : Text → V → Assoc V → Assoc V
  insert k v [] = (k, v) ∷ []
  insert k v ((j, w) ∷ m) = if text_eq j k then (j, v) ∷ m else (j, w) ∷ insert k v m

  unfoldable pub erase : Text → Assoc V → Assoc V
  erase k [] = []
  erase k ((j, w) ∷ m) = if text_eq j k then erase k m else (j, w) ∷ erase k m

  -- `it->second` is updated where `find` gives an iterator.
  unfoldable pub adjust : Text → (V → V) → Assoc V → Assoc V
  adjust k f [] = []
  adjust k f ((j, w) ∷ m) = if text_eq j k then (j, f w) ∷ m else (j, w) ∷ adjust k f m

  -- An update of the value under each key.
  unfoldable pub map_values : (V → V) → Assoc V → Assoc V
  map_values f [] = []
  map_values f ((j, w) ∷ m) = (j, f w) ∷ map_values f m

  abbrev pub is_some : Option V → Bool
  is_some none = false
  is_some (some v) = true

  -- `count`
  abbrev pub contains : Text → Assoc V → Bool
  contains k m = is_some (lookup k m)

  pub lookup-insert :
      (k j : Text) (v : V) (m : Assoc V)
      → lookup j (insert k v m) ≡ (if text_eq k j then some v else lookup j m)
  unfolding lookup insert
  lookup-insert k j v [] = refl
  lookup-insert k j v ((i, w) ∷ m) =
      ground (arith, text_eq_iff k j, text_eq_iff i k, text_eq_iff i j, lookup-insert k j v m)

  pub lookup-erase :
      (k j : Text) (m : Assoc V) → lookup j (erase k m) ≡ (if text_eq k j then none else lookup j m)
  unfolding lookup erase
  lookup-erase k j [] = ground arith
  lookup-erase k j ((i, w) ∷ m) =
      ground (arith, text_eq_iff k j, text_eq_iff i k, text_eq_iff i j, lookup-erase k j m)

  abbrev pub map_option : (V → V) → Option V → Option V
  map_option f none = none
  map_option f (some v) = some (f v)

  pub lookup-map_values :
      (f : V → V) (j : Text) (m : Assoc V) → lookup j (map_values f m) ≡ map_option f (lookup j m)
  unfolding lookup map_values
  lookup-map_values f j [] = refl
  lookup-map_values f j ((i, w) ∷ m) = ground (arith, lookup-map_values f j m)

  pub lookup-adjust :
      (k j : Text) (f : V → V) (m : Assoc V)
      → lookup j (adjust k f m) ≡ (if text_eq k j then map_option f (lookup j m) else lookup j m)
  unfolding lookup adjust
  lookup-adjust k j f [] = ground arith
  lookup-adjust k j f ((i, w) ∷ m) =
      ground (arith, text_eq_iff k j, text_eq_iff i k, text_eq_iff i j, lookup-adjust k j f m)

  -- `m[k]` where a missing key gets a default.
  abbrev pub or_default : V → Option V → V
  or_default d none = d
  or_default d (some v) = v

  -- The keys, in order of iteration.
  abbrev pub keys : Assoc V → List Text
  keys [] = []
  keys ((j, v) ∷ m) = j ∷ keys m
