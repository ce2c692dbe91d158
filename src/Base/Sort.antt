-- ===== src/Base/Sort.antt =====
-- `std::sort` by a comparator, as insertion sort: elements that the comparator tells apart have
-- one sorted arrangement, so every algorithm gives this one.
use mathlib.Core.Path.{◌≡◌}
use mathlib.Core.Logic.{◌⊎◌, inl, inr}
use mathlib.Core.Bool.{Bool, true, false}
use mathlib.Core.List.{List, [], ◌∷◌, Perm}
use mathlib.Core.List.Perm
use ircord_client.Base.Tests.{if◌then◌else◌, Bool-cases}

module _ {ℓ} {A : Type ℓ} (lt : A → A → Bool) where
  unfoldable pub insert_sorted : A → List A → List A
  insert_sorted a [] = a ∷ []
  insert_sorted a (x ∷ xs) = if lt x a then x ∷ insert_sorted a xs else a ∷ x ∷ xs

  unfoldable pub sort : List A → List A
  unfolding insert_sorted
  sort [] = []
  sort (x ∷ xs) = insert_sorted x (sort xs)

  -- `x` may stand before `y`: the comparator does not ask for the other order.
  abbrev pub MayPrecede : A → A → Type ℓ
  MayPrecede x y = (lt y x ≡ false) ⊎ (x ≡ y)

  abbrev pub Heads : A → List A → Type ℓ
  Heads x [] = Unit {ℓ}
  Heads x (y ∷ ys) = MayPrecede x y

  -- Each element may precede the next.
  abbrev pub IsSorted : List A → Type ℓ
  IsSorted [] = Unit {ℓ}
  IsSorted (x ∷ xs) = Heads x xs × IsSorted xs

  pub insert_sorted-perm : (a : A) (xs : List A) → Perm (insert_sorted a xs) (a ∷ xs)
  unfolding insert_sorted
  insert_sorted-perm a [] = Perm.refl _
  insert_sorted-perm a (x ∷ xs) = elim (Bool-cases (lt x a)) [
    | inl e ↦ rw e (Perm.trans (Perm.cons x (insert_sorted-perm a xs)) (Perm.swap a x xs))
    | inr e ↦ rw e (Perm.refl _)
  ]

  -- Sorting loses and invents nothing.
  pub sort-perm : (xs : List A) → Perm (sort xs) xs
  unfolding sort
  sort-perm [] = Perm.refl _
  sort-perm (x ∷ xs) = Perm.trans (insert_sorted-perm x (sort xs)) (Perm.cons x (sort-perm xs))

  -- The comparator never asks for both orders of two different elements.
  abbrev pub IsAsym : Type ℓ
  IsAsym = (x y : A) → lt x y ≡ true → MayPrecede x y

  Heads-insert_sorted :
      (x a : A) (xs : List A) → MayPrecede x a → Heads x xs → Heads x (insert_sorted a xs)
  unfolding insert_sorted
  Heads-insert_sorted x a [] h k = h
  Heads-insert_sorted x a (y ∷ ys) h k = elim (Bool-cases (lt y a)) [
    | inl e ↦ rw e k
    | inr e ↦ rw e h
  ]

  insert_sorted-IsSorted :
      IsAsym → (a : A) (xs : List A) → IsSorted xs → IsSorted (insert_sorted a xs)
  unfolding insert_sorted
  insert_sorted-IsSorted asym a [] h = (tt, tt)
  insert_sorted-IsSorted asym a (x ∷ xs) h = elim (Bool-cases (lt x a)) [
    | inl e ↦
        rw e (Heads-insert_sorted x a xs (asym x a e) h.0, insert_sorted-IsSorted asym a xs h.1)
    | inr e ↦ rw e (inl e, h)
  ]

  pub sort-IsSorted : IsAsym → (xs : List A) → IsSorted (sort xs)
  unfolding sort
  sort-IsSorted asym [] = tt
  sort-IsSorted asym (x ∷ xs) = insert_sorted-IsSorted asym x (sort xs) (sort-IsSorted asym xs)
