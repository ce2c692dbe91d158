-- ===== src/Config/Patches.antt =====
-- The assignments of src/config.cpp as one patch: the entries of the document afterwards.
use ircord_client.Base.{
  ◌≡◌, refl, ◌∙◌, true, Option, none, some, List, [], ◌∷◌, if◌then◌else◌, Text, text_eq, arith,
  Option-cases, inl, inr,
}
use ircord_client.Base.Assoc.{Assoc}
use ircord_client.Config.TomlLibrary.{Toml}
use ircord_client.Config.Values.{assign_keys, assign_all}

abbrev pub or_else {ℓ} : {A : Type ℓ} → Option A → Option A → Option A
or_else none o = o
or_else (some a) o = some a

-- The value of the last assignment to a key.
abbrev pub latest {ℓ} : {V : Type ℓ} → Text → Assoc V → Option V
latest k [] = none
latest k ((j, v) ∷ vs) = or_else (latest k vs) (if text_eq j k then some v else none)

abbrev pub in_section {ℓ} : {V : Type ℓ} → Text → Text → Text → Assoc V → Option V
in_section section s k vs = if text_eq section s then latest k vs else none

abbrev pub written {ℓ} : {V : Type ℓ} → Text → Text → List (Text × Assoc V) → Option V
written s k [] = none
written s k ((section, vs) ∷ ss) = or_else (written s k ss) (in_section section s k vs)

module _ {Value Float : Type 0} (toml : Toml Value Float) where
  -- `d'` is `d` patched by `f`.
  pub record IsPatch (f : Text → Text → Option Value) (d d' : Value) : Type 0 where
    pub admits_eq : (s : Text) → toml.admits s d' ≡ toml.admits s d
    pub entry_eq : (s k : Text) → toml.entry s k d' ≡ or_else (f s k) (toml.entry s k d)

  pub assign_keys-IsPatch :
      (section : Text) (vs : Assoc Value) (d : Value)
      → toml.admits section d ≡ true
      → (d' : Value) × (assign_keys toml section vs d ≡ some d')
        × IsPatch (λ s k. in_section section s k vs) d d'
  unfolding assign_keys
  assign_keys-IsPatch section [] d h =
      (d, refl, record { admits_eq = λ s. refl; entry_eq = λ s k. ground arith })
  assign_keys-IsPatch section ((key, v) ∷ vs) d h =
      elim (Option-cases (toml.assign section key v d)) [
        | inl e ↦ absurd (cc (toml.is_some-assign section key v d))
        | inr (d1, e) ↦
            let (d', e', p) =
              assign_keys-IsPatch section vs d1
                (toml.admits-assign section key v d d1 section e ∙ h) in
            (
              d',
              rw (e, assign_keys) e',
              record {
                admits_eq = λ s. p.admits_eq s ∙ toml.admits-assign section key v d d1 s e;
                entry_eq = λ s k.
                    ground (arith, p.entry_eq s k, toml.entry-assign section key v d d1 s k e);
              },
            )
      ]

  -- Every section that is assigned to can be.
  abbrev pub Admits : List (Text × Assoc Value) → Value → Type 0
  Admits [] d = Unit
  Admits ((section, vs) ∷ ss) d = (toml.admits section d ≡ true) × Admits ss d

  moved-Admits :
      (ss : List (Text × Assoc Value)) (d d' : Value)
      → ((s : Text) → toml.admits s d' ≡ toml.admits s d)
      → Admits ss d
      → Admits ss d'
  moved-Admits [] d d' eq h = h
  moved-Admits ((section, vs) ∷ ss) d d' eq h = (eq section ∙ h.0, moved-Admits ss d d' eq h.1)

  pub empty-Admits : (ss : List (Text × Assoc Value)) → Admits ss toml.empty
  empty-Admits [] = tt
  empty-Admits ((section, vs) ∷ ss) = (toml.admits-empty section, empty-Admits ss)

  pub assign_all-IsPatch :
      (ss : List (Text × Assoc Value)) (d : Value)
      → Admits ss d
      → (d' : Value) × (assign_all toml ss d ≡ some d') × IsPatch (λ s k. written s k ss) d d'
  unfolding assign_all
  assign_all-IsPatch [] d h = (d, refl, record { admits_eq = λ s. refl; entry_eq = λ s k. refl })
  assign_all-IsPatch ((section, vs) ∷ ss) d h =
      let (d1, e1, p1) = assign_keys-IsPatch section vs d h.0 in
      let (d', e', p) = assign_all-IsPatch ss d1 (moved-Admits ss d d1 p1.admits_eq h.1) in
      (
        d',
        rw (e1, assign_all) e',
        record {
          admits_eq = λ s. p.admits_eq s ∙ p1.admits_eq s;
          entry_eq = λ s k. ground (arith, p.entry_eq s k, p1.entry_eq s k);
        },
      )
