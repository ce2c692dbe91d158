-- ===== src/Config/Clear.antt =====
-- src/config.cpp: what clearing the local state of the client leaves.
use ircord_client.Base.{
  ℕ, ◌+◌, ◌≡◌, refl, ◌∙◌, subst, ◌⊎◌, sym, ap, true, false, none, some, List, [], ◌∷◌, ◌++◌,
  if◌then◌else◌, All, Text, Bool-cases, inl, inr,
}
use ircord_client.Config.FileSystem.{Files, Removal, removed, failed}
use ircord_client.Config.{remove_target, remove_targets}

module _ {Disk : Type 0} (files : Files Disk) where
  remove_target_makes_nothing :
      (p q : Text) (d : Disk)
      → files.exists q d ≡ false
      → files.exists q (remove_target files p d).0 ≡ false
  remove_target_makes_nothing p q d h = elim (Bool-cases (files.is_directory p d)) [
    | inl dir ↦ rw dir (files.remove_all_makes_nothing p q d h)
    | inr file ↦ rw file (files.remove_makes_nothing p q d h)
  ]

  exists-remove_target :
      (p : Text) (d : Disk) (n : ℕ)
      → (remove_target files p d).1 ≡ removed n
      → files.exists p (remove_target files p d).0 ≡ false
  exists-remove_target p d n e = elim (Bool-cases (files.is_directory p d)) [
    | inl dir ↦ rw dir (
        files.exists-remove_all p d n
          (subst (λ b. (if b then files.remove_all p d else files.remove p d).1 ≡ removed n) dir e))
    | inr file ↦ rw file (
        files.exists-remove p d n (
          subst (λ b. (if b then files.remove_all p d else files.remove p d).1 ≡ removed n) file e))
  ]

  Removal-cases : (r : Removal) → ((n : ℕ) × (r ≡ removed n)) ⊎ ((t : Text) × (r ≡ failed t))
  Removal-cases (removed n) = inl (n, refl)
  Removal-cases (failed t) = inr (t, refl)

  -- The loop's three ways with the first target.
  module _ (target : Text) (targets : List Text) (count : ℕ) (d : Disk) where
    skip_target :
        files.exists target d ≡ false
        → remove_targets files (target ∷ targets) count d ≡ remove_targets files targets count d
    unfolding remove_targets
    skip_target missing = rw (missing, remove_targets) refl

    take_target :
        (n : ℕ)
        → files.exists target d ≡ true
        → (remove_target files target d).1 ≡ removed n
        → remove_targets files (target ∷ targets) count d
          ≡ remove_targets files targets (count + n) (remove_target files target d).0
    unfolding remove_targets
    take_target n there e = rw (there, remove_targets) (rw (e, remove_targets) refl)

    stop_at_target :
        (reason : Text)
        → files.exists target d ≡ true
        → (remove_target files target d).1 ≡ failed reason
        → remove_targets files (target ∷ targets) count d
          ≡ ((remove_target files target d).0, count, some (target, reason))
    unfolding remove_targets
    stop_at_target reason there e = rw (there, remove_targets) (rw (e, remove_targets) refl)

  -- What does not exist stays so.
  remove_targets_makes_nothing :
      (q : Text) (targets : List Text) (count : ℕ) (d : Disk)
      → files.exists q d ≡ false
      → files.exists q (remove_targets files targets count d).0 ≡ false
  unfolding remove_targets
  remove_targets_makes_nothing q [] count d h = h
  remove_targets_makes_nothing q (target ∷ targets) count d h =
      let h' = remove_target_makes_nothing target q d h in
      elim (Bool-cases (files.exists target d)) [
        | inr missing ↦
            rw (skip_target target targets count d missing)
              (remove_targets_makes_nothing q targets count d h)
        | inl there ↦ elim (Removal-cases (remove_target files target d).1) [
          | inl (n, e) ↦
              rw (take_target target targets count d n there e)
                (remove_targets_makes_nothing q targets (count + n) _ h')
          | inr (t, e) ↦ rw (stop_at_target target targets count d t there e) h'
        ]
      ]

  abbrev pub AreGone : List Text → Disk → Type 0
  AreGone targets d = All (λ t. files.exists t d ≡ false) targets

  -- Where no target's removal throws, none of the targets exists after the loop.
  pub remove_targets-AreGone :
      (targets : List Text) (count : ℕ) (d : Disk)
      → (remove_targets files targets count d).2 ≡ none
      → AreGone targets (remove_targets files targets count d).0
  remove_targets-AreGone [] count d h = tt
  remove_targets-AreGone (target ∷ targets) count d h = elim (Bool-cases (files.exists target d)) [
    | inr missing ↦
        let same = skip_target target targets count d missing in
        subst (λ r. AreGone (target ∷ targets) r.0) (sym same)
          (
            remove_targets_makes_nothing target targets count d missing,
            remove_targets-AreGone targets count d (sym (ap (λ r. r.2) same) ∙ h),
          )
    | inl there ↦ elim (Removal-cases (remove_target files target d).1) [
      | inl (n, e) ↦
          let same = take_target target targets count d n there e in
          subst (λ r. AreGone (target ∷ targets) r.0) (sym same)
            (
              remove_targets_makes_nothing target targets (count + n) _
                  (exists-remove_target target d n e),
              remove_targets-AreGone targets (count + n) _ (sym (ap (λ r. r.2) same) ∙ h),
            )
      | inr (t, e) ↦
          absurd (cc (ap (λ r. r.2) (stop_at_target target targets count d t there e), h))
    ]
  ]

  -- Where the removal of a target throws, those before it are gone.
  pub remove_targets-StopsAt :
      (targets : List Text) (count : ℕ) (d : Disk) (t reason : Text)
      → (remove_targets files targets count d).2 ≡ some (t, reason)
      → (before : List Text) × (after : List Text) × (targets ≡ before ++ (t ∷ after))
        × AreGone before (remove_targets files targets count d).0
  unfolding remove_targets
  remove_targets-StopsAt [] count d t reason h = absurd (cc h)
  remove_targets-StopsAt (target ∷ targets) count d t reason h =
      elim (Bool-cases (files.exists target d)) [
        | inr missing ↦
            let same = skip_target target targets count d missing in
            let (before, after, e, gone) =
              remove_targets-StopsAt targets count d t reason (sym (ap (λ r. r.2) same) ∙ h) in
            (
              target ∷ before,
              after,
              ap (λ l. target ∷ l) e,
              subst (λ r. AreGone (target ∷ before) r.0) (sym same)
                  (remove_targets_makes_nothing target targets count d missing, gone),
            )
        | inl there ↦ elim (Removal-cases (remove_target files target d).1) [
          | inl (n, taken) ↦
              let same = take_target target targets count d n there taken in
              let (before, after, e, gone) =
                remove_targets-StopsAt targets (count + n) _ t reason
                  (sym (ap (λ r. r.2) same) ∙ h) in
              (
                target ∷ before,
                after,
                ap (λ l. target ∷ l) e,
                subst (λ r. AreGone (target ∷ before) r.0) (sym same)
                    (
                      remove_targets_makes_nothing target targets (count + n) _
                          (exists-remove_target target d n taken),
                      gone,
                    ),
              )
          | inr (text, e) ↦ (
            [],
            targets,
            ap (λ x. x ∷ targets)
                (cc (ap (λ r. r.2) (stop_at_target target targets count d text there e), h)),
            tt,
          )
        ]
      ]
