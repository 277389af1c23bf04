-- ===== src/Resolver/Highest.antt =====
-- The highest version is selected.
use solix.Prelude.{
  ◌≡◌, ◌↔◌, refl, sym, ◌∙◌, ap, subst, ◌⊎◌, inl, inr, Bool, true, false, ◌&&◌, List, [], ◌∷◌,
  Option, some, none, All, List-cases, arith, Bool-cases,
}
use solix.SemVer.{ℤ, pos, negsuc, less, same_int}
use solix.SemVer.Order.{less_irrefl}
use solix.Resolver.{ProjectCandidate, back, same_major, same_as, same_majors, adopt, choose, select}

and-both : (b c : Bool) → (b && c) ≡ true → (b ≡ true) × (c ≡ true)
and-both true c h = (refl, h)
and-both false c h = absurd (cc)

same_int_refl : (n : ℤ) → same_int n n ≡ true
same_int_refl (pos n) = ground arith
same_int_refl (negsuc n) = ground arith

and-true : {b c : Bool} → b ≡ true → c ≡ true → (b && c) ≡ true
and-true h k = rw (h, k) refl

All-map {ℓ} :
    {A : Type ℓ} (P Q : A → Type 0) (l : List A) → ((a : A) → P a → Q a) → All P l → All Q l
All-map P Q [] f h = tt
All-map P Q (x ∷ xs) f (h, hs) = (f x h, All-map P Q xs f hs)

module _ {Files : Type 0} where
  -- No candidate is before one that stands in front of it.
  abbrev pub Sorted : List (ProjectCandidate Files) → Type 0
  Sorted [] = Unit
  Sorted (c ∷ cs) = All (λ d. less d.version c.version ≡ false) cs × Sorted cs

  -- `std::sort` by version: the result is sorted, and has the elements of the list and no other.
  pub record Sorts (sort : List (ProjectCandidate Files) → List (ProjectCandidate Files))
      : Type 1 where
    pub sorted : (cs : List (ProjectCandidate Files)) → Sorted (sort cs)
    pub kept :
        (P : ProjectCandidate Files → Type 0) (cs : List (ProjectCandidate Files))
        → All P cs ↔ All P (sort cs)

  -- A selected candidate has the major version of all and no version before one of them.
  pub record Highest (cs : List (ProjectCandidate Files)) (h : ProjectCandidate Files)
      : Type 0 where
    pub highest : All (λ c. less h.version c.version ≡ false) cs
    pub compatible : All (λ c. same_int c.version.major h.version.major ≡ true) cs

  adopt-version :
      (cs : List (ProjectCandidate Files)) (h : ProjectCandidate Files)
      → (adopt cs h).version ≡ h.version
  unfolding adopt
  adopt-version [] h = refl
  adopt-version (c ∷ cs) h = elim (Bool-cases c.explicit_profile) [
    | inl e ↦ rw e (
        adopt-version cs
          (record h { selected_profile = c.selected_profile; explicit_profile = true }))
    | inr e ↦ rw e (adopt-version cs h)
  ]

  back-All :
      (P : ProjectCandidate Files → Type 0) (c : ProjectCandidate Files)
      (cs : List (ProjectCandidate Files))
      → All P (c ∷ cs)
      → P (back c cs)
  back-All P c [] (h, _) = h
  back-All P c (d ∷ ds) (_, hs) = back-All P d ds hs

  back-highest :
      (c : ProjectCandidate Files) (cs : List (ProjectCandidate Files))
      → Sorted (c ∷ cs)
      → All (λ d. less (back c cs).version d.version ≡ false) (c ∷ cs)
  back-highest c [] h = (less_irrefl c.version, tt)
  back-highest c (d ∷ ds) (h, hs) =
      (back-All (λ x. less x.version c.version ≡ false) d ds h, back-highest d ds hs)

  same_as-All :
      (c : ProjectCandidate Files) (cs : List (ProjectCandidate Files))
      → same_as c cs ≡ true
      → All (λ d. same_major c d ≡ true) cs
  unfolding same_as
  same_as-All c [] h = tt
  same_as-All c (d ∷ ds) h =
      let (a, b) = and-both (same_major c d) (same_as c ds) h in (a, same_as-All c ds b)

  back-same :
      (c : ProjectCandidate Files) (cs : List (ProjectCandidate Files))
      → same_majors (c ∷ cs) ≡ true
      → All (λ d. same_major d (back c cs) ≡ true) (c ∷ cs)
  unfolding same_majors
  back-same c [] h = (same_int_refl c.version.major, tt)
  back-same c (d ∷ ds) h =
      let (a, b) = and-both (same_as c (d ∷ ds)) (same_majors (d ∷ ds)) h in
      (back-All (λ x. same_major c x ≡ true) d ds (same_as-All c (d ∷ ds) a), back-same d ds b)

  -- Any two candidates have the same major version.
  abbrev pub Agree : List (ProjectCandidate Files) → Type 0
  Agree cs = All (λ a. All (λ b. same_major a b ≡ true) cs) cs

  All-same_as :
      (c : ProjectCandidate Files) (cs : List (ProjectCandidate Files))
      → All (λ d. same_major c d ≡ true) cs
      → same_as c cs ≡ true
  unfolding same_as
  All-same_as c [] h = refl
  All-same_as c (d ∷ ds) (h, hs) = and-true h (All-same_as c ds hs)

  Agree-same_majors : (cs : List (ProjectCandidate Files)) → Agree cs → same_majors cs ≡ true
  unfolding same_majors
  Agree-same_majors [] h = refl
  Agree-same_majors (c ∷ cs) ((_, h), hs) = and-true (All-same_as c cs h) (
      Agree-same_majors cs (
        All-map (λ a. All (λ b. same_major a b ≡ true) (c ∷ cs))
          (λ a. All (λ b. same_major a b ≡ true) cs) cs (λ a k. k.1) hs))

  module _ (sort : List (ProjectCandidate Files) → List (ProjectCandidate Files))
      (sorts : Sorts sort) where
    Agree-sort : (cs : List (ProjectCandidate Files)) → Agree cs → Agree (sort cs)
    Agree-sort cs h = (sorts.kept (λ a. All (λ b. same_major a b ≡ true) (sort cs)) cs).0 (
        All-map (λ a. All (λ b. same_major a b ≡ true) cs)
          (λ a. All (λ b. same_major a b ≡ true) (sort cs)) cs
          (λ a k. (sorts.kept (λ b. same_major a b ≡ true) cs).0 k) h)

    of_sorted :
        (cs : List (ProjectCandidate Files)) (s : ProjectCandidate Files)
        (ss : List (ProjectCandidate Files))
        → sort cs ≡ s ∷ ss
        → (P : ProjectCandidate Files → Type 0) → All P (s ∷ ss)
        → All P cs
    of_sorted cs s ss e P h = (sorts.kept P cs).1 (subst (All P) (sym e) h)

    -- No two candidates may differ, or the highest one is selected.
    abbrev pub Selected :
        List (ProjectCandidate Files) → Option (List (ProjectCandidate Files)) → Type 0
    Selected cs o =
        ((o ≡ none) × (Agree cs → ⊥))
        ⊎ ((h : ProjectCandidate Files) × (o ≡ some (h ∷ [])) × Highest cs h)

    choose-Selected :
        (cs : List (ProjectCandidate Files)) (s : ProjectCandidate Files)
        (ss : List (ProjectCandidate Files))
        → sort cs ≡ s ∷ ss
        → Selected cs (choose (sort cs))
    unfolding choose
    choose-Selected cs s ss e =
        let best = back s ss in
        let ordered : Sorted (s ∷ ss) = subst Sorted e (sorts.sorted cs) in
        elim (Bool-cases (same_majors (s ∷ ss))) [
          | inl k ↦ inr (
            adopt (s ∷ ss) best,
            ap choose e ∙ rw k refl,
            record {
              highest =
                  subst (λ v. All (λ c. less v c.version ≡ false) cs)
                    (sym (adopt-version (s ∷ ss) best))
                    (of_sorted cs s ss e (λ c. less best.version c.version ≡ false)
                      (back-highest s ss ordered));
              compatible =
                  subst (λ v. All (λ c. same_int c.version.major v.major ≡ true) cs)
                    (sym (adopt-version (s ∷ ss) best))
                    (of_sorted cs s ss e (λ c. same_major c best ≡ true) (back-same s ss k));
            },
          )
          | inr k ↦ inl (
            ap choose e ∙ rw k refl,
            λ a. let same = Agree-same_majors (s ∷ ss) (subst Agree e (Agree-sort cs a)) in cc,
          )
        ]

    -- Of the candidates for a project, one at least and with a sort that keeps the elements and
    -- leaves no version before one in front of it, either the resolution fails and two of them
    -- differ in the major version, or exactly one is selected, no candidate has a version above
    -- it, and all have its major version.
    pub select-Selected :
        (c : ProjectCandidate Files) (cs : List (ProjectCandidate Files))
        → Selected (c ∷ cs) (select sort (c ∷ cs))
    unfolding select
    select-Selected c [] = inr (
      c,
      refl,
      record {
        highest = (less_irrefl c.version, tt);
        compatible = (same_int_refl c.version.major, tt);
      },
    )
    select-Selected c (d ∷ ds) = elim (List-cases (sort (c ∷ d ∷ ds))) [
      | inl e ↦ absurd ((sorts.kept (λ _. ⊥) (c ∷ d ∷ ds)).1 (subst (All (λ _. ⊥)) (sym e) tt)).0
      | inr (s, ss, e) ↦ choose-Selected (c ∷ d ∷ ds) s ss e
    ]
