-- ===== src/Resolver/Tests.antt =====
-- A choice between two versions, with the candidates sorted by insertion.
use solix.Prelude.{
  ℕ, ◌≡◌, ◌↔◌, Bool, true, false, ◌||◌, List, [], ◌∷◌, codes, All, if◌then◌else◌, Bool-cases, inl,
  inr,
}
use solix.SemVer.{pos, less}
use solix.SemVer.Order.{less-split, less_asym}
use solix.Resolver.{ProjectCandidate, select}
use solix.Resolver.Highest.{Sorted, Sorts, Selected, select-Selected}

abbrev Candidate : Type 0
Candidate = ProjectCandidate ℕ

unfoldable insert : Candidate → List Candidate → List Candidate
insert c [] = c ∷ []
insert c (d ∷ ds) =
    let rest = insert c ds in if less d.version c.version then d ∷ rest else c ∷ d ∷ ds

unfoldable insertion_sort : List Candidate → List Candidate
insertion_sort [] = []
insertion_sort (c ∷ cs) = insert c (insertion_sort cs)

insert-All :
    (P : Candidate → Type 0) (c : Candidate) (cs : List Candidate)
    → All P (c ∷ cs) ↔ All P (insert c cs)
unfolding insert
insert-All P c [] = (λ h. h, λ h. h)
insert-All P c (d ∷ ds) = elim (Bool-cases (less d.version c.version)) [
  | inl e ↦
      let (to, of) = insert-All P c ds in
      rw e (λ h. (h.1.0, to (h.0, h.1.1)), λ h. let k = of h.1 in (k.0, (h.0, k.1)))
  | inr e ↦ rw e (λ h. h, λ h. h)
]

sort-All : (P : Candidate → Type 0) (cs : List Candidate) → All P cs ↔ All P (insertion_sort cs)
unfolding insertion_sort
sort-All P [] = (λ h. h, λ h. h)
sort-All P (c ∷ cs) =
    let (to, of) = sort-All P cs in
    let (in_, out) = insert-All P c (insertion_sort cs) in
    (λ h. in_ (h.0, to h.1), λ h. let k = out h in (k.0, of k.1))

or-false : (b c : Bool) → b ≡ false → c ≡ false → (b || c) ≡ true → ⊥
or-false b c h k e = cc

-- What is not before `d`, where `c` is not before it, is not before `c`.
not_before :
    (c d : Candidate) (ds : List Candidate)
    → less d.version c.version ≡ false
    → All (λ x. less x.version d.version ≡ false) ds
    → All (λ x. less x.version c.version ≡ false) ds
not_before c d [] e h = tt
not_before c d (x ∷ xs) e (h, hs) = (
  elim (Bool-cases (less x.version c.version)) [
    | inl k ↦ absurd (
        or-false (less x.version d.version) (less d.version c.version) h e
          (less-split x.version d.version c.version k))
    | inr k ↦ k
  ],
  not_before c d xs e hs,
)

insert-Sorted : (c : Candidate) (cs : List Candidate) → Sorted cs → Sorted (insert c cs)
unfolding insert
insert-Sorted c [] h = (tt, tt)
insert-Sorted c (d ∷ ds) (h, hs) = elim (Bool-cases (less d.version c.version)) [
  | inl e ↦ rw e (
    (insert-All (λ x. less x.version d.version ≡ false) c ds).0
        (less_asym d.version c.version e, h),
    insert-Sorted c ds hs,
  )
  | inr e ↦ rw e ((e, not_before c d ds e h), (h, hs))
]

sort-Sorted : (cs : List Candidate) → Sorted (insertion_sort cs)
unfolding insertion_sort
sort-Sorted [] = tt
sort-Sorted (c ∷ cs) = insert-Sorted c (insertion_sort cs) (sort-Sorted cs)

insertion_sort-Sorts : Sorts insertion_sort
insertion_sort-Sorts = record { sorted = sort-Sorted; kept = sort-All }

abbrev candidate : ℕ → Bool → Candidate
candidate minor explicit = record {
  name = codes "json";
  version = record { major = pos 1; minor = pos minor; patch = pos 0; raw = [] };
  files = minor;
  selected_profile = codes "debug";
  explicit_profile = explicit;
}

select-Selected_example :
    Selected insertion_sort insertion_sort-Sorts
      (candidate 4 true ∷ candidate 2 false ∷ [])
      (select insertion_sort (candidate 4 true ∷ candidate 2 false ∷ []))
select-Selected_example =
    select-Selected insertion_sort insertion_sort-Sorts (candidate 4 true) (candidate 2 false ∷ [])
