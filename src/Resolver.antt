-- ===== src/Resolver.antt =====
-- The choice between versions in `resolve_graph` of tools/cli/src/dependency_resolver.hpp.
use solix.Prelude.{
  ℕ, Bool, true, false, ◌&&◌, List, [], ◌∷◌, ◌++◌, Bytes, if◌then◌else◌, Option, none, some,
}
use solix.Lexer.Scan.{same}
use solix.SemVer.{SemVer, same_int}
pub mod Highest
mod Tests

-- The paths and the manifest are of the type `Files`.
pub record ProjectCandidate (Files : Type 0) : Type 0 where
  pub name : Bytes
  pub version : SemVer
  pub files : Files
  pub selected_profile : Bytes
  pub explicit_profile : Bool

module _ {Files : Type 0} where
  -- `candidates.back()`, of a list with a first element.
  abbrev pub back : ProjectCandidate Files → List (ProjectCandidate Files) → ProjectCandidate Files
  back c [] = c
  back c (d ∷ ds) = back d ds

  abbrev pub same_major : ProjectCandidate Files → ProjectCandidate Files → Bool
  same_major c d = same_int c.version.major d.version.major

  -- The inner loop over `j`: no candidate behind has another major version.
  unfoldable pub same_as : ProjectCandidate Files → List (ProjectCandidate Files) → Bool
  same_as c [] = true
  same_as c (d ∷ ds) = same_major c d && same_as c ds

  -- Both loops.
  unfoldable pub same_majors : List (ProjectCandidate Files) → Bool
  same_majors [] = true
  same_majors (c ∷ cs) = same_as c cs && same_majors cs

  -- The explicit profile of a candidate, the last one of several.
  unfoldable pub adopt :
      List (ProjectCandidate Files) → ProjectCandidate Files → ProjectCandidate Files
  adopt [] highest = highest
  adopt (c ∷ cs) highest = adopt cs (
      if c.explicit_profile
      then record highest { selected_profile = c.selected_profile; explicit_profile = true }
      else highest)

  -- Of the sorted candidates.
  unfoldable pub choose : List (ProjectCandidate Files) → Option (List (ProjectCandidate Files))
  choose [] = some []
  choose (c ∷ cs) = if same_majors (c ∷ cs) then some (adopt (c ∷ cs) (back c cs) ∷ []) else none

  -- What is selected for a name; `none` where the resolution fails.
  unfoldable pub select :
      (List (ProjectCandidate Files) → List (ProjectCandidate Files))
      → List (ProjectCandidate Files)
      → Option (List (ProjectCandidate Files))
  select sort [] = some []
  select sort (c ∷ []) = some (c ∷ [])
  select sort (c ∷ d ∷ ds) = choose (sort (c ∷ d ∷ ds))

  -- `projects_by_name[name]`
  unfoldable pub named : Bytes → List (ProjectCandidate Files) → List (ProjectCandidate Files)
  named name [] = []
  named name (c ∷ cs) = let rest = named name cs in if same c.name name then c ∷ rest else rest

  abbrev pub append_selected :
      Option (List (ProjectCandidate Files))
      → Option (List (ProjectCandidate Files))
      → Option (List (ProjectCandidate Files))
  append_selected none rest = none
  append_selected (some cs) none = none
  append_selected (some cs) (some ds) = some (cs ++ ds)

  -- The loop over `discovery_order`; `sort` stands for std::sort by version.
  unfoldable pub select_all :
      (List (ProjectCandidate Files) → List (ProjectCandidate Files))
      → List Bytes
      → List (ProjectCandidate Files)
      → Option (List (ProjectCandidate Files))
  select_all sort [] discovered_projects = some []
  select_all sort (name ∷ discovery_order) discovered_projects =
      append_selected (select sort (named name discovered_projects))
        (select_all sort discovery_order discovered_projects)
