-- ===== src/Vm/Inheritance.antt =====
-- The walk of INSTANCEOF and CAST_CHECK along the base classes, against the relation that it tests.
use solix.Prelude.{
  ℕ, zero, suc, ◌<◌, ◌≡◌, ◌≢◌, refl, ◌⊎◌, inl, inr, Bool, true, false, arith, ◌==◌, Bool-cases,
}
use solix.Outcome.{ok, out_of_fuel}
use solix.Vm.State.{Vm}
use solix.Vm.Classes.{no_vtable, base_of, implements, instance_walk}

-- The class `current` or one of its bases is the target or implements it.
pub data Inherits (s : Vm) (target : ℕ) : ℕ → Type 0 where
  direct :
      {current : ℕ}
      → current ≢ no_vtable
      → implements target current s ≡ true
      → Inherits s target current
  from_base :
      {current : ℕ}
      → current ≢ no_vtable
      → Inherits s target (base_of current s)
      → Inherits s target current

module _ (target : ℕ) (s : Vm) where
  walk_sound :
      (fuel current : ℕ) → instance_walk fuel target current s ≡ ok true → Inherits s target current
  unfolding instance_walk
  walk_sound zero current h = absurd (ground arith)
  walk_sound (suc fuel) current h = elim (Bool-cases (current == no_vtable)) [
    | inl e ↦ absurd (ground arith)
    | inr e ↦ elim (Bool-cases (implements target current s)) [
      | inl i ↦ direct (ground arith) i
      | inr i ↦ from_base (ground arith) (walk_sound fuel (base_of current s) (ground arith))
    ]
  ]

  walk_complete :
      (fuel : ℕ) {current : ℕ}
      → Inherits s target current
      → (instance_walk fuel target current s ≡ ok true)
        ⊎ (instance_walk fuel target current s ≡ out_of_fuel)
  unfolding instance_walk
  walk_complete zero i = inr refl
  walk_complete (suc fuel) (direct {current} n i) = inl (ground arith)
  walk_complete (suc fuel) (from_base {current} n i) = elim (walk_complete fuel i) [
    | inl e ↦ inl (ground arith)
    | inr e ↦ elim (Bool-cases (implements target current s)) [
      | inl j ↦ inl (ground arith)
      | inr j ↦ inr (ground arith)
    ]
  ]

  walk_ends :
      (rank : ℕ → ℕ)
      → ((c : ℕ) → c ≢ no_vtable → rank (base_of c s) < rank c)
      → (fuel current : ℕ) → rank current < fuel
      → (b : Bool) × (instance_walk fuel target current s ≡ ok b)
  unfolding instance_walk
  walk_ends rank falls zero current h = absurd (omega arith)
  walk_ends rank falls (suc fuel) current h = elim (Bool-cases (current == no_vtable)) [
    | inl e ↦ (false, ground arith)
    | inr e ↦ elim (Bool-cases (implements target current s)) [
      | inl i ↦ (true, ground arith)
      | inr i ↦
          let f = falls current (ground arith) in
          let (b, r) = walk_ends rank falls fuel (base_of current s) (omega arith) in
          (b, ground arith)
    ]
  ]

  walk_verdict :
      (fuel current : ℕ) (b : Bool)
      → instance_walk fuel target current s ≡ ok b
      → ((instance_walk fuel target current s ≡ ok true) × Inherits s target current)
        ⊎ ((instance_walk fuel target current s ≡ ok false) × ¬ Inherits s target current)
  walk_verdict fuel current true e = inl (e, walk_sound fuel current e)
  walk_verdict fuel current false e = inr (e, λ i. let c = walk_complete fuel i in ground arith)

  -- Where the bases do not form a cycle, as a rank that falls along them shows, the walk of
  -- INSTANCEOF and CAST_CHECK with fuel above the rank ends, and says whether the class or one of
  -- its bases is the target or implements it.
  pub instance_walk-Inherits :
      (rank : ℕ → ℕ)
      → ((c : ℕ) → c ≢ no_vtable → rank (base_of c s) < rank c)
      → (fuel current : ℕ) → rank current < fuel
      → ((instance_walk fuel target current s ≡ ok true) × Inherits s target current)
        ⊎ ((instance_walk fuel target current s ≡ ok false) × ¬ Inherits s target current)
  instance_walk-Inherits rank falls fuel current h =
      let (b, e) = walk_ends rank falls fuel current h in walk_verdict fuel current b e
