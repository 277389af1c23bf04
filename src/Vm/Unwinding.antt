-- ===== src/Vm/Unwinding.antt =====
-- Exceptions that leave a frame, `op_JMP_TO_OUTER_CLEANUP` of core/src/runtime.cpp, against the
-- search for the innermost frame with a cleanup.
use solix.Prelude.{
  ℕ, ◌≡◌, ◌≢◌, refl, ◌∙◌, List, [], ◌∷◌, Option, none, some, arith, inl, inr, Option-cases,
}
use solix.Outcome.{Outcome, ok}
use solix.Memory.FreeLists.{find}
use solix.Vm.State.{Vm, Frame}
use solix.Vm.Exceptions.{throw_unhandled, leave, unwind, jmp_to_outer_cleanup}

-- The cleanup of the first frame whose return address has one, with the frames from it on.
unfoldable pub handler : List (ℕ × ℕ) → List Frame → Option (ℕ × List Frame)
handler cleanups [] = none
handler cleanups (f ∷ fs) = elim (find f.return_ip cleanups) [
  | some ip ↦ some (ip, f ∷ fs)
  | none ↦ handler cleanups fs
]

-- The machine goes on at `ip` with the frames `rest`, the heap and the exception as they were.
pub record Resumed (ip : ℕ) (rest : List Frame) (s t : Vm) : Type 0 where
  pub target : t.program_counter ≡ ip
  pub frames : t.call_stack ≡ rest
  pub memory_kept : t.memory ≡ s.memory
  pub exception_kept : t.active_exception ≡ s.active_exception

handler-none :
    (cleanups : List (ℕ × ℕ)) (f : Frame) (fs : List Frame)
    → handler cleanups (f ∷ fs) ≡ none
    → (find f.return_ip cleanups ≡ none) × (handler cleanups fs ≡ none)
unfolding handler
handler-none cleanups f fs h = ground arith

module _ (dec : ℕ → Vm → Outcome Vm) where
  throw_unhandled-raises : (s t : Vm) → throw_unhandled dec s ≢ ok t
  unfolding throw_unhandled
  throw_unhandled-raises s t h = ground arith

  unwind_lem :
      (fs : List Frame) (s : Vm) (ip : ℕ) (rest : List Frame)
      → s.call_stack ≡ fs
      → handler s.return_to_cleanup fs ≡ some (ip, rest)
      → (t : Vm) × (unwind dec fs s ≡ ok t) × Resumed ip rest s t
  unfolding unwind handler
  unwind_lem [] s ip rest e h = ground arith
  unwind_lem (f ∷ fs) s ip rest e h = elim (Option-cases (find f.return_ip s.return_to_cleanup)) [
    | inr (ip', e') ↦ (
      record s { program_counter = ip' },
      rw (unwind, e') refl,
      record {
        target = ground arith;
        frames = e ∙ ground arith;
        memory_kept = refl;
        exception_kept = refl;
      },
    )
    | inl e' ↦
        let (t, p, q) = unwind_lem fs (leave f fs s) ip rest refl (ground arith) in
        (
          t,
          rw (unwind, e') p,
          record {
            target = q.target;
            frames = q.frames;
            memory_kept = q.memory_kept;
            exception_kept = q.exception_kept;
          },
        )
  ]

  unwind-raises :
      (fs : List Frame) (s t : Vm) → handler s.return_to_cleanup fs ≡ none → unwind dec fs s ≢ ok t
  unfolding unwind handler
  unwind-raises [] s t h = throw_unhandled-raises s t
  unwind-raises (f ∷ fs) s t h = elim (Option-cases (find f.return_ip s.return_to_cleanup)) [
    | inr (ip', e') ↦ absurd (ground arith)
    | inl e' ↦ rw (unwind, e') (unwind-raises fs (leave f fs s) t (ground arith))
  ]

  -- An exception that leaves a frame with a caller, where no frame of the call stack has a cleanup
  -- for its return address, does not resume the machine anywhere.
  pub jmp_to_outer_cleanup-raises :
      (frame f : Frame) (fs : List Frame) (s t : Vm)
      → s.call_stack ≡ frame ∷ f ∷ fs
      → handler s.return_to_cleanup (frame ∷ f ∷ fs) ≡ none
      → jmp_to_outer_cleanup dec s ≢ ok t
  unfolding jmp_to_outer_cleanup
  jmp_to_outer_cleanup-raises frame f fs s t e h =
      let (h1, h2) = handler-none s.return_to_cleanup frame (f ∷ fs) h in
      rw (e, jmp_to_outer_cleanup, h1) (unwind-raises (f ∷ fs) (leave frame (f ∷ fs) s) t h2)

  -- An exception that leaves a frame with a caller and whose return address has no cleanup goes to
  -- the first frame further out whose return address has one, and leaves that frame itself on the
  -- call stack. The heap and the active exception are kept.
  pub jmp_to_outer_cleanup-outer :
      (frame f : Frame) (fs : List Frame) (s : Vm) (ip : ℕ) (rest : List Frame)
      → s.call_stack ≡ frame ∷ f ∷ fs
      → find frame.return_ip s.return_to_cleanup ≡ none
      → handler s.return_to_cleanup (f ∷ fs) ≡ some (ip, rest)
      → (t : Vm) × (jmp_to_outer_cleanup dec s ≡ ok t) × Resumed ip rest s t
  unfolding jmp_to_outer_cleanup
  jmp_to_outer_cleanup-outer frame f fs s ip rest e h k =
      let (t, p, q) = unwind_lem (f ∷ fs) (leave frame (f ∷ fs) s) ip rest refl k in
      (
        t,
        rw (e, jmp_to_outer_cleanup, h) p,
        record {
          target = q.target;
          frames = q.frames;
          memory_kept = q.memory_kept;
          exception_kept = q.exception_kept;
        },
      )
