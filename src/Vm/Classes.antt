-- ===== src/Vm/Classes.antt =====
-- The instructions for class metadata and type tests of `RuntimeContext::run_bytecode`.
use solix.Prelude.{
  ℕ, zero, suc, ◌-◌, ◌^◌, List, [], ◌∷◌, none, some, Bool, true, false, not, ◌&&◌, ◌==◌,
  if◌then◌else◌,
}
use solix.Outcome.{Outcome, ok, throw, out_of_fuel, cast_of_non_object, invalid_cast, ◌>>=◌}
use solix.Memory.BlockTag
use solix.Word.{u32}
use solix.Memory.FreeLists.{find, put}
use solix.Memory.State.{read_u32, write_u32, get_block_tag}
use solix.Vm.State.{Vm, push, code_u32, below_top, in_memory}
use solix.Vm.Comparison.{truth}

-- `n` words of the bytecode.
unfoldable pub code_words : ℕ → Vm → Outcome (List ℕ × Vm)
code_words zero s = ok ([], s)
code_words (suc n) s = do (w, s1) ← code_u32 s; (r, s2) ← code_words n s1; ok (w ∷ r, s2)

unfoldable pub define_vtable : Vm → Outcome Vm
define_vtable s = do
  (vtable_id, s1) ← code_u32 s
  (base_vtable_id, s2) ← code_u32 s1
  (size, s3) ← code_u32 s2
  (vtable, s4) ← code_words size s3
  let s5 = record s4 {
    vtables = put vtable_id vtable s4.vtables;
    vtable_bases = put vtable_id base_vtable_id s4.vtable_bases;
  }
  (ref_count, s6) ← code_u32 s5
  (ref_offsets, s7) ← code_words ref_count s6
  ok (record s7 { vtable_ref_fields = put vtable_id ref_offsets s7.vtable_ref_fields })

abbrev pub ifaces_of : ℕ → Vm → List (ℕ × List ℕ)
ifaces_of class_vtable_id s = elim (find class_vtable_id s.itables) [ none ↦ [] | some l ↦ l ]

-- The loop of DEFINE_ITABLE over `iface_count` interfaces.
unfoldable pub define_ifaces : ℕ → ℕ → Vm → Outcome Vm
define_ifaces class_vtable_id zero s = ok s
define_ifaces class_vtable_id (suc n) s = do
  (iface_id, s1) ← code_u32 s
  (method_count, s2) ← code_u32 s1
  (slots, s3) ← code_words method_count s2
  define_ifaces class_vtable_id n (record s3 {
    itables = put class_vtable_id (put iface_id slots (ifaces_of class_vtable_id s3)) s3.itables;
  })

unfoldable pub define_itable : Vm → Outcome Vm
define_itable s = do
  (class_vtable_id, s1) ← code_u32 s
  (iface_count, s2) ← code_u32 s1
  define_ifaces class_vtable_id iface_count s2

unfoldable pub define_destructor : Vm → Outcome Vm
define_destructor s = do
  (vtid, s1) ← code_u32 s
  (dtor_ip, s2) ← code_u32 s1
  ok (record s2 { vtable_destructors = put vtid dtor_ip s2.vtable_destructors })

unfoldable pub set_vtable : Vm → Outcome Vm
set_vtable s = do
  (vtable_id, s1) ← code_u32 s
  top ← below_top 1 s1
  in_memory s1 (write_u32 (u32 top) 0 vtable_id s1.memory)

-- The int32_t -1 that ends a chain of bases.
abbrev pub no_vtable : ℕ
no_vtable = 2 ^ 32 - 1

abbrev pub base_of : ℕ → Vm → ℕ
base_of vtable s = elim (find vtable s.vtable_bases) [ none ↦ no_vtable | some b ↦ b ]

-- `current == target || (itables.count(current) && itables[current].count(target))`
abbrev pub implements : ℕ → ℕ → Vm → Bool
implements target current s =
    if current == target
    then true
    else elim (find target (ifaces_of current s)) [ none ↦ false | some _ ↦ true ]

-- The `while (current_vtable != -1)` loop; it need not end if the bases form a cycle.
unfoldable pub instance_walk : ℕ → ℕ → ℕ → Vm → Outcome Bool
instance_walk zero target current s = out_of_fuel
instance_walk (suc fuel) target current s =
    let rest = instance_walk fuel target (base_of current s) s in
    if current == no_vtable then ok false else if implements target current s then ok true else rest

unfoldable pub instanceof : ℕ → Vm → Outcome Vm
instanceof fuel s = do
  (target, s1) ← code_u32 s
  top ← below_top 1 s1
  let obj = u32 top
  let s2 = record s1 { stack_pointer = s1.stack_pointer - 1 }
  tag ← if obj == 0 then ok BlockTag.raw else get_block_tag obj s2.memory
  found ←
      if not (obj == 0) && tag == BlockTag.object
      then (do current ← read_u32 obj 0 s2.memory; instance_walk fuel target current s2)
      else ok false
  push (truth found) s2

unfoldable pub cast_check : ℕ → Vm → Outcome Vm
cast_check fuel s = do
  (target, s1) ← code_u32 s
  top ← below_top 1 s1
  let obj = u32 top
  if obj == 0 then ok s1 else do
    tag ← get_block_tag obj s1.memory
    if not (tag == BlockTag.object) then throw cast_of_non_object else do
      current ← read_u32 obj 0 s1.memory
      found ← instance_walk fuel target current s1
      if found then ok s1 else throw invalid_cast
