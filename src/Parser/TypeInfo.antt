-- ===== src/Parser/TypeInfo.antt =====
-- `struct TypeInfo` of core/src/utilities/statements.hpp.
use solix.Prelude.{ℕ, zero, suc, Bool, [], ◌++◌, Bytes, codes, if◌then◌else◌}

-- The fields in the order of the struct.
mutual
  pub data TypeInfo : Type 0 where
    type_info : Bytes → ℕ → TypeList → Bool → ReturnType → TypeList → Bool → Bool → TypeInfo

  -- `std::vector<TypeInfo>`
  pub data TypeList : Type 0 where
    nil : TypeList
    cons : TypeInfo → TypeList → TypeList

  -- `std::shared_ptr<TypeInfo>`
  pub data ReturnType : Type 0 where
    null : ReturnType
    shared : TypeInfo → ReturnType

-- `for (int i = 0; i < array_depth; i++) res += "[]";`
abbrev pub brackets : ℕ → Bytes
brackets Prim.Native.Nat.zero = []
brackets (Prim.Native.Nat.suc n) = codes "[]" ++ brackets n

-- `<…>` around what there is.
abbrev pub angles : Bytes → TypeList → Bytes
angles inner nil = []
angles inner (cons _ _) = codes "<" ++ inner ++ codes ">"

unfoldable mutual
  pub to_string : TypeInfo → Bytes
  to_string (type_info name depth args is_function_pointer ret params is_tuple is_variadic) =
      let result = return_string ret in
      let arguments = join (codes ",") args in
      let parameters = join (codes ", ") params in
      if is_function_pointer
      then result ++ codes "(*)(" ++ parameters ++ codes ")" ++ brackets depth
      else if is_tuple
      then codes "tuple" ++ angles arguments args ++ brackets depth
      else name ++ angles arguments args ++ brackets depth

  pub return_string : ReturnType → Bytes
  return_string null = codes "void"
  return_string (shared t) = to_string t

  pub join : Bytes → TypeList → Bytes
  join separator nil = []
  join separator (cons t ts) =
      let rest = join separator ts in
      to_string t ++ elim ts [ nil ↦ [] | cons _ _ ↦ separator ++ rest ]
