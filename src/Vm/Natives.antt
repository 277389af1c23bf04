-- ===== src/Vm/Natives.antt =====
-- Native functions: `RuntimeContext::register_native`, DEFINE_NATIVE and CALL_NATIVE.
use solix.Prelude.{
  ℕ, zero, suc, ◌+◌, List, [], ◌∷◌, Option, none, some, Bool, not, get_elem?, set, length, ◌||◌,
  leb, ◌==◌, if◌then◌else◌, ltb, ◌^◌,
}
use solix.Outcome.{Outcome, ok, throw, undefined, unknown_native, malformed_bytecode, ◌>>=◌}
use solix.Word.{u32}
use solix.Memory.FreeLists.{find, put}
use solix.Vm.State.{Vm, push, pop, code_u32, code_string, next_byte}
use solix.Vm.Host.{Host}

-- `native_table.resize(n, nullptr)`
unfoldable pub resize : ℕ → List ℕ → List ℕ
resize zero l = []
resize (suc n) [] = 0 ∷ resize n []
resize (suc n) (x ∷ l) = x ∷ resize n l

-- `id + 1` is a `uint32_t`: for the last id the table is emptied, and the write is out of bounds.
unfoldable pub register_native : ℕ → ℕ → Vm → Outcome Vm
register_native id func s =
    let table =
      if leb (length s.native_table) id
      then resize (u32 (id + 1)) s.native_table
      else s.native_table in
    if leb (length table) id
    then undefined
    else ok (record s {
      native_table = set table id func;
      native_registry = put id func s.native_registry;
    })

-- `name.substr(0, name.find('('))`
unfoldable pub before_paren : List ℕ → List ℕ
before_paren [] = []
before_paren (c ∷ name) = if c == b'(' then [] else c ∷ before_paren name

abbrev pub is_separator : ℕ → Bool
is_separator c = c == b'.' || c == b':'

unfoldable pub underscored : List ℕ → List ℕ
underscored [] = []
underscored (c ∷ name) = (if is_separator c then b'_' else c) ∷ underscored name

-- What follows the last separator, if there is one.
unfoldable pub after_separator : List ℕ → Option (List ℕ)
after_separator [] = none
after_separator (c ∷ name) = elim (after_separator name) [
  | some rest ↦ some rest
  | none ↦ if is_separator c then some name else none
]

-- The spellings under which DEFINE_NATIVE looks for a function.
unfoldable pub candidates : List ℕ → List (List ℕ)
candidates name =
    let no_params = before_paren name in
    name ∷ no_params ∷ underscored no_params ∷ (elim (after_separator no_params) [
      | none ↦ []
      | some [] ↦ []
      | some (c ∷ rest) ↦ (c ∷ rest) ∷ []
    ])

module _ (host : Host) where
  -- The first candidate that is known; 0 for nullptr.
  unfoldable pub resolve : List (List ℕ) → ℕ
  resolve [] = 0
  resolve (cand ∷ cands) =
      let rest = resolve cands in
      elim (host.native_option cand) [
        | some func ↦ func
        | none ↦
            if not (host.find_function cand == 0)
            then host.find_function cand
            else if not (host.find_symbol cand == 0)
            then host.find_symbol cand
            else rest
      ]

  -- The warning on std::cerr is left out.
  unfoldable pub define_native : Vm → Outcome Vm
  define_native s = do
    (id, s1) ← code_u32 s
    (name, s2) ← code_string s1
    let func = resolve (candidates name)
    if func == 0 then ok s2 else register_native id func s2

  -- The rounds of `for (int i = static_cast<int>(arg_count) - 1; i >= 0; --i) args[i] = POP();`.
  unfoldable pub pop_args : ℕ → List ℕ → Vm → Outcome (List ℕ × Vm)
  pop_args zero args s = ok (args, s)
  pop_args (suc n) args s = do (a, s1) ← pop s; pop_args n (a ∷ args) s1

  -- The vector `args(arg_count)` and the loop over it. A count above 2^31 is a negative int, with
  -- which the loop makes no round and leaves the vector as it is, all zero; at 2^31 the subtraction
  -- overflows.
  unfoldable pub native_args : ℕ → Vm → Outcome (List ℕ × Vm)
  native_args arg_count s =
      if ltb arg_count (2 ^ 31)
      then pop_args arg_count [] s
      else if arg_count == 2 ^ 31
      then undefined
      else ok (resize arg_count [], s)

  unfoldable pub lookup_native : ℕ → Vm → Option ℕ
  lookup_native id s = elim (get_elem? s.native_table id) [
    | some (suc func) ↦ some (suc func)
    | _ ↦ find id s.native_registry
  ]

  unfoldable pub call_native : Vm → Outcome Vm
  call_native s = do
    (id, s1) ← code_u32 s
    (arg_count, s2) ← code_u32 s1
    if leb (length s2.bytecode) s2.program_counter then throw malformed_bytecode else do
      (static_flag, s3) ← next_byte s2
      (args, s4) ← native_args arg_count s3
      (self_address, s5) ← if static_flag == 0 then pop s4 else ok (0, s4)
      elim (lookup_native id s5) [
        | none ↦ throw unknown_native
        | some func ↦ do (result, s6) ← host.call_native func self_address args s5; push result s6
      ]
