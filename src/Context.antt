-- ===== src/Context.antt =====
-- src/libmacro.cpp and mcr/libmacro.h: the contexts that exist, and the fields of one.
pub mod Existing
pub mod Latest
pub mod Parts
use libmacro.Prelude.{ℕ, List, [], ◌∷◌, ◌++◌, Bool, true, false, ◌==◌, if◌then◌else◌, has, without}
use libmacro.Error.{Result, ok, throw, efault}

-- The fields of `LibmacroImpl` that change after its construction.
pub record Context : Type 0 where
  pub is_enabled : Bool
  pub blockable_flag : Bool
  pub generic_dispatch_flag : Bool
  pub modifiers : ℕ
  pub generic_dispatcher : ℕ

-- `LibmacroImpl::LibmacroImpl`, with the address of its own generic dispatcher
unfoldable pub new_context : Bool → ℕ → Context
new_context enabled own =
    let fresh : Context = record {
      is_enabled = false;
      blockable_flag = false;
      generic_dispatch_flag = false;
      modifiers = 0;
      generic_dispatcher = own;
    } in
    record fresh { is_enabled = enabled }

unfoldable pub set_blockable_flag : Bool → Context → Context
set_blockable_flag flag c = record c { blockable_flag = flag }

unfoldable pub set_generic_dispatch_flag : Bool → Context → Context
set_generic_dispatch_flag flag c = record c { generic_dispatch_flag = flag }

unfoldable pub set_modifiers : ℕ → Context → Context
set_modifiers mods c = record c { modifiers = mods }

unfoldable pub set_generic_dispatcher : ℕ → Context → Context
set_generic_dispatcher value c = record c { generic_dispatcher = value }

abbrev pub same_flag : Bool → Bool → Bool
same_flag true b = b
same_flag false true = false
same_flag false false = true

unfoldable pub set_enabled : Bool → Context → Context
set_enabled val c = if same_flag val c.is_enabled then c else record c { is_enabled = val }

-- `_registryStack` and `_registrySet`
pub record Instances : Type 0 where
  pub stack : List ℕ
  pub set : List ℕ

abbrev pub no_instances : Instances
no_instances = record { stack = []; set = [] }

-- The loop of the destructor: only the first entry is erased.
pub erase_first : ℕ → List ℕ → List ℕ
erase_first this [] = []
erase_first this (c ∷ cs) = if c == this then cs else c ∷ erase_first this cs

-- The part of the constructor under the lock
unfoldable pub construct : ℕ → Instances → Instances
construct this r = record {
  stack = r.stack ++ (this ∷ []);
  set = if has this r.set then r.set else this ∷ r.set;
}

-- The part of the destructor under the lock
unfoldable pub destruct : ℕ → Instances → Instances
unfolding erase_first
destruct this r = record { stack = erase_first this r.stack; set = without this r.set }

abbrev pub last : ℕ → List ℕ → ℕ
last c [] = c
last c (d ∷ cs) = last d cs

-- The last entry of the stack
unfoldable pub back : List ℕ → Result ℕ
back [] = throw efault
back (c ∷ cs) = ok (last c cs)

-- `Libmacro::instance()`
unfoldable pub instance_of : Instances → Result ℕ
unfolding back
instance_of r = back r.stack

-- `Libmacro::instance(Libmacro *)`
unfoldable pub instance_or : ℕ → Instances → Result ℕ
unfolding instance_of
instance_or given r = if given == 0 then instance_of r else ok given

unfoldable pub has_instance : ℕ → Instances → Bool
has_instance c r = has c r.set
