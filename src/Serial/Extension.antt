-- ===== src/Serial/Extension.antt =====
-- The extension maps: what a registration changes, what it leaves, and what a removal restores.
use libmacro.Prelude.{ℕ, ◌≡◌, some, ◌==◌, arith, if◌then◌else◌, ==_refl}
use libmacro.Text.{Text, same_ci}
use libmacro.Text.Laws.{same_ci_same}
use libmacro.Assoc.{SameKey, lookup-insert, lookup-erase}
use libmacro.Serial.Tables.{name_value, trigger_mode_names, invalid}
use libmacro.Serial.Impl.{
  Serial, nat_eq, set_modifier_name, set_modifier_value_name, remove_modifier_name,
  set_trigger_mode_name, set_trigger_mode_value_name, remove_trigger_mode_name, builtin_modifiers,
  modifiers, modifiers_name, trigger_mode, trigger_mode_name,
}

nat_eq_same : SameKey nat_eq
nat_eq_same = record {
  reflexive = ==_refl;
  left = λ a b c h. ground arith;
  right = λ a b c h. ground arith;
}

-- After the registration of a name for some modifiers, every name that equals it up to case reads
-- as them, a built-in one too, and every other name reads as before.
pub modifiers-set_modifier_name :
    (n t : Text) (v : ℕ) (x : Serial)
    → modifiers (set_modifier_name (some n) v x) (some t)
      ≡ (if same_ci n t then v else modifiers x (some t))
unfolding modifiers set_modifier_name
modifiers-set_modifier_name n t v x =
    ground (arith, lookup-insert same_ci same_ci_same n t v x.modifier_name_ext)

-- After a removal every name that equals the removed one up to case reads as the built-in tables
-- say, and every other name reads as before.
pub modifiers-remove_modifier_name :
    (n t : Text) (x : Serial)
    → modifiers (remove_modifier_name (some n) x) (some t)
      ≡ (if same_ci n t then builtin_modifiers t else modifiers x (some t))
unfolding modifiers remove_modifier_name
modifiers-remove_modifier_name n t x =
    ground (arith, lookup-erase same_ci same_ci_same n t x.modifier_name_ext)

-- After the registration of a name for a value, the value prints as that name, also where it has a
-- built-in one, and every other value prints as before.
pub modifiers_name-set_modifier_value_name :
    (v w : ℕ) (n : Text) (x : Serial)
    → modifiers_name (set_modifier_value_name v (some n) x) w
      ≡ (if v == w then some n else modifiers_name x w)
unfolding modifiers_name set_modifier_value_name
modifiers_name-set_modifier_value_name v w n x =
    ground (arith, lookup-insert nat_eq nat_eq_same v w n x.modifier_value_ext)

-- After a registration and after a removal of a trigger mode's name, every name that equals it up
-- to case reads as the new value, or as the built-in table says; other names read as before.
pub trigger_mode-set-remove :
    (n t : Text) (v : ℕ) (x : Serial)
    → (trigger_mode (set_trigger_mode_name (some n) v x) (some t)
        ≡ (if same_ci n t then v else trigger_mode x (some t)))
      × (trigger_mode (remove_trigger_mode_name (some n) x) (some t) ≡ (
          if same_ci n t
          then name_value trigger_mode_names (some t) invalid
          else trigger_mode x (some t)))
unfolding trigger_mode set_trigger_mode_name remove_trigger_mode_name
trigger_mode-set-remove n t v x = (
  ground (arith, lookup-insert same_ci same_ci_same n t v x.trigger_mode_name_ext),
  ground (arith, lookup-erase same_ci same_ci_same n t x.trigger_mode_name_ext),
)

-- After the registration of a name for a trigger mode, the mode prints as that name, also where it
-- has a built-in one, and every other mode prints as before.
pub trigger_mode_name-set_trigger_mode_value_name :
    (v w : ℕ) (n : Text) (x : Serial)
    → trigger_mode_name (set_trigger_mode_value_name v (some n) x) w
      ≡ (if v == w then some n else trigger_mode_name x w)
unfolding trigger_mode_name set_trigger_mode_value_name
trigger_mode_name-set_trigger_mode_value_name v w n x =
    ground (arith, lookup-insert nat_eq nat_eq_same v w n x.trigger_mode_value_ext)
