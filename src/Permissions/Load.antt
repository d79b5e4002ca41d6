-- ===== src/Permissions/Load.antt =====
-- src/permissions.cpp: Load, which reads admins.cfg and admin_groups.cfg into a new table and only
-- then replaces the old one.
pub mod Valid
mod Tests
use source2root.Base.{
  ℕ, ◌+◌, ◌-◌, ◌&&◌, ◌||◌, Bool, true, false, not, Option, none, some, List, [], ◌∷◌, if◌then◌else◌,
  ltb, ◌==◌, is_nil, length, any, map, Result, ok, err, ◌>>=◌, ◌>>◌, or_throw, throw_if,
}
use source2root.Base.Text.{
  Bytes, bytes_eq, codes, is_upper, is_control, from_chars_int, pos, negsuc, ℤ,
}
use source2root.Base.Table.{lookup, member, has, nat_key, bytes_key}
use source2root.Identity.{IdentityError, valid_permission, parse_steam_identity}
use source2root.KeyValues.{
  KeyValue, scalar, object, Entries, nil, cons, FileError, read_key_values, name,
}
use source2root.Permissions.{Admin, Permissions}

pub data LoadError : Type 0 where
  file : FileError → LoadError
  identity : IdentityError → LoadError
  needs_one_object must_be_object unknown_field duplicate_field missing_field must_be_string
        bad_immunity needs_migration needs_both_files bad_group_name permissions_not_object
        bad_permission duplicate_permission duplicate_group too_many_groups bad_label unknown_group
        duplicate_identity too_many_admins :
      LoadError

-- Lower
pub lower : Bytes → Bytes
lower = map (λ c. if is_upper c then c + 32 else c)

from_file : {A : Type 0} → Result FileError A → Result LoadError A
from_file (ok a) = ok a
from_file (err e) = err (file e)

from_identity : {A : Type 0} → Result IdentityError A → Result LoadError A
from_identity (ok a) = ok a
from_identity (err e) = err (identity e)

-- Root: the children of the one object that the file must hold.
root_of : Bytes → Entries → Result LoadError Entries
root_of expected (cons (object n children) nil) =
    if bytes_eq (lower n) (lower expected) then ok children else err needs_one_object
root_of expected _ = err needs_one_object

abbrev pub Fields : Type 0
Fields = List (Bytes × KeyValue)

-- The loop of Properties.
fields_of : List Bytes → Fields → Entries → Result LoadError Fields
fields_of allowed fields nil = ok fields
fields_of allowed fields (cons child rest) =
    let key = lower (name child) in
    let more = fields_of allowed ((key, child) ∷ fields) rest in
    if not (member key allowed)
    then err unknown_field
    else if has key fields
    then err duplicate_field
    else more

-- Properties
properties : List Bytes → KeyValue → Result LoadError Fields
properties allowed (scalar n v) = err must_be_object
properties allowed (object n children) = fields_of allowed [] children

-- Scalar
scalar_field : Bytes → Fields → Result LoadError Bytes
scalar_field key fields = elim (lookup key fields) [
  | none ↦ err missing_field
  | some (scalar n value) ↦ ok value
  | some (object n children) ↦ err must_be_string
]

-- ImmunityValue: a whole text that is an int from 0 on
abbrev immunity_number : Option (ℤ × Bytes) → Result LoadError ℕ
immunity_number none = err bad_immunity
immunity_number (some (pos n, [])) = ok n
immunity_number (some (pos n, (c ∷ r))) = err bad_immunity
immunity_number (some (negsuc n, rest)) = err bad_immunity

immunity_value : Fields → ℕ → Result LoadError ℕ
immunity_value fields fallback =
    if not (has (codes "immunity") fields)
    then ok fallback
    else do text ← scalar_field (codes "immunity") fields; immunity_number (from_chars_int text)

pub record Group : Type 0 where
  pub name : Bytes
  pub permissions : List Bytes
  pub immunity : ℕ
  pub root : Bool

-- The loop over a group's permissions.
permissions_of : List Bytes → Entries → Result LoadError (List Bytes)
permissions_of granted nil = ok granted
permissions_of granted (cons (object n children) rest) = err bad_permission
permissions_of granted (cons (scalar n value) rest) =
    let more = permissions_of (n ∷ granted) rest in
    if is_nil n || not (valid_permission n) || not (bytes_eq value (codes "1"))
    then err bad_permission
    else if member n granted
    then err duplicate_permission
    else more

group_permissions : Fields → Result LoadError (List Bytes)
group_permissions fields = elim (lookup (codes "permissions") fields) [
  | none ↦ ok []
  | some (scalar n value) ↦ err permissions_not_object
  | some (object n children) ↦ permissions_of [] children
]

group_of : KeyValue → Result LoadError Group
group_of entry = do
  let key = lower (name entry)
  throw_if (is_nil key || ltb 64 (length key) || any is_control key) bad_group_name
  fields ← properties (codes "immunity" ∷ codes "permissions" ∷ []) entry
  level ← immunity_value fields 0
  granted ← group_permissions fields
  ok (record {
    name = name entry;
    permissions = granted;
    immunity = level;
    root = bytes_eq key (codes "root");
  })

-- The loop over the groups.
groups_of : List (Bytes × Group) → Entries → Result LoadError (List (Bytes × Group))
groups_of groups nil = ok groups
groups_of groups (cons entry rest) = do
  group ← group_of entry
  let key = lower (name entry)
  throw_if (has key groups) duplicate_group
  throw_if (ltb 128 (length groups + 1)) too_many_groups
  groups_of ((key, group) ∷ groups) rest

admin_of : List (Bytes × Group) → KeyValue → Result LoadError (ℕ × Admin)
admin_of groups entry = do
  throw_if (ltb 128 (length (name entry)) || any is_control (name entry)) bad_label
  fields ← properties (codes "identity" ∷ codes "group" ∷ codes "immunity" ∷ []) entry
  text ← scalar_field (codes "identity") fields
  id ← from_identity (parse_steam_identity text)
  group_name ← scalar_field (codes "group") fields
  group ← or_throw (lookup (lower group_name) groups) unknown_group
  level ← immunity_value fields (group.immunity)
  ok (
    id,
    record {
      label = name entry;
      group = group.name;
      permissions = group.permissions;
      immunity = level;
      root = group.root;
    },
  )

-- The loop over the administrators.
admins_of : List (Bytes × Group) → Permissions → Entries → Result LoadError Permissions
admins_of groups admins nil = ok admins
admins_of groups admins (cons entry rest) = do
  (id, admin) ← admin_of groups entry
  throw_if (has id admins) duplicate_identity
  throw_if (ltb 4096 (length admins + 1)) too_many_admins
  admins_of groups ((id, admin) ∷ admins) rest

-- What the configuration directory holds: the two files, and whether a file of the old format does.
pub record Directory : Type 0 where
  pub admins : Option Bytes
  pub groups : Option Bytes
  pub legacy : Bool

load_files : Bytes → Bytes → Result LoadError Permissions
load_files admin_text group_text = do
  group_entries ← from_file (read_key_values group_text)
  group_children ← root_of (codes "Groups") group_entries
  groups ← groups_of [] group_children
  admin_entries ← from_file (read_key_values admin_text)
  admin_children ← root_of (codes "Admins") admin_entries
  admins_of groups [] admin_children

load_from : Option Bytes → Option Bytes → Bool → Result LoadError Permissions
load_from none none legacy = if legacy then err needs_migration else ok []
load_from (some a) none legacy = err needs_both_files
load_from none (some g) legacy = err needs_both_files
load_from (some a) (some g) legacy = load_files a g

-- Permissions::Load: the new admins_, and the table that is left where it throws.
pub load : Directory → Permissions → Result LoadError (Unit {0}) × Permissions
load dir admins = elim (load_from dir.admins dir.groups dir.legacy) [
  | ok loaded ↦ (ok tt, loaded)
  | err e ↦ (err e, admins)
]
