-- ===== src/Permissions/Load/Valid.antt =====
-- src/permissions.cpp: what a loaded table satisfies, whatever the files hold.
use source2root.Base.{
  ℕ, ◌+◌, ◌≤◌, ◌≡◌, refl, subst, inl, inr, ◌||◌, Bool, true, false, not, Option, none, some, List,
  [], ◌∷◌, arith, length, All, Result, ok, err, Result-cases, Option-cases, Bool-cases, >>=-Ensures,
  throw_if-Ensures, or_throw, any, Ensures, Ensures-ok, ltb, is_nil, map,
}
use source2root.Base.Text.{
  Bytes, ℤ, pos, from_chars_int, from_chars_unsigned, negsuc, int_max, bytes_eq, codes, is_control,
}
use source2root.Base.Table.{lookup, member, has, Distinct, nat_key, bytes_key}
use source2root.Identity.{valid_permission, valid_steam_identity, parse_steam_identity}
use source2root.Identity.Parse.{parse_steam_identity-range}
use source2root.KeyValues.{KeyValue, scalar, object, Entries, nil, cons, name, read_key_values}
use source2root.Permissions.{Admin, Permissions}
use source2root.Permissions.Load.{
  LoadError, unknown_group, permissions_not_object, Fields, immunity_number, immunity_value,
  scalar_field, permissions_of, group_permissions, Group, group_of, groups_of, admin_of, admins_of,
  from_identity, Directory, load_files, load_from, load, properties, root_of, from_file, lower,
}

from_chars_unsigned-bound :
    (limit n : ℕ) (t r : Bytes) → from_chars_unsigned limit t ≡ some (n, r) → n ≤ limit
unfolding from_chars_unsigned
from_chars_unsigned-bound limit n [] r h = cc
from_chars_unsigned-bound limit n (c ∷ t) r h = ground arith

from_chars_int-bound : (n : ℕ) (t r : Bytes) → from_chars_int t ≡ some (pos n, r) → n ≤ int_max
unfolding from_chars_int
from_chars_int-bound n [] r h = cc
from_chars_int-bound n (c ∷ t) r h = elim (Option-cases (from_chars_unsigned int_max (c ∷ t))) [
  | inl e ↦ ground arith
  | inr ((v, rest), e) ↦ ground (arith, from_chars_unsigned-bound int_max v (c ∷ t) rest e)
]

immunity_number-bound :
    (n : ℕ) (t : Bytes) → immunity_number (from_chars_int t) ≡ ok n → n ≤ int_max
immunity_number-bound n t h = elim (Option-cases (from_chars_int t)) [
  | inl e ↦ absurd (cc (rw e at h))
  | inr ((z, rest), e) ↦ whole z rest e (rw e at h)
]
  where
    whole :
        (z : ℤ) (rest : Bytes)
        → from_chars_int t ≡ some (z, rest)
        → immunity_number (some (z, rest)) ≡ ok n
        → n ≤ int_max
    whole (pos m) [] e k = ground (arith, from_chars_int-bound m t [] e)
    whole (pos m) (c ∷ r) e k = absurd (cc k)
    whole (negsuc m) rest e k = absurd (cc k)

immunity_value-bound :
    (fields : Fields) (fallback n : ℕ)
    → fallback ≤ int_max
    → immunity_value fields fallback ≡ ok n
    → n ≤ int_max
unfolding immunity_value
immunity_value-bound fields fallback n h e =
    elim (Result-cases (scalar_field (codes "immunity") fields)) [
      | inl (text, q) ↦ ground (arith, immunity_number-bound n text)
      | inr (f, q) ↦ ground arith
    ]

-- Each permission is a valid name, and none is given twice.
abbrev pub Granted : List Bytes → Type 0
Granted granted =
    All (λ p. (is_nil p ≡ false) × (valid_permission p ≡ true)) granted × Distinct granted

permissions_of-Granted :
    (granted out : List Bytes) (es : Entries)
    → Granted granted
    → permissions_of granted es ≡ ok out
    → Granted out
unfolding permissions_of
permissions_of-Granted granted out nil h e = subst Granted (cc e) h
permissions_of-Granted granted out (cons (object n c) es) h e = cc
permissions_of-Granted granted out (cons (scalar n v) es) h e =
    elim (Bool-cases (is_nil n || not (valid_permission n) || not (bytes_eq v (codes "1")))) [
      | inl bad ↦ absurd (ground arith)
      | inr good ↦ elim (Bool-cases (member n granted)) [
        | inl twice ↦ absurd (ground arith)
        | inr once ↦
            permissions_of-Granted (n ∷ granted) out es
              (((ground arith, ground arith), h.0), (once, h.1)) (ground arith)
      ]
    ]

group_permissions-Granted :
    (fields : Fields) (out : List Bytes) → group_permissions fields ≡ ok out → Granted out
unfolding group_permissions
group_permissions-Granted fields out h = elim (Option-cases (lookup (codes "permissions") fields)) [
  | inl e ↦
      let none_given : ◌≡◌ {A = List Bytes} [] out = ground arith in
      subst Granted none_given (tt, tt)
  | inr (entry, e) ↦ block entry (rw (e, group_permissions) at h)
]
  where
    block :
        (entry : KeyValue)
        → (elim entry as (λ _. Result LoadError (List Bytes)) [
          | scalar n value ↦ err permissions_not_object
          | object n children ↦ permissions_of [] children
        ])
          ≡ ok out
        → Granted out
    block (scalar n value) k = absurd (cc k)
    block (object n children) k = permissions_of-Granted [] out children (tt, tt) k

-- What every group has.
abbrev pub GroupSound : Group → Type 0
GroupSound g = Granted g.permissions × (g.immunity ≤ int_max)

group_of-GroupSound : (entry : KeyValue) → Ensures GroupSound (group_of entry)
unfolding group_of
group_of-GroupSound entry =
    let key = lower (name entry) in
    throw_if-Ensures GroupSound (is_nil key || ltb 64 (length key) || any is_control key) _ _ λ _.
      >>=-Ensures GroupSound (properties (codes "immunity" ∷ codes "permissions" ∷ []) entry) _
        λ fields _. >>=-Ensures GroupSound (immunity_value fields 0) _ λ level e.
          >>=-Ensures GroupSound (group_permissions fields) _ λ granted k. (
            group_permissions-Granted fields granted k,
            immunity_value-bound fields 0 level (omega arith) e,
          )

abbrev GroupsSound : List (Bytes × Group) → Type 0
GroupsSound = All (λ g. GroupSound g.1)

groups_of_sound :
    (groups : List (Bytes × Group)) (es : Entries)
    → GroupsSound groups
    → Ensures GroupsSound (groups_of groups es)
unfolding groups_of
groups_of_sound groups nil h = h
groups_of_sound groups (cons entry rest) h = >>=-Ensures GroupsSound (group_of entry) _ λ group e.
    throw_if-Ensures GroupsSound (has (lower (name entry)) groups) _ _ λ _.
      throw_if-Ensures GroupsSound (ltb 128 (length groups + 1)) _ _ λ _.
        groups_of_sound ((lower (name entry), group) ∷ groups) rest
          (Ensures-ok GroupSound (group_of entry) (group_of-GroupSound entry) e, h)

lookup_sound :
    (k : Bytes) (groups : List (Bytes × Group)) (g : Group)
    → GroupsSound groups
    → lookup k groups ≡ some g
    → GroupSound g
lookup_sound k [] g h e = absurd (cc e)
lookup_sound k ((j, x) ∷ groups) g h e = elim (Bool-cases (bytes_eq j k)) [
  | inl here ↦ let same : x ≡ g = ground arith in subst GroupSound same h.0
  | inr other ↦ lookup_sound k groups g h.1 (ground arith)
]

or_throw-some {ℓ} :
    {E : Type 0} {A : Type ℓ} (o : Option A) (e : E) (a : A) → or_throw o e ≡ ok a → o ≡ some a
or_throw-some none e a h = cc
or_throw-some (some b) e a h = ground arith

-- What every administrator has.
abbrev pub AdminSound : ℕ × Admin → Type 0
AdminSound ia =
    (valid_steam_identity ia.0 ≡ true) × Granted ia.1.permissions × (ia.1.immunity ≤ int_max)

identity-valid :
    (text : Bytes) (id : ℕ)
    → from_identity (parse_steam_identity text) ≡ ok id
    → valid_steam_identity id ≡ true
unfolding from_identity
identity-valid text id h = elim (Result-cases (parse_steam_identity text)) [
  | inr (f, e) ↦ absurd (ground arith)
  | inl (v, e) ↦ ground (arith, parse_steam_identity-range text v e)
]

admin_of-AdminSound :
    (groups : List (Bytes × Group)) (entry : KeyValue)
    → GroupsSound groups
    → Ensures AdminSound (admin_of groups entry)
unfolding admin_of
admin_of-AdminSound groups entry h =
    throw_if-Ensures AdminSound (ltb 128 (length (name entry)) || any is_control (name entry)) _ _
      λ _.
        >>=-Ensures AdminSound
          (properties (codes "identity" ∷ codes "group" ∷ codes "immunity" ∷ []) entry) _
          λ fields _. >>=-Ensures AdminSound (scalar_field (codes "identity") fields) _ λ text _.
            >>=-Ensures AdminSound (from_identity (parse_steam_identity text)) _ λ id i.
              >>=-Ensures AdminSound (scalar_field (codes "group") fields) _ λ key _.
                >>=-Ensures AdminSound (or_throw (lookup (lower key) groups) unknown_group) _
                  λ group g.
                    let sound =
                      lookup_sound (lower key) groups group h (or_throw-some _ _ group g) in
                    >>=-Ensures AdminSound (immunity_value fields group.immunity) _ λ level e. (
                      identity-valid text id i,
                      sound.0,
                      immunity_value-bound fields group.immunity level sound.1 e,
                    )

-- A table of sound administrators, none twice and at most 4096.
pub record IsValid (admins : Permissions) : Type 0 where
  pub sound : All AdminSound admins
  pub distinct : Distinct (map (λ ia. ia.0) admins)
  pub bounded : length admins ≤ 4096

has-member :
    (id : ℕ) (admins : Permissions)
    → has id admins ≡ false
    → member id (map (λ ia. ia.0) admins) ≡ false
has-member id [] h = refl
has-member id ((j, a) ∷ admins) h = ground (arith, has-member id admins)

admins_of-IsValid :
    (groups : List (Bytes × Group)) (admins : Permissions) (es : Entries)
    → GroupsSound groups
    → IsValid admins
    → Ensures IsValid (admins_of groups admins es)
unfolding admins_of
admins_of-IsValid groups admins nil h v = v
admins_of-IsValid groups admins (cons entry rest) h v =
    >>=-Ensures IsValid (admin_of groups entry) _ λ ia e.
      throw_if-Ensures IsValid (has ia.0 admins) _ _ λ new.
        throw_if-Ensures IsValid (ltb 4096 (length admins + 1)) _ _ λ room.
          admins_of-IsValid groups ((ia.0, ia.1) ∷ admins) rest h (record {
            sound = (
              Ensures-ok AdminSound (admin_of groups entry) (admin_of-AdminSound groups entry h) e,
              v.sound,
            );
            distinct = (has-member ia.0 admins new, v.distinct);
            bounded = ground arith;
          })

load_files-IsValid : (a g : Bytes) → Ensures IsValid (load_files a g)
unfolding load_files
load_files-IsValid a g = >>=-Ensures IsValid (from_file (read_key_values g)) _ λ group_entries _.
    >>=-Ensures IsValid (root_of (codes "Groups") group_entries) _ λ group_children _.
      >>=-Ensures IsValid (groups_of [] group_children) _ λ groups e.
        >>=-Ensures IsValid (from_file (read_key_values a)) _ λ admin_entries _.
          >>=-Ensures IsValid (root_of (codes "Admins") admin_entries) _ λ admin_children _.
            admins_of-IsValid groups [] admin_children
              (Ensures-ok GroupsSound (groups_of [] group_children)
                (groups_of_sound [] group_children tt) e)
              (record { sound = tt; distinct = tt; bounded = omega arith })

load_from-IsValid : (a g : Option Bytes) (legacy : Bool) → Ensures IsValid (load_from a g legacy)
unfolding load_from
load_from-IsValid none none true = tt
load_from-IsValid none none false = record { sound = tt; distinct = tt; bounded = omega arith }
load_from-IsValid (some a) none legacy = tt
load_from-IsValid none (some g) legacy = tt
load_from-IsValid (some a) (some g) legacy = load_files-IsValid a g

-- Load keeps the table valid whatever the files hold: every identity is an individual account and
-- stands once, every permission is a valid name given once, every immunity is an int from 0 on, and
-- there are at most 4096 administrators.
pub load-IsValid :
    (dir : Directory) (admins : Permissions) → IsValid admins → IsValid (load dir admins).1
unfolding load
load-IsValid dir admins v = elim (Result-cases (load_from dir.admins dir.groups dir.legacy)) [
  | inr (f, e) ↦ rw (e, load) v
  | inl (loaded, e) ↦
      rw (e, load)
        (Ensures-ok IsValid (load_from dir.admins dir.groups dir.legacy)
          (load_from-IsValid dir.admins dir.groups dir.legacy) e)
]
