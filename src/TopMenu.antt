-- ===== src/TopMenu.antt =====
-- src/extensions/topmenus/catalog.cpp: the shared menus, their objects and their pages.
-- A menu's objects are named by their sequence numbers. A weak_ptr that has expired and an object
-- that is closed are the same here, since the destructor closes the object.
pub mod Active
pub mod Build
pub mod Pages
pub mod Shown
pub mod Rows
pub mod Objects
pub mod Sorted
mod Tests
use source2root.Base.{
  ℕ, suc, ◌+◌, ◌-◌, ◌^◌, ◌%◌, ◌&&◌, ◌||◌, Bool, true, false, not, Option, none, some, List, [], ◌∷◌,
  ◌++◌, Result, ok, err, ◌>>=◌, ◌>>◌, throw_if, if◌then◌else◌, ltb, leb, ◌==◌, is_nil, length, all,
  any,
}
use source2root.Base.Text.{Bytes, ℤ, pos, bytes_eq}
use source2root.Player.{int_eq}
use source2root.Preferences.Checks.{is_name_byte}

pub data MenuError : Type 0 where
  invalid_key invalid_label invalid_permission invalid_registration too_many_objects : MenuError
  already_registered closed_object changed_menu no_category too_many_menus : MenuError

-- Key, Label and Permission
unfoldable pub check_key : Bytes → Bool → Result MenuError (Unit {0})
check_key value empty =
    throw_if (not empty && is_nil value || ltb 64 (length value) || not (all is_name_byte value))
      MenuError.invalid_key

unfoldable pub check_label : Bytes → Result MenuError (Unit {0})
check_label value =
    throw_if (is_nil value || ltb 96 (length value) || any (λ c. ltb c 32 || c == 127) value)
      MenuError.invalid_label

abbrev pub begins_dot : Bytes → Bool
begins_dot [] = false
begins_dot (c ∷ r) = c == 46

abbrev pub ends_dot : Bytes → Bool
ends_dot [] = false
ends_dot (c ∷ []) = c == 46
ends_dot (c ∷ d ∷ r) = ends_dot (d ∷ r)

-- find("..") != npos
abbrev pub double_dot : Bytes → Bool
double_dot [] = false
double_dot (c ∷ r) = c == 46 && begins_dot r || double_dot r

abbrev pub is_permission_byte : ℕ → Bool
is_permission_byte c =
    leb 97 c && leb c 122 || leb 48 c && leb c 57 || c == 95 || c == 45 || c == 46

unfoldable pub check_permission : Bytes → Result MenuError (Unit {0})
check_permission value =
    throw_if
      (not (is_nil value)
        && (ltb 96 (length value)
            || begins_dot value
            || ends_dot value
            || double_dot value
            || not (all is_permission_byte value)))
      MenuError.invalid_permission

pub data Kind : Type 0 where
  category item : Kind

abbrev pub same_kind : Kind → Kind → Bool
same_kind category category = true
same_kind category item = false
same_kind item category = false
same_kind item item = true

abbrev pub is_category : Kind → Bool
is_category category = true
is_category item = false

pub record Object : Type 0 where
  pub kind : Kind
  pub key : Bytes
  pub parent : Bytes
  pub label : Bytes
  pub permission : Bytes
  pub plugin : Bytes
  pub owner : ℕ
  pub sequence : ℕ
  pub order : ℤ
  pub live : Bool

pub record Menu : Type 0 where
  pub name : Bytes
  pub title : Bytes
  pub revision : ℕ
  pub next_sequence : ℕ
  pub objects : List Object

-- ++revision
abbrev pub revised : Menu → Menu
revised m = record m { revision = (m.revision + 1) % 2 ^ 64 }

abbrev pub find_object : ℕ → List Object → Option Object
find_object s [] = none
find_object s (o ∷ rest) = if o.sequence == s then some o else find_object s rest

abbrev pub on_object : (Object → Object) → ℕ → List Object → List Object
on_object f s [] = []
on_object f s (o ∷ rest) = if o.sequence == s then f o ∷ rest else o ∷ on_object f s rest

abbrev pub live_object : ℕ → Menu → Option Object
live_object s m = elim (find_object s m.objects) [
  | none ↦ none
  | some o ↦ if o.live then some o else none
]

-- Object::Close
unfoldable pub close : ℕ → Menu → Menu
close s m = elim (live_object s m) [
  | none ↦ m
  | some o ↦ revised (record m { objects = on_object (λ o. record o { live = false }) s m.objects })
]

-- Object::SetLabel
unfoldable pub set_label : ℕ → Bytes → Menu → Result MenuError Menu
set_label s value m = check_label value >> elim (live_object s m) [
  | none ↦ err MenuError.closed_object
  | some o ↦ ok (
      if bytes_eq o.label value
      then m
      else revised (record m { objects = on_object (λ o. record o { label = value }) s m.objects }))
]

-- Object::SetOrder
unfoldable pub set_order : ℕ → ℤ → Menu → Result MenuError Menu
set_order s value m = elim (live_object s m) [
  | none ↦ err MenuError.closed_object
  | some o ↦ ok (
      if int_eq o.order value
      then m
      else revised (record m { objects = on_object (λ o. record o { order = value }) s m.objects }))
]

-- Menu::SetTitle
unfoldable pub set_title : Bytes → Menu → Result MenuError Menu
set_title value m =
    check_label value
    >> ok (if bytes_eq m.title value then m else revised (record m { title = value }))

-- std::erase_if(objects, ...)
abbrev pub living : List Object → List Object
living [] = []
living (o ∷ rest) = let others = living rest in if o.live then o ∷ others else others

abbrev pub pruned : Menu → Menu
pruned m = record m { objects = living m.objects }

-- The name is another plugin's, the same script's, or stands for something else.
abbrev pub clashes : Object → Object → Bool
clashes o new =
    bytes_eq o.key new.key
    && (not (bytes_eq o.plugin new.plugin)
        || o.owner == new.owner
        || not (same_kind o.kind new.kind)
        || not (bytes_eq o.parent new.parent))

-- The checks of Menu::Add before it erases closed objects. `new` has no sequence yet.
unfoldable pub check_object : Object → Result MenuError (Unit {0})
check_object new =
    check_key new.key false
    >> (check_key new.parent true
        >> (check_label new.label
            >> (check_permission new.permission
                >> throw_if
                    (new.owner == 0
                      || is_nil new.plugin
                      || is_category new.kind && not (is_nil new.parent))
                    MenuError.invalid_registration)))

abbrev pub max_objects : ℕ
max_objects = 256

unfoldable pub check_place : Object → Menu → Result MenuError (Unit {0})
check_place new m =
    throw_if (leb max_objects (length m.objects) || m.next_sequence == 2 ^ 64 - 1)
      MenuError.too_many_objects
    >> throw_if (any (λ o. clashes o new) m.objects) MenuError.already_registered

abbrev pub with_object : Object → Menu → Menu
with_object new m = revised (record m {
  objects = m.objects ++ record new { sequence = m.next_sequence; live = true } ∷ [];
  next_sequence = suc m.next_sequence;
})

-- Menu::Add: the menu that it leaves, and the object's sequence or the exception
abbrev pub added : Object → Menu → Result MenuError (Unit {0}) → Menu × Result MenuError ℕ
added new m (err e) = (m, err e)
added new m (ok u) = (with_object new m, ok m.next_sequence)

abbrev pub add_checked : Object → Menu → Result MenuError (Unit {0}) → Menu × Result MenuError ℕ
add_checked new m (err e) = (m, err e)
add_checked new m (ok u) = added new (pruned m) (check_place new (pruned m))

unfoldable pub add : Object → Menu → Menu × Result MenuError ℕ
add new m = add_checked new m (check_object new)

-- Catalog::Open: a menu that is no longer held by anyone is not in the list.
abbrev pub max_menus : ℕ
max_menus = 32

abbrev pub new_menu : Bytes → Bytes → Menu
new_menu name title = record {
  name = name;
  title = title;
  revision = 1;
  next_sequence = 1;
  objects = [];
}

abbrev pub find_menu : Bytes → List Menu → Option Menu
find_menu name [] = none
find_menu name (m ∷ rest) = if bytes_eq m.name name then some m else find_menu name rest

unfoldable pub open_menu : Bytes → Bytes → List Menu → Result MenuError (List Menu × Menu)
open_menu name title menus =
    check_key name false
    >> (check_label title >> elim (find_menu name menus) [
      | some m ↦ ok (menus, m)
      | none ↦
          throw_if (leb max_menus (length menus)) MenuError.too_many_menus
          >> ok (menus ++ new_menu name title ∷ [], new_menu name title)
    ])
