-- ===== src/TopMenu/Build.antt =====
-- src/extensions/topmenus/catalog.cpp, Menu::Build: one page of a menu, as one player sees it.
use source2root.Base.{
  ℕ, suc, ◌+◌, ◌-◌, ◌*◌, ◌/◌, ◌&&◌, ◌||◌, Bool, true, false, not, min, Option, none, some, List, [],
  ◌∷◌, ◌++◌, Result, ok, err, ◌>>=◌, ◌>>◌, throw_if, if◌then◌else◌, ltb, ◌==◌, is_nil, length, any,
  take, drop, map,
}
use source2root.Base.Text.{Bytes, bytes_eq, codes}
use source2root.Base.Table.{lookup, has, put, bytes_key}
use source2root.TopMenu.{MenuError, Object, Menu, is_category, check_key}
use source2root.TopMenu.Active.{active}

pub data Access : Type 0 where
  hidden enabled disabled : Access

abbrev pub is_enabled : Access → Bool
is_enabled hidden = false
is_enabled enabled = true
is_enabled disabled = false

abbrev pub is_hidden : Access → Bool
is_hidden hidden = true
is_hidden enabled = false
is_hidden disabled = false

-- The rows' targets: an object by its sequence, a page, the way back, or nothing
pub data Target : Type 0 where
  to_object : ℕ → Target
  to_page : ℕ → Target
  to_back to_nothing : Target

pub record Row : Type 0 where
  pub label : Bytes
  pub on : Bool
  pub target : Target

pub record Page : Type 0 where
  pub title : Bytes
  pub parent : Bytes
  pub rows : List Row
  pub page : ℕ
  pub revision : ℕ

abbrev pub Visibility : Type 0
Visibility = List (Bytes × Access)

abbrev pub or_hidden : Option Access → Access
or_hidden none = hidden
or_hidden (some a) = a

abbrev pub access_of : Visibility → Bytes → Access
access_of v key = or_hidden (lookup key v)

-- visibility.emplace
abbrev pub emplace : Bytes → Access → Visibility → Visibility
emplace key a v = if has key v then v else put key a v

abbrev pub visible : Visibility → Object → Bool
visible v o = not (is_hidden (access_of v o.key))

-- The script's callback answers for an object, and may change the menu.
abbrev pub Callback : Type 0
Callback = Object → Menu → Access × Menu

module _ (access : Callback) (revision : ℕ) where
  -- One object asked: the callback must leave the revision.
  abbrev pub asked : Object → Menu → Visibility → Result MenuError (Menu × Visibility)
  asked o m v =
      let r = access o m in
      throw_if (not (r.1.revision == revision)) MenuError.changed_menu
      >> ok (r.1, emplace o.key r.0 v)

  -- The categories
  unfoldable pub ask_categories :
      List Object → Menu → Visibility → Result MenuError (Menu × Visibility)
  ask_categories [] m v = ok (m, v)
  ask_categories (o ∷ rest) m v =
      if is_category o.kind
      then asked o m v >>= (λ r. ask_categories rest r.0 r.1)
      else ask_categories rest m v

  -- The items: one of no enabled category is hidden without a question.
  abbrev pub is_allowed : Object → Visibility → Bool
  is_allowed o v = is_nil o.parent || is_enabled (access_of v o.parent)

  abbrev pub asked_item : Object → Menu → Visibility → Result MenuError (Menu × Visibility)
  asked_item o m v =
      if is_allowed o v
      then asked o m v
      else (throw_if (not (m.revision == revision)) MenuError.changed_menu
          >> ok (m, emplace o.key hidden v))

  unfoldable pub ask_items : List Object → Menu → Visibility → Result MenuError (Menu × Visibility)
  ask_items [] m v = ok (m, v)
  ask_items (o ∷ rest) m v =
      if is_category o.kind
      then ask_items rest m v
      else asked_item o m v >>= (λ r. ask_items rest r.0 r.1)

-- std::find_if of the category
abbrev pub find_category : Bytes → Visibility → List Object → Option Object
find_category name v [] = none
find_category name v (o ∷ rest) =
    if bytes_eq o.key name && is_category o.kind && is_enabled (access_of v o.key)
    then some o
    else find_category name v rest

abbrev pub page_title : Bytes → Bytes → Visibility → List Object → Result MenuError Bytes
page_title title name v objects =
    if is_nil name then ok title else elim (find_category name v objects) [
      | none ↦ err MenuError.no_category
      | some o ↦ ok o.label
    ]

-- An object of the page: an item of the category, or, with no category, one that has an item to show
abbrev pub is_shown : Bytes → Visibility → List Object → Object → Bool
is_shown name v objects o =
    visible v o
    && (not (is_category o.kind) && bytes_eq o.parent name
        || is_category o.kind
          && is_nil name
          && any (λ c. not (is_category c.kind) && bytes_eq c.parent o.key && visible v c) objects)

unfoldable pub shown : Bytes → Visibility → List Object → List Object → List Object
shown name v objects [] = []
shown name v objects (o ∷ rest) =
    let others = shown name v objects rest in
    if is_shown name v objects o then o ∷ others else others

abbrev pub per_page : ℕ
per_page = 28

abbrev pub object_row : Visibility → Object → Row
object_row v o = record {
  label = o.label;
  on = is_enabled (access_of v o.key);
  target = to_object o.sequence;
}

-- The page that is shown, where one is asked for
unfoldable pub page_number : ℕ → List Object → ℕ
page_number requested objects =
    min requested (if is_nil objects then 0 else (length objects - 1) / per_page)

-- The objects of a page
unfoldable pub page_objects : ℕ → List Object → List Object
page_objects page objects = take per_page (drop (page * per_page) objects)

abbrev pub row_if : Bool → Bytes → Bool → Target → List Row
row_if b label on target = if b then record { label = label; on = on; target = target } ∷ [] else []

unfoldable pub page_rows : Bytes → Visibility → ℕ → List Object → List Row
page_rows name v page objects =
    map (object_row v) (page_objects page objects)
    ++ (row_if (is_nil objects) (codes "No available actions") false to_nothing
        ++ (row_if (not (page == 0)) (codes "Previous page") true (to_page (page - 1))
            ++ (row_if (ltb (page * per_page + per_page) (length objects)) (codes "Next page") true
                  (to_page (suc page))
                ++ row_if (not (is_nil name)) (codes "Back to categories") true to_back)))

-- Build
unfoldable pub build : Bytes → ℕ → (ℕ → Bool) → Callback → Menu → Result MenuError (Menu × Page)
build name requested running access m =
    check_key name true
    >> (let objects = (active running m).1 in
        ask_categories access m.revision objects (active running m).0 [] >>= λ c.
        ask_items access m.revision objects c.0 c.1 >>= λ i.
        page_title m.title name i.1 objects >>= λ title.
        let listed = shown name i.1 objects objects in
        let page = page_number requested listed in
        ok (
          i.0,
          record {
            title = title;
            parent = name;
            rows = page_rows name i.1 page listed;
            page = page;
            revision = m.revision;
          },
        ))
