-- ===== src/Menu.antt =====
-- src/menu.cpp: the buttons of a menu, its selection, and the text that shows it.
pub mod Selection
pub mod Controls
pub mod Markup
mod Tests
use source2root.Base.{
  ℕ, zero, suc, ◌+◌, ◌-◌, ◌*◌, ◌/◌, ◌%◌, ◌^◌, ◌&&◌, ◌||◌, Bool, true, false, not, Option, none,
  some, List, [], ◌∷◌, ◌++◌, if◌then◌else◌, ltb, leb, ◌==◌, length, get_elem?, min, max,
}
use source2root.Base.Text.{Bytes, codes, to_string, ℤ}

-- struct MenuItem
pub record MenuItem : Type 0 where
  pub text : Bytes
  pub enabled : Bool
  pub value : ℤ

pub data MenuInput : Type 0 where
  up down select back : MenuInput

pub data MenuAction : Type 0 where
  no_action changed selected_item cancelled : MenuAction

-- The four buttons of a player's input that MenuControls reads, as bits of its 64-bit word.
pub record Buttons : Type 0 where
  pub forward : Bool
  pub backward : Bool
  pub use_key : Bool
  pub reload : Bool

abbrev pub no_buttons : Buttons
no_buttons = record { forward = false; backward = false; use_key = false; reload = false }

-- KeelPlayerInput: `well_sized`, `plain` and `known` tell that the size is the structure's, that
-- the reserved word is zero, and that no bit is set beyond KEELS2_BUTTON_ALL.
pub record PlayerInput : Type 0 where
  pub well_sized : Bool
  pub plain : Bool
  pub known : Bool
  pub context : ℕ
  pub buttons : Buttons

-- MenuControls
pub record MenuControls : Type 0 where
  pub held : Buttons
  pub context : ℕ

-- MenuControls::Baseline
unfoldable pub baseline : PlayerInput → MenuControls
baseline input =
    if input.well_sized && input.plain && not (input.context == 0) && input.known
    then record { held = input.buttons; context = input.context }
    else record { held = no_buttons; context = 0 }

abbrev pub pressed : Bool → Bool → Bool
pressed before now = now && not before

-- The decision of Read, from the buttons held before and now
unfoldable pub decide : Buttons → Buttons → Option MenuInput
decide before now =
    if pressed before.reload now.reload
    then some MenuInput.back
    else if pressed before.use_key now.use_key
    then some MenuInput.select
    else if now.forward && now.backward
    then none
    else if pressed before.forward now.forward
    then some MenuInput.up
    else if pressed before.backward now.backward
    then some MenuInput.down
    else none

-- MenuControls::Read
unfoldable pub read_input : MenuControls → PlayerInput → MenuControls × Option MenuInput
read_input m input =
    let m' = baseline input in
    (m', if m'.context == 0 || not (m'.context == m.context) then none else decide m.held m'.held)

-- Menu; `permission` is read by the callers only.
pub record Menu : Type 0 where
  pub title : Bytes
  pub permission : Bytes
  pub items : List MenuItem
  pub selected : ℕ

-- ItemsPerPage
abbrev pub items_per_page : ℕ
items_per_page = 3

abbrev pub item_enabled : List MenuItem → ℕ → Bool
item_enabled items i = elim (get_elem? items i) [ none ↦ false | some item ↦ item.enabled ]

-- The body of Input where there are `n` items, the selection among them.
unfoldable pub move : ℕ → Bool → MenuInput → ℕ → ℕ × MenuAction
move n enabled MenuInput.select at =
    (at, if enabled then MenuAction.selected_item else MenuAction.no_action)
move n enabled MenuInput.back at =
    if at / items_per_page == 0
    then (at, MenuAction.cancelled)
    else ((at / items_per_page - 1) * items_per_page, MenuAction.changed)
move n enabled MenuInput.up at = (if at == 0 then n - 1 else at - 1, MenuAction.changed)
move n enabled MenuInput.down at = ((at + 1) % n, MenuAction.changed)

abbrev is_back : MenuInput → Bool
is_back MenuInput.back = true
is_back _ = false

-- Menu::Input
unfoldable pub input : MenuInput → Menu → Menu × MenuAction
input i m =
    let n = length m.items in
    let at = min m.selected (n - 1) in
    let (next, action) = move n (item_enabled m.items at) i at in
    if n == 0
    then (m, if is_back i then MenuAction.cancelled else MenuAction.no_action)
    else (record m { selected = next }, action)

-- The bytes that Escape writes for one
unfoldable pub escape_byte : ℕ → Bytes
escape_byte c =
    if c == b'&'
    then codes "&amp;"
    else if c == b'<'
    then codes "&lt;"
    else if c == b'>'
    then codes "&gt;"
    else if c == b'"'
    then codes "&quot;"
    else if c == b'\''
    then codes "&#39;"
    else if leb 32 c
    then c ∷ []
    else []

-- Menu::Escape
unfoldable pub escape : Bytes → Bytes
escape [] = []
escape (c ∷ r) = escape_byte c ++ escape r

-- One line of the page
unfoldable pub item_html : Bool → MenuItem → Bytes
item_html here item =
    codes "<font color='"
    ++ ((if not item.enabled
          then codes "#777777"
          else if here
          then codes "#FFFF88"
          else codes "#FFFFFF")
        ++ (codes "'>"
            ++ ((if here then codes "&gt; " else codes "  ")
                ++ (escape item.text ++ codes "</font><br>"))))

-- The loop over the items of the page, from item `i`, at most `n` of them
unfoldable pub items_html : ℕ → ℕ → List MenuItem → ℕ → Bytes
items_html zero at items i = []
items_html (suc n) at items i =
    let rest = items_html n at items (i + 1) in
    elim (get_elem? items i) [ none ↦ [] | some item ↦ item_html (i == at) item ++ rest ]

-- Menu::Html
unfoldable pub html : Bool → Menu → Bytes
html has_parent m =
    let page = m.selected / items_per_page in
    let pages = max 1 ((length m.items + items_per_page - 1) / items_per_page) in
    codes "<font color='#78DCC8'>"
    ++ (escape m.title
        ++ (codes " | Page "
            ++ (to_string (page + 1)
                ++ (codes "/"
                    ++ (to_string pages
                        ++ (codes "</font><br>"
                            ++ (items_html items_per_page m.selected m.items (page * items_per_page)
                                ++ (codes
                                      "<font color='#BBBBBB'>Forward/Back: move | Use: select<br>Reload: "
                                    ++ ((if has_parent
                                          then codes "parent menu"
                                          else if page == 0
                                          then codes "close"
                                          else codes "previous page")
                                        ++ codes "</font>")))))))))
