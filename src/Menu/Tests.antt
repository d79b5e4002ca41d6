-- ===== src/Menu/Tests.antt =====
-- src/menu.cpp at concrete menus and inputs.
use source2root.Base.{ℕ, ◌<◌, ◌≡◌, refl, arith, true, some, [], ◌∷◌, length, All}
use source2root.Base.Text.{codes, pos}
use source2root.Menu.{
  Menu, MenuItem, MenuInput, input, move, escape, escape_byte, no_buttons, PlayerInput,
  MenuControls, read_input, baseline, decide,
}
use source2root.Menu.Selection.{input_selects}
use source2root.Menu.Markup.{IsInert, escape-IsInert}

abbrev item : MenuItem
item = record { text = codes "a<b"; enabled = true; value = pos 0 }

abbrev menu : ℕ → Menu
menu at = record {
  title = codes "t";
  permission = [];
  items = item ∷ item ∷ item ∷ item ∷ [];
  selected = at;
}

last_wraps : (input MenuInput.down (menu 3)).0 ≡ menu 0
unfolding input move
last_wraps = refl

escaped : escape (codes "a<b") ≡ codes "a&lt;b"
unfolding escape escape_byte
escaped = refl

abbrev reload_pressed : PlayerInput
reload_pressed = record {
  well_sized = true;
  plain = true;
  known = true;
  context = 7;
  buttons = record no_buttons { reload = true };
}

abbrev idle : MenuControls
idle = record { held = no_buttons; context = 7 }

reload_is_back : (read_input idle reload_pressed).1 ≡ some MenuInput.back
unfolding read_input baseline decide
reload_is_back = refl

input_selects_example :
    (input MenuInput.back (menu 9)).0.selected < length (input MenuInput.back (menu 9)).0.items
input_selects_example = input_selects MenuInput.back (menu 9) (omega arith)

escape-IsInert_example : All IsInert (escape (codes "<a>"))
escape-IsInert_example = escape-IsInert (codes "<a>")
