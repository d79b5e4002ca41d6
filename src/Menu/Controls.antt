-- ===== src/Menu/Controls.antt =====
-- src/menu.cpp, MenuControls: an input is the moment a button goes down.
use source2root.Base.{◌≡◌, ◌≢◌, arith, Bool, true, false, none, some}
use source2root.Menu.{Buttons, PlayerInput, MenuControls, MenuInput, baseline, decide, read_input}

-- The same input, read again, gives nothing: a button held down acts once.
pub read_input_twice :
    (m : MenuControls) (i : PlayerInput) → (read_input (read_input m i).0 i).1 ≡ none
unfolding read_input baseline decide
read_input_twice m i = ground arith

-- The button of an input
abbrev pub button : MenuInput → Buttons → Bool
button MenuInput.up b = b.forward
button MenuInput.down b = b.backward
button MenuInput.select b = b.use_key
button MenuInput.back b = b.reload

-- An input that is given is a button of this input that was up before, in the same context, which is
-- the input's and not zero; and the input is well formed.
pub read_input-pressed :
    (m : MenuControls) (i : PlayerInput) (x : MenuInput)
    → (read_input m i).1 ≡ some x
    → (button x i.buttons ≡ true)
      × (button x m.held ≡ false)
      × (i.context ≡ m.context)
      × (i.context ≢ 0)
      × (i.well_sized ≡ true)
      × (i.plain ≡ true)
      × (i.known ≡ true)
unfolding read_input baseline decide
read_input-pressed m i MenuInput.up h = ground arith
read_input-pressed m i MenuInput.down h = ground arith
read_input-pressed m i MenuInput.select h = ground arith
read_input-pressed m i MenuInput.back h = ground arith
