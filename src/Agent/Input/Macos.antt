-- ===== src/Agent/Input/Macos.antt =====
-- `InputInjector` of apps/agent/src/input.rs on macOS. What is handed to the platform is a list of
-- calls.
use remotekvm.Base.{ℕ, List, [], ◌∷◌, Bool, true, false, Option, none, some, ◌==◌, if◌then◌else◌}
use remotekvm.Protocol.{MouseButton, InputEvent}

pub record InputInjector (F : Type 0) : Type 0 where
  pub last_pos : F × F

abbrev pub Table : Type 0
Table = List (ℕ × ℕ)

unfoldable pub code_of : ℕ → Table → Option ℕ
code_of key [] = none
code_of key ((hid, code) ∷ table) =
    let rest = code_of key table in if hid == key then some code else rest

abbrev pub macos_keycodes : Table
macos_keycodes =
    (0x04, 0)
    ∷ (0x05, 11)
    ∷ (0x06, 8)
    ∷ (0x07, 2)
    ∷ (0x08, 14)
    ∷ (0x09, 3)
    ∷ (0x0A, 5)
    ∷ (0x0B, 4)
    ∷ (0x0C, 34)
    ∷ (0x0D, 38)
    ∷ (0x0E, 40)
    ∷ (0x0F, 37)
    ∷ (0x10, 46)
    ∷ (0x11, 45)
    ∷ (0x12, 31)
    ∷ (0x13, 35)
    ∷ (0x14, 12)
    ∷ (0x15, 15)
    ∷ (0x16, 1)
    ∷ (0x17, 17)
    ∷ (0x18, 32)
    ∷ (0x19, 9)
    ∷ (0x1A, 13)
    ∷ (0x1B, 7)
    ∷ (0x1C, 16)
    ∷ (0x1D, 6)
    ∷ (0x1E, 18)
    ∷ (0x1F, 19)
    ∷ (0x20, 20)
    ∷ (0x21, 21)
    ∷ (0x22, 23)
    ∷ (0x23, 22)
    ∷ (0x24, 26)
    ∷ (0x25, 28)
    ∷ (0x26, 25)
    ∷ (0x27, 29)
    ∷ (0x28, 36)
    ∷ (0x29, 53)
    ∷ (0x2A, 51)
    ∷ (0x2B, 48)
    ∷ (0x2C, 49)
    ∷ (0x4F, 124)
    ∷ (0x50, 123)
    ∷ (0x51, 125)
    ∷ (0x52, 126)
    ∷ (0xE0, 59)
    ∷ (0xE1, 56)
    ∷ (0xE2, 58)
    ∷ (0xE3, 55)
    ∷ (0xE4, 62)
    ∷ (0xE5, 60)
    ∷ (0xE6, 61)
    ∷ (0xE7, 54)
    ∷ []

unfoldable pub hid_to_macos_keycode : ℕ → Option ℕ
unfolding code_of
hid_to_macos_keycode hid = code_of hid macos_keycodes

-- `CGEventType` and `CGMouseButton`.
pub data MacButton : Type 0 where
  left : MacButton
  right : MacButton
  center : MacButton

pub data MacMouse : Type 0 where
  moved : MacMouse
  left_down : MacMouse
  left_up : MacMouse
  right_down : MacMouse
  right_up : MacMouse
  other_down : MacMouse
  other_up : MacMouse

pub data MacEvent (F : Type 0) : Type 0 where
  mouse : MacMouse → F × F → MacButton → MacEvent F
  scroll : F → F → MacEvent F
  keyboard : ℕ → Bool → MacEvent F

unfoldable pub mouse_button_event : MouseButton → Bool → MacMouse × MacButton
mouse_button_event MouseButton.left pressed =
    (if pressed then MacMouse.left_down else MacMouse.left_up, MacButton.left)
mouse_button_event MouseButton.right pressed =
    (if pressed then MacMouse.right_down else MacMouse.right_up, MacButton.right)
mouse_button_event MouseButton.middle pressed =
    (if pressed then MacMouse.other_down else MacMouse.other_up, MacButton.center)
mouse_button_event MouseButton.x1 pressed =
    (if pressed then MacMouse.other_down else MacMouse.other_up, MacButton.center)
mouse_button_event MouseButton.x2 pressed =
    (if pressed then MacMouse.other_down else MacMouse.other_up, MacButton.center)

module _ {F : Type 0} where
  abbrev pub post_key : Option ℕ → Bool → List (MacEvent F)
  post_key none down = []
  post_key (some code) down = MacEvent.keyboard code down ∷ []

  -- `macos::inject`, where the event source can be made.
  unfoldable pub macos_inject : F × F → InputEvent F → List (MacEvent F)
  unfolding mouse_button_event hid_to_macos_keycode
  macos_inject pos (InputEvent.mouse_move x y) =
      MacEvent.mouse MacMouse.moved pos MacButton.left ∷ []
  macos_inject pos (InputEvent.mouse_button button pressed) =
      let (kind, which) = mouse_button_event button pressed in MacEvent.mouse kind pos which ∷ []
  macos_inject pos (InputEvent.mouse_scroll dx dy) = MacEvent.scroll dy dx ∷ []
  macos_inject pos (InputEvent.key_down hid) = post_key (hid_to_macos_keycode hid) true
  macos_inject pos (InputEvent.key_up hid) = post_key (hid_to_macos_keycode hid) false

  -- `InputInjector::inject`: a move is remembered before the platform sees it.
  abbrev pub remember : InputEvent F → InputInjector F → InputInjector F
  remember (InputEvent.mouse_move x y) s = record s { last_pos = (x, y) }
  remember (InputEvent.mouse_button button pressed) s = s
  remember (InputEvent.mouse_scroll dx dy) s = s
  remember (InputEvent.key_down hid) s = s
  remember (InputEvent.key_up hid) s = s

  unfoldable pub inject_on_macos :
      InputEvent F → InputInjector F → List (MacEvent F) × InputInjector F
  inject_on_macos event s = let s' = remember event s in (macos_inject s'.last_pos event, s')
