-- ===== src/Client/Input.antt =====
-- The events of the window that the client sends on: `egui_event_to_input` of
-- apps/client/src/app.rs. The enumeration `egui::Key` is of a crate, and its variants go by their
-- names.
use remotekvm.Base.{ℕ, [], ◌∷◌, Bool, true, false, Option, none, some, String}
use remotekvm.Base.Maps.{Map, lookup}
use remotekvm.Protocol.{MouseButton, InputEvent}

abbrev pub hid_usages : Map ℕ
hid_usages =
    ("A", 0x04)
    ∷ ("B", 0x05)
    ∷ ("C", 0x06)
    ∷ ("D", 0x07)
    ∷ ("E", 0x08)
    ∷ ("F", 0x09)
    ∷ ("G", 0x0A)
    ∷ ("H", 0x0B)
    ∷ ("I", 0x0C)
    ∷ ("J", 0x0D)
    ∷ ("K", 0x0E)
    ∷ ("L", 0x0F)
    ∷ ("M", 0x10)
    ∷ ("N", 0x11)
    ∷ ("O", 0x12)
    ∷ ("P", 0x13)
    ∷ ("Q", 0x14)
    ∷ ("R", 0x15)
    ∷ ("S", 0x16)
    ∷ ("T", 0x17)
    ∷ ("U", 0x18)
    ∷ ("V", 0x19)
    ∷ ("W", 0x1A)
    ∷ ("X", 0x1B)
    ∷ ("Y", 0x1C)
    ∷ ("Z", 0x1D)
    ∷ ("Num1", 0x1E)
    ∷ ("Num2", 0x1F)
    ∷ ("Num3", 0x20)
    ∷ ("Num4", 0x21)
    ∷ ("Num5", 0x22)
    ∷ ("Num6", 0x23)
    ∷ ("Num7", 0x24)
    ∷ ("Num8", 0x25)
    ∷ ("Num9", 0x26)
    ∷ ("Num0", 0x27)
    ∷ ("Enter", 0x28)
    ∷ ("Escape", 0x29)
    ∷ ("Backspace", 0x2A)
    ∷ ("Tab", 0x2B)
    ∷ ("Space", 0x2C)
    ∷ ("ArrowRight", 0x4F)
    ∷ ("ArrowLeft", 0x50)
    ∷ ("ArrowDown", 0x51)
    ∷ ("ArrowUp", 0x52)
    ∷ []

unfoldable pub egui_key_to_hid : String → Option ℕ
egui_key_to_hid key = lookup key hid_usages

pub data PointerButton : Type 0 where
  primary : PointerButton
  secondary : PointerButton
  middle : PointerButton
  extra1 : PointerButton
  extra2 : PointerButton

unfoldable pub map_pointer_button : PointerButton → MouseButton
map_pointer_button PointerButton.primary = MouseButton.left
map_pointer_button PointerButton.secondary = MouseButton.right
map_pointer_button PointerButton.middle = MouseButton.middle
map_pointer_button PointerButton.extra1 = MouseButton.x1
map_pointer_button PointerButton.extra2 = MouseButton.x2

-- The variants that are told apart; the last stands for all others.
pub data EguiEvent (F : Type 0) : Type 0 where
  pointer_moved : F → F → EguiEvent F
  pointer_button : PointerButton → Bool → EguiEvent F
  mouse_wheel : F → F → EguiEvent F
  key : String → Bool → EguiEvent F
  unmapped : EguiEvent F

module _ {F : Type 0} where
  abbrev pub key_event : Bool → Option ℕ → Option (InputEvent F)
  key_event pressed none = none
  key_event true (some hid_usage) = some (InputEvent.key_down hid_usage)
  key_event false (some hid_usage) = some (InputEvent.key_up hid_usage)

  unfoldable pub egui_event_to_input : EguiEvent F → Option (InputEvent F)
  egui_event_to_input (EguiEvent.pointer_moved x y) = some (InputEvent.mouse_move x y)
  egui_event_to_input (EguiEvent.pointer_button button pressed) =
      some (InputEvent.mouse_button (map_pointer_button button) pressed)
  egui_event_to_input (EguiEvent.mouse_wheel dx dy) = some (InputEvent.mouse_scroll dx dy)
  egui_event_to_input (EguiEvent.key name pressed) = key_event pressed (egui_key_to_hid name)
  egui_event_to_input EguiEvent.unmapped = none
