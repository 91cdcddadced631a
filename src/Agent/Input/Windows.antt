-- ===== src/Agent/Input/Windows.antt =====
-- apps/agent/src/windows/input.rs. What is handed to the platform is a list of calls; what is
-- computed in floats is a parameter.
use remotekvm.Base.{
  ℕ, ◌+◌, ◌-◌, List, [], ◌∷◌, ◌++◌, Bool, true, false, ◌&&◌, ◌||◌, Option, none, some, ◌==◌, leb,
  if◌then◌else◌,
}
use remotekvm.Protocol.{MouseButton, InputEvent}

unfoldable pub hid_to_vk : ℕ → Option ℕ
hid_to_vk hid =
    if leb 0x04 hid && leb hid 0x1d
    then some (0x41 + (hid - 0x04))
    else if leb 0x1e hid && leb hid 0x26
    then some (0x31 + (hid - 0x1e))
    else if hid == 0x27
    then some 0x30
    else if hid == 0x28
    then some 0x0d
    else if hid == 0x29
    then some 0x1b
    else if hid == 0x2a
    then some 0x08
    else if hid == 0x2b
    then some 0x09
    else if hid == 0x2c
    then some 0x20
    else if hid == 0x4f
    then some 0x27
    else if hid == 0x50
    then some 0x25
    else if hid == 0x51
    then some 0x28
    else if hid == 0x52
    then some 0x26
    else if hid == 0xe0 || hid == 0xe4
    then some 0x11
    else if hid == 0xe1 || hid == 0xe5
    then some 0x10
    else if hid == 0xe2 || hid == 0xe6
    then some 0x12
    else if hid == 0xe3 || hid == 0xe7
    then some 0x5b
    else none

-- The flags of `MOUSEINPUT` and `KEYBDINPUT` that are used.
pub data WinFlag : Type 0 where
  absolute_move : WinFlag
  left_down : WinFlag
  left_up : WinFlag
  right_down : WinFlag
  right_up : WinFlag
  middle_down : WinFlag
  middle_up : WinFlag
  x_down : WinFlag
  x_up : WinFlag
  wheel : WinFlag
  hwheel : WinFlag

pub data WinInput (W : Type 0) : Type 0 where
  mouse : W → W → W → WinFlag → WinInput W
  keyboard : ℕ → Bool → WinInput W

-- The conversions of floats to `i32`, of which `W` is the type, and the desktop's metrics.
pub record WinNumbers (F W : Type 0) : Type 0 where
  pub literal : ℕ → W
  pub to_absolute_x : F → Option W
  pub to_absolute_y : F → Option W
  pub wheel_delta : F → W
  pub is_small : F → Bool

abbrev pub button_input : MouseButton → Bool → WinFlag × ℕ
button_input MouseButton.left true = (WinFlag.left_down, 0)
button_input MouseButton.left false = (WinFlag.left_up, 0)
button_input MouseButton.right true = (WinFlag.right_down, 0)
button_input MouseButton.right false = (WinFlag.right_up, 0)
button_input MouseButton.middle true = (WinFlag.middle_down, 0)
button_input MouseButton.middle false = (WinFlag.middle_up, 0)
button_input MouseButton.x1 true = (WinFlag.x_down, 1)
button_input MouseButton.x1 false = (WinFlag.x_up, 1)
button_input MouseButton.x2 true = (WinFlag.x_down, 2)
button_input MouseButton.x2 false = (WinFlag.x_up, 2)

module _ {F W : Type 0} (numbers : WinNumbers F W) where
  abbrev pub zero_w : W
  zero_w = numbers.literal 0

  abbrev pub send_move : Option W → Option W → List (WinInput W)
  send_move (some dx) (some dy) = WinInput.mouse dx dy zero_w WinFlag.absolute_move ∷ []
  send_move (some dx) none = []
  send_move none dy = []

  unfoldable pub send_mouse_button : MouseButton → Bool → List (WinInput W)
  send_mouse_button button pressed =
      let (flags, mouse_data) = button_input button pressed in
      WinInput.mouse zero_w zero_w (numbers.literal mouse_data) flags ∷ []

  unfoldable pub send_mouse_scroll : F → F → List (WinInput W)
  send_mouse_scroll dx dy =
      (if numbers.is_small dy
        then []
        else WinInput.mouse zero_w zero_w (numbers.wheel_delta dy) WinFlag.wheel ∷ [])
      ++ (if numbers.is_small dx
          then []
          else WinInput.mouse zero_w zero_w (numbers.wheel_delta dx) WinFlag.hwheel ∷ [])

  abbrev pub send_key : Option ℕ → Bool → List (WinInput W)
  send_key none down = []
  send_key (some vk) down = WinInput.keyboard vk down ∷ []

  -- What `windows::input::inject` hands to `SendInput`.
  unfoldable pub windows_inject : InputEvent F → List (WinInput W)
  windows_inject (InputEvent.mouse_move x y) =
      send_move (numbers.to_absolute_x x) (numbers.to_absolute_y y)
  windows_inject (InputEvent.mouse_button button pressed) = send_mouse_button button pressed
  windows_inject (InputEvent.mouse_scroll dx dy) = send_mouse_scroll dx dy
  windows_inject (InputEvent.key_down hid) = send_key (hid_to_vk hid) true
  windows_inject (InputEvent.key_up hid) = send_key (hid_to_vk hid) false
