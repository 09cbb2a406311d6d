-- ===== src/Keyboard.antt =====
-- kernel/src/drivers/keyboard/keyboard.c: from the scan codes that the keyboard sends to key
-- states, modifiers and events. The port read, the interrupt set-up and the log are left out.
pub mod Tables
pub mod State
pub mod Ascii
mod Tests
use Prim.Native.String.{String}
use kronosos.Base.{
  ℕ, ◌-◌, ◌%◌, Bool, true, false, not, ◌&&◌, ◌||◌, Option, none, some, List, ltb, leb, ◌==◌,
  if◌then◌else◌, length, get_or, set, bit_and,
}
use mathlib.Core.Bool.{xor}
use kronosos.Keyboard.Tables.{scancode_to_ascii, scancode_to_ascii_shifted, key_names}

pub data KeyState : Type 0 where
  key_released key_pressed : KeyState

-- `keyboard_event_t`
pub record Event : Type 0 where
  pub scancode : ℕ
  pub ascii : ℕ
  pub state : KeyState
  pub shift_pressed : Bool
  pub ctrl_pressed : Bool
  pub alt_pressed : Bool

-- The static variables; `callback` tells whether `kb_callback` is set.
pub record Keyboard : Type 0 where
  pub key_states : List ℕ
  pub shift_pressed : Bool
  pub ctrl_pressed : Bool
  pub alt_pressed : Bool
  pub caps_lock : Bool
  pub callback : Bool

pub get_key_state : Keyboard → ℕ → Bool
get_key_state k scancode = if ltb scancode 128 then get_or k.key_states scancode 0 == 1 else false

pub get_key_name : ℕ → String
get_key_name scancode =
    if ltb scancode (length key_names) then get_or key_names scancode "Unknown" else "Unknown"

pub register_callback : Keyboard → Bool → Keyboard
register_callback k callback = record k { callback = callback }

-- `bool is_release = scancode & 0x80` and `key = scancode & 0x7F`, of a byte
pub is_release : ℕ → Bool
is_release scancode = not (bit_and scancode 0x80 == 0)

pub key_of : ℕ → ℕ
key_of scancode = bit_and scancode 0x7f

pub update_modifiers : Keyboard → ℕ → Bool → Keyboard
update_modifiers k key release =
    if (key == 0x2a) || (key == 0x36)
    then record k { shift_pressed = not release }
    else if key == 0x1d
    then record k { ctrl_pressed = not release }
    else if key == 0x38
    then record k { alt_pressed = not release }
    else if (key == 0x3a) && not release
    then record k { caps_lock = not k.caps_lock }
    else k

pub is_letter : ℕ → Bool
is_letter key =
    (leb 0x10 key && leb key 0x19)
    || ((leb 0x1e key && leb key 0x26) || (leb 0x2c key && leb key 0x32))

-- `key < sizeof(scancode_to_ascii)`, and the two tables at a key
pub in_table : ℕ → Bool
in_table key = ltb key (length scancode_to_ascii)

pub plain_char : ℕ → ℕ
plain_char key = get_or scancode_to_ascii key 0

pub shifted_char : ℕ → ℕ
shifted_char key = get_or scancode_to_ascii_shifted key 0

pub ascii_of : Keyboard → ℕ → Bool → ℕ
unfolding is_letter in_table plain_char shifted_char
ascii_of k key release =
    if in_table key && not release
    then (let uppercase = xor k.shift_pressed k.caps_lock in
        if is_letter key
        then (if uppercase then shifted_char key else plain_char key)
        else (if k.shift_pressed then shifted_char key else plain_char key))
    else 0

-- the event of a key, with the modifiers that the key has already changed
pub event_of : Keyboard → ℕ → Bool → Event
unfolding ascii_of
event_of k key release = record {
  scancode = key;
  ascii = ascii_of k key release;
  state = if release then key_released else key_pressed;
  shift_pressed = k.shift_pressed;
  ctrl_pressed = k.ctrl_pressed;
  alt_pressed = k.alt_pressed;
}

-- the key states and the modifiers after a scan code
pub next_state : Keyboard → ℕ → Keyboard
unfolding is_release key_of update_modifiers
next_state k scancode =
    let release = is_release scancode in
    let key = key_of scancode in
    let down = record k { key_states = set k.key_states key (if release then 0 else 1) } in
    update_modifiers down key release

-- The new state, and the event that the callback is called with, if there is one.
pub handle_keypress : Keyboard → ℕ → Option Event × Keyboard
unfolding event_of next_state
handle_keypress k scancode =
    let k' = next_state k scancode in
    (if k'.callback then some (event_of k' (key_of scancode) (is_release scancode)) else none, k')
