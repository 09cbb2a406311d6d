-- ===== src/Keyboard/Tables.antt =====
-- The tables of kernel/src/drivers/keyboard/keyboard.c: US QWERTY scan codes to characters, and
-- the names of the keys. 39 is the apostrophe, 92 the backslash.
use Prim.Native.String.{String}
use kronosos.Base.{ℕ, List, [], ◌∷◌}

abbrev pub scancode_to_ascii : List ℕ
scancode_to_ascii =
    0 ∷ 0 ∷ b'1' ∷ b'2' ∷ b'3' ∷ b'4' ∷ b'5' ∷ b'6' ∷ b'7' ∷ b'8' ∷ b'9' ∷ b'0' ∷ b'-' ∷ b'=' ∷ 0
    ∷ 0 ∷ b'q' ∷ b'w' ∷ b'e' ∷ b'r' ∷ b't' ∷ b'y' ∷ b'u' ∷ b'i' ∷ b'o' ∷ b'p' ∷ b'[' ∷ b']' ∷ 0 ∷ 0
    ∷ b'a' ∷ b's' ∷ b'd' ∷ b'f' ∷ b'g' ∷ b'h' ∷ b'j' ∷ b'k' ∷ b'l' ∷ b';' ∷ 39 ∷ b'`' ∷ 0 ∷ 92
    ∷ b'z' ∷ b'x' ∷ b'c' ∷ b'v' ∷ b'b' ∷ b'n' ∷ b'm' ∷ b',' ∷ b'.' ∷ b'/' ∷ 0 ∷ b'*' ∷ 0 ∷ b' ' ∷ 0
    ∷ 0 ∷ 0 ∷ 0 ∷ 0 ∷ 0 ∷ 0 ∷ 0 ∷ 0 ∷ 0 ∷ 0 ∷ 0 ∷ 0 ∷ b'7' ∷ b'8' ∷ b'9' ∷ b'-' ∷ b'4' ∷ b'5' ∷ b'6'
    ∷ b'+' ∷ b'1' ∷ b'2' ∷ b'3' ∷ b'0' ∷ b'.' ∷ 0 ∷ 0 ∷ 0 ∷ 0 ∷ 0 ∷ 0 ∷ []

abbrev pub scancode_to_ascii_shifted : List ℕ
scancode_to_ascii_shifted =
    0 ∷ 0 ∷ b'!' ∷ b'@' ∷ b'#' ∷ b'$' ∷ b'%' ∷ b'^' ∷ b'&' ∷ b'*' ∷ b'(' ∷ b')' ∷ b'_' ∷ b'+' ∷ 0
    ∷ 0 ∷ b'Q' ∷ b'W' ∷ b'E' ∷ b'R' ∷ b'T' ∷ b'Y' ∷ b'U' ∷ b'I' ∷ b'O' ∷ b'P' ∷ b'{' ∷ b'}' ∷ 0 ∷ 0
    ∷ b'A' ∷ b'S' ∷ b'D' ∷ b'F' ∷ b'G' ∷ b'H' ∷ b'J' ∷ b'K' ∷ b'L' ∷ b':' ∷ b'"' ∷ b'~' ∷ 0 ∷ b'|'
    ∷ b'Z' ∷ b'X' ∷ b'C' ∷ b'V' ∷ b'B' ∷ b'N' ∷ b'M' ∷ b'<' ∷ b'>' ∷ b'?' ∷ 0 ∷ b'*' ∷ 0 ∷ b' ' ∷ 0
    ∷ 0 ∷ 0 ∷ 0 ∷ 0 ∷ 0 ∷ 0 ∷ 0 ∷ 0 ∷ 0 ∷ 0 ∷ 0 ∷ 0 ∷ b'7' ∷ b'8' ∷ b'9' ∷ b'-' ∷ b'4' ∷ b'5' ∷ b'6'
    ∷ b'+' ∷ b'1' ∷ b'2' ∷ b'3' ∷ b'0' ∷ b'.' ∷ 0 ∷ 0 ∷ 0 ∷ 0 ∷ 0 ∷ 0 ∷ []

abbrev pub key_names : List String
key_names =
    "Unknown" ∷ "Escape" ∷ "1" ∷ "2" ∷ "3" ∷ "4" ∷ "5" ∷ "6" ∷ "7" ∷ "8" ∷ "9" ∷ "0" ∷ "Minus"
    ∷ "Equal" ∷ "Backspace" ∷ "Tab" ∷ "Q" ∷ "W" ∷ "E" ∷ "R" ∷ "T" ∷ "Y" ∷ "U" ∷ "I" ∷ "O" ∷ "P"
    ∷ "LeftBracket" ∷ "RightBracket" ∷ "Enter" ∷ "LeftCtrl" ∷ "A" ∷ "S" ∷ "D" ∷ "F" ∷ "G" ∷ "H"
    ∷ "J" ∷ "K" ∷ "L" ∷ "Semicolon" ∷ "Apostrophe" ∷ "Backtick" ∷ "LeftShift" ∷ "Backslash" ∷ "Z"
    ∷ "X" ∷ "C" ∷ "V" ∷ "B" ∷ "N" ∷ "M" ∷ "Comma" ∷ "Period" ∷ "Slash" ∷ "RightShift"
    ∷ "KeypadMultiply" ∷ "LeftAlt" ∷ "Space" ∷ "CapsLock" ∷ "F1" ∷ "F2" ∷ "F3" ∷ "F4" ∷ "F5" ∷ "F6"
    ∷ "F7" ∷ "F8" ∷ "F9" ∷ "F10" ∷ "NumLock" ∷ "ScrollLock" ∷ "Keypad7" ∷ "Keypad8" ∷ "Keypad9"
    ∷ "KeypadMinus" ∷ "Keypad4" ∷ "Keypad5" ∷ "Keypad6" ∷ "KeypadPlus" ∷ "Keypad1" ∷ "Keypad2"
    ∷ "Keypad3" ∷ "Keypad0" ∷ "KeypadDecimal" ∷ []
