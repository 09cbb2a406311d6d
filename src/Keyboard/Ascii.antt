-- ===== src/Keyboard/Ascii.antt =====
-- The character of a key event.
use mathlib.Core.Bool.{xor}
use kronosos.Base.{
  ℕ, ◌+◌, ◌-◌, ◌%◌, ◌≤◌, ◌<◌, ◌≡◌, refl, Bool, true, false, ◌&&◌, none, some, ltb, leb, ◌==◌,
  if◌then◌else◌, arith, all_below, all_below-apply, Bool-cases, inl, inr,
}
use kronosos.Keyboard.{
  in_table, plain_char, shifted_char, event_of, next_state, Keyboard, Event, KeyState, key_pressed,
  key_released, ascii_of, is_letter, handle_keypress, update_modifiers, is_release, key_of,
}
use kronosos.Keyboard.State.{is_release-eq, key_of-eq}

-- Letter keys type a lower case letter, or 32 less, its upper case, from the shifted table.
letter_table :
    all_below
      (λ key.
        if is_letter key
        then in_table key
          && (leb b'a' (plain_char key)
              && (leb (plain_char key) b'z' && (plain_char key == shifted_char key + 32)))
        else true)
      128
    ≡ true
unfolding all_below is_letter in_table plain_char shifted_char
letter_table = refl

abbrev LetterKey : ℕ → Type 0
LetterKey key =
    (in_table key ≡ true)
    × (b'a' ≤ plain_char key)
    × (plain_char key ≤ b'z')
    × (plain_char key ≡ shifted_char key + 32)

letter_test :
    (i l : Bool) (p q : ℕ)
    → (if l then i && (leb b'a' p && (leb p b'z' && (p == q + 32))) else true) ≡ true
    → l ≡ true
    → (i ≡ true) × (b'a' ≤ p) × (p ≤ b'z') × (p ≡ q + 32)
letter_test i l p q h on = ground arith

letter_key : (key : ℕ) → key < 128 → is_letter key ≡ true → LetterKey key
letter_key key h = letter_test _ _ _ _ (all_below-apply _ 128 key letter_table h)

-- What the callback is told of scan code `s`, on a keyboard that the key has already changed.
pub record Reported (k : Keyboard) (s : ℕ) (e : Event) : Type 0 where
  pub scancode : e.scancode ≡ s % 128
  pub state : e.state ≡ (if ltb s 128 then key_pressed else key_released)
  pub shift : e.shift_pressed ≡ k.shift_pressed
  pub ctrl : e.ctrl_pressed ≡ k.ctrl_pressed
  pub alt : e.alt_pressed ≡ k.alt_pressed
  pub released : 128 ≤ s → e.ascii ≡ 0
  pub letter :
      s < 128
      → is_letter s ≡ true
      → (b'a' ≤ plain_char s)
        × (plain_char s ≤ b'z')
        × (e.ascii ≡ (if xor k.shift_pressed k.caps_lock then plain_char s - 32 else plain_char s))
  pub other :
      s < 128
      → is_letter s ≡ false
      → e.ascii
        ≡ (if in_table s then (if k.shift_pressed then shifted_char s else plain_char s) else 0)

letter_ascii :
    (k : Keyboard) (s : ℕ) {release : Bool}
    → LetterKey s
    → is_letter s ≡ true
    → release ≡ false
    → (b'a' ≤ plain_char s)
      × (plain_char s ≤ b'z')
      × (ascii_of k s release
          ≡ (if xor k.shift_pressed k.caps_lock then plain_char s - 32 else plain_char s))
unfolding ascii_of
letter_ascii k s (i, lo, hi, e) l r = (
  lo,
  hi,
  rw (l, i, r)
      (elim (Bool-cases (xor k.shift_pressed k.caps_lock)) [
        | inl up ↦ rw up (omega arith)
        | inr low ↦ rw low refl
      ]),
)

other_ascii :
    (k : Keyboard) (s : ℕ) {release : Bool}
    → is_letter s ≡ false
    → release ≡ false
    → ascii_of k s release
      ≡ (if in_table s then (if k.shift_pressed then shifted_char s else plain_char s) else 0)
unfolding ascii_of
other_ascii k s l r =
    rw (l, r) (elim (Bool-cases (in_table s)) [ inl i ↦ rw i refl | inr o ↦ rw o refl ])

released_ascii :
    (k : Keyboard) (key : ℕ) {release : Bool} → release ≡ true → ascii_of k key release ≡ 0
unfolding ascii_of
released_ascii k key r =
    rw r (elim (Bool-cases (in_table key)) [ inl i ↦ rw i refl | inr o ↦ rw o refl ])

event_of-Reported :
    (k : Keyboard) (s : ℕ) → s < 256 → Reported k s (event_of k (key_of s) (is_release s))
unfolding event_of
event_of-Reported k s h =
    rw (is_release-eq s h, key_of-eq s h)
      (record {
        scancode = refl;
        state = flip_test s _ _;
        shift = refl;
        ctrl = refl;
        alt = refl;
        released = λ r. released_ascii k _ (high s r);
        letter = λ p l. rw (low_key s p) (letter_ascii k s (letter_key s p l) l (low s p));
        other = λ p o. rw (low_key s p) (other_ascii k s o (low s p));
      })
  where
    flip_test :
        (s : ℕ) (x y : KeyState) → (if leb 128 s then x else y) ≡ (if ltb s 128 then y else x)
    flip_test s x y = ground arith

    high : (s : ℕ) → 128 ≤ s → leb 128 s ≡ true
    high s r = ground arith

    low : (s : ℕ) → s < 128 → leb 128 s ≡ false
    low s p = ground arith

    low_key : (s : ℕ) → s < 128 → s % 128 ≡ s
    low_key s p = omega arith

callback-next_state : (k : Keyboard) (s : ℕ) → (next_state k s).callback ≡ k.callback
unfolding next_state update_modifiers
callback-next_state k s = ground arith

-- With a callback, the handler reports each scan code as above, with the modifiers as they are
-- after it; without one it reports nothing.
pub handle_keypress-Reported :
    (k : Keyboard) (s : ℕ)
    → s < 256
    → let (o, k') = handle_keypress k s in
      (k.callback ≡ false → o ≡ none)
      × (k.callback ≡ true → (e : Event) × (o ≡ some e) × Reported k' s e)
unfolding handle_keypress
handle_keypress-Reported k s h = (
  λ off. rw (callback-next_state k s, off) refl,
  λ on. (_, rw (callback-next_state k s, on) refl, event_of-Reported (next_state k s) s h),
)
