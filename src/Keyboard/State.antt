-- ===== src/Keyboard/State.antt =====
-- The key states and the modifiers after any sequence of scan codes.
use kronosos.Base.{
  ℕ, ◌%◌, ◌<◌, ◌≡◌, ◌∙◌, refl, Bool, true, not, ◌||◌, List, [], ◌∷◌, ltb, leb, ◌==◌, ==→eq,
  if◌then◌else◌, length, set, arith, all_below, all_below-apply, get_or-set, length-set,
}
use kronosos.Keyboard.{
  Keyboard, get_key_state, is_release, key_of, update_modifiers, next_state, handle_keypress,
}

release_table : all_below (λ s. if leb 128 s then is_release s else not (is_release s)) 256 ≡ true
unfolding all_below is_release
release_table = refl

key_table : all_below (λ s. key_of s == s % 128) 256 ≡ true
unfolding all_below key_of
key_table = refl

-- The two parts of a scan code.
pub is_release-eq : (s : ℕ) → s < 256 → is_release s ≡ leb 128 s
is_release-eq s h = ground (arith, all_below-apply _ 256 s release_table h)

pub key_of-eq : (s : ℕ) → s < 256 → key_of s ≡ s % 128
key_of-eq s h = ==→eq (all_below-apply _ 256 s key_table h)

key_states-update :
    (k : Keyboard) (key : ℕ) (release : Bool)
    → (update_modifiers k key release).key_states ≡ k.key_states
unfolding update_modifiers
key_states-update k key release = ground arith

-- A scan code sets the state of its key, and of no other, to pressed or released.
pub get_key_state-handle_keypress :
    (k : Keyboard) (s c : ℕ)
    → length k.key_states ≡ 128
    → s < 256
    → c < 128
    → get_key_state (handle_keypress k s).1 c
      ≡ (if s % 128 == c then ltb s 128 else get_key_state k c)
unfolding get_key_state handle_keypress next_state
get_key_state-handle_keypress k s c len hs hc =
    let key = key_of-eq s hs in
    rw
      (
        key_states-update
            (record k { key_states = set k.key_states (key_of s) (if is_release s then 0 else 1) })
            (key_of s) (is_release s),
        is_release-eq s hs,
        key,
      )
      (ground
        (arith, get_or-set k.key_states (s % 128) c (if leb 128 s then 0 else 1) 0 (omega arith)))

-- The modifiers agree with the key states: control and alt are what their keys are, and shift is
-- on only while one of its two keys is down.
pub record IsValid (k : Keyboard) : Type 0 where
  pub size : length k.key_states ≡ 128
  pub ctrl : k.ctrl_pressed ≡ get_key_state k 0x1d
  pub alt : k.alt_pressed ≡ get_key_state k 0x38
  pub shift : k.shift_pressed ≡ true → (get_key_state k 0x2a || get_key_state k 0x36) ≡ true

-- The modifiers after a scan code.
record Modifiers (k : Keyboard) (s : ℕ) (k' : Keyboard) : Type 0 where
  ctrl : k'.ctrl_pressed ≡ (if s % 128 == 0x1d then ltb s 128 else k.ctrl_pressed)
  alt : k'.alt_pressed ≡ (if s % 128 == 0x38 then ltb s 128 else k.alt_pressed)
  shift :
      k'.shift_pressed
      ≡ (if (s % 128 == 0x2a) || (s % 128 == 0x36) then ltb s 128 else k.shift_pressed)
  caps : k'.caps_lock ≡ (if s == 0x3a then not k.caps_lock else k.caps_lock)

handle_keypress-Modifiers : (k : Keyboard) (s : ℕ) → s < 256 → Modifiers k s (handle_keypress k s).1
unfolding handle_keypress next_state update_modifiers
handle_keypress-Modifiers k s h = ground (arith, is_release-eq s h, key_of-eq s h)

length-handle_keypress :
    (k : Keyboard) (s : ℕ) → length (handle_keypress k s).1.key_states ≡ length k.key_states
unfolding handle_keypress next_state
length-handle_keypress k s = rw key_states-update (length-set k.key_states (key_of s) _)

-- Every scan code keeps the invariant.
pub handle_keypress-IsValid :
    (k : Keyboard) (s : ℕ) → IsValid k → s < 256 → IsValid (handle_keypress k s).1
handle_keypress-IsValid k s v h =
    let m = handle_keypress-Modifiers k s h in
    let at = λ (c : ℕ) (below : c < 128). get_key_state-handle_keypress k s c v.size h below in
    record {
      size = length-handle_keypress k s ∙ v.size;
      ctrl = ground (arith, m.ctrl, v.ctrl, at 0x1d (omega arith));
      alt = ground (arith, m.alt, v.alt, at 0x38 (omega arith));
      shift = ground (arith, m.shift, v.shift, at 0x2a (omega arith), at 0x36 (omega arith));
    }

-- The state after a sequence of scan codes.
pub run : Keyboard → List ℕ → Keyboard
run k [] = k
run k (s ∷ ss) = run (handle_keypress k s).1 ss

abbrev pub AllBytes : List ℕ → Type 0
AllBytes [] = Unit
AllBytes (s ∷ ss) = (s < 256) × AllBytes ss

-- what the last event of a key says: `down` if there was none
pub last_event : ℕ → List ℕ → Bool → Bool
last_event c [] down = down
last_event c (s ∷ ss) down = last_event c ss (if s % 128 == c then ltb s 128 else down)

-- how often Caps Lock was pressed, as a parity
pub caps_parity : List ℕ → Bool → Bool
caps_parity [] on = on
caps_parity (s ∷ ss) on = caps_parity ss (if s == 0x3a then not on else on)

-- what the last event of either Shift key says: `on` if there was none
pub last_shift : List ℕ → Bool → Bool
last_shift [] on = on
last_shift (s ∷ ss) on =
    last_shift ss (if (s % 128 == 0x2a) || (s % 128 == 0x36) then ltb s 128 else on)

-- From a state with 128 keys in which the Control and Alt flags are the states of their keys and
-- Shift is set only while one of its keys is down, and for any sequence of bytes: the state is one
-- of that kind again, each key is in the state that its last event left it in, the Shift flag is
-- what the last event of either Shift key left, so that it may be off while the other is held, and
-- Caps Lock has been toggled once for each press of its key.
pub run_lem :
    (k : Keyboard) (ss : List ℕ)
    → IsValid k
    → AllBytes ss
    → IsValid (run k ss)
      × ((c : ℕ) → c < 128 → get_key_state (run k ss) c ≡ last_event c ss (get_key_state k c))
      × ((run k ss).shift_pressed ≡ last_shift ss k.shift_pressed)
      × ((run k ss).caps_lock ≡ caps_parity ss k.caps_lock)
unfolding run last_event last_shift caps_parity
run_lem k [] v b = (v, λ c h. refl, refl, refl)
run_lem k (s ∷ ss) v (b, bs) =
    let rest = run_lem (handle_keypress k s).1 ss (handle_keypress-IsValid k s v b) bs in
    (
      rest.0,
      λ c h. rw (rest.1 c h, get_key_state-handle_keypress k s c v.size b h),
      rw (rest.2, (handle_keypress-Modifiers k s b).shift),
      rw (rest.3, (handle_keypress-Modifiers k s b).caps),
    )
