-- ===== src/Keyboard/Tests.antt =====
-- The keyboard on a few scan codes, and the theorems there.
use kronosos.Base.{ℕ, ◌<◌, ◌≡◌, refl, true, false, some, none, List, [], ◌∷◌, replicate, arith}
use kronosos.Keyboard.{Keyboard, Event, get_key_state, handle_keypress}
use kronosos.Keyboard.State.{IsValid, run, last_event, last_shift, caps_parity, run_lem}
use kronosos.Keyboard.Ascii.{Reported, handle_keypress-Reported}

abbrev idle : Keyboard
idle = record {
  key_states = replicate 128 0;
  shift_pressed = false;
  ctrl_pressed = false;
  alt_pressed = false;
  caps_lock = false;
  callback = true;
}

idle-IsValid : IsValid idle
unfolding get_key_state
idle-IsValid = record { size = refl; ctrl = refl; alt = refl; shift = λ e. cc }

-- shift down, A down and up, shift up
abbrev typed : List ℕ
typed = 0x2a ∷ 0x1e ∷ 0x9e ∷ 0xaa ∷ []

run_lem_example :
    IsValid (run idle typed)
    × ((c : ℕ)
        → c < 128
        → get_key_state (run idle typed) c ≡ last_event c typed (get_key_state idle c))
    × ((run idle typed).shift_pressed ≡ last_shift typed false)
    × ((run idle typed).caps_lock ≡ caps_parity typed false)
run_lem_example = run_lem idle typed idle-IsValid (omega arith)

handle_keypress-Reported_example :
    let (o, k') = handle_keypress idle 0x1e in
    (true ≡ false → o ≡ none) × (true ≡ true → (e : Event) × (o ≡ some e) × Reported k' 0x1e e)
handle_keypress-Reported_example = handle_keypress-Reported idle 0x1e (omega arith)
