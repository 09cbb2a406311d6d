-- ===== src/Mouse/Packets.antt =====
-- The bytes of the mouse as packets of three.
use kronosos.Base.{
  ℕ, zero, suc, ◌+◌, ◌-◌, ◌*◌, ◌/◌, ◌%◌, ◌^◌, ◌≤◌, ◌<◌, ◌≡◌, ◌∙◌, refl, sym, ap, true, false, not,
  Option, none, some, List, [], ◌∷◌, map, ltb, ◌==◌, if◌then◌else◌, if_yes, if_no, Bool-cases, inl,
  inr, bit_and, bit_or, arith,
}
use kronosos.Base.Bits.{bit_or-halve, bit, bit_and-pow, bit-le-one}
use kronosos.Base.Masks.{bit_and-low}
use kronosos.Mouse.{
  Event, Mouse, promote, sign_extend, delta, negate, decode, complete, interrupt_handler,
  get_button_state,
}

pub record Packet : Type 0 where
  pub status : ℕ
  pub x : ℕ
  pub y : ℕ

-- `n` bytes, and what the handler gives for each of them
pub feed : List ℕ → Mouse → List (Option Event) × Mouse
feed [] s = ([], s)
feed (b ∷ bs) s = let (e, t) = interrupt_handler b s in let (es, u) = feed bs t in (e ∷ es, u)

-- One step of a disjunction with a mask whose lowest bit is 0.
or_step : (a m : ℕ) → bit_or a (m * 2) ≡ bit_or (a / 2) m * 2 + a % 2
or_step a m =
    let e : m * 2 / 2 ≡ m = omega arith in
    omega (arith, bit_or-halve a (m * 2), ap (bit_or (a / 2)) e)

-- The eight low bits of a disjunction with a multiple of 256.
low_bits : (a m : ℕ) → bit_or a (m * 256) % 256 ≡ a % 256
low_bits a m =
    let e : m * 256 ≡ m * 2 * 2 * 2 * 2 * 2 * 2 * 2 * 2 = omega arith in
    let m1 = m * 2 in
    let m2 = m1 * 2 in
    let m3 = m2 * 2 in
    let m4 = m3 * 2 in
    let m5 = m4 * 2 in
    let m6 = m5 * 2 in
    let m7 = m6 * 2 in
    let a1 = a / 2 in
    let a2 = a1 / 2 in
    let a3 = a2 / 2 in
    let a4 = a3 / 2 in
    let a5 = a4 / 2 in
    let a6 = a5 / 2 in
    let a7 = a6 / 2 in
    omega (
      arith,
      ap (bit_or a) e,
      or_step a m7,
      or_step a1 m6,
      or_step a2 m5,
      or_step a3 m4,
      or_step a4 m3,
      or_step a5 m2,
      or_step a6 m1,
      or_step a7 m,
    )

-- The sign flags have no effect: the movement has 8 bits already.
delta-eq : (status flag b : ℕ) → b < 256 → delta status flag b ≡ b
unfolding delta sign_extend promote
delta-eq status flag b h = elim (Bool-cases (bit_and status flag == 0)) [
  | inl off ↦ if_yes _ _ off
  | inr on ↦ if_no _ _ on ∙ low_bits (promote b) 0xff_ffff ∙ ground arith
]

abbrev bytes : List Packet → List ℕ
bytes [] = []
bytes (p ∷ ps) = p.status ∷ p.x ∷ p.y ∷ bytes ps

-- each field is a byte
abbrev AreBytes : List Packet → Type 0
AreBytes [] = Unit
AreBytes (p ∷ ps) = (p.status < 256) × (p.x < 256) × (p.y < 256) × AreBytes ps

-- the calls of the callback
abbrev reported : List (Option Event) → List Event
reported [] = []
reported (none ∷ es) = reported es
reported (some e ∷ es) = e ∷ reported es

-- What a packet means: three buttons, and the movement with `y` turned around.
abbrev meaning : Packet → Event
meaning p = record { buttons = p.status % 8; delta_x = p.x; delta_y = (256 - p.y) % 256 }

abbrev last_buttons : ℕ → List Packet → ℕ
last_buttons b [] = b
last_buttons b (p ∷ ps) = last_buttons (p.status % 8) ps

-- the state after a packet
abbrev after : Packet → Mouse → Mouse
after p s = record s {
  packet_0 = p.status;
  packet_1 = p.x;
  packet_2 = p.y;
  cycle = 0;
  buttons = p.status % 8;
}

meaning-eq :
    (p : Packet) (s : Mouse)
    → p.x < 256
    → p.y < 256
    → decode (record s { packet_0 = p.status; packet_1 = p.x; packet_2 = p.y }) ≡ meaning p
unfolding decode negate promote
meaning-eq p s hx hy =
    rw (bit_and-low 3 p.status, delta-eq p.status 0x10 p.x hx, delta-eq p.status 0x20 p.y hy)
      (ap (λ (d : ℕ). record { buttons = p.status % 8; delta_x = p.x; delta_y = d }) (ground arith))

packet_step :
    (p : Packet) (bs : List ℕ) (s : Mouse)
    → s.cycle ≡ 0
    → p.x < 256
    → p.y < 256
    → feed (p.status ∷ p.x ∷ p.y ∷ bs) s ≡ (
      none ∷ none ∷ (if s.callback then some (meaning p) else none) ∷ (feed bs (after p s)).0,
      (feed bs (after p s)).1,
    )
unfolding feed interrupt_handler complete
packet_step p bs s e hx hy =
    ap (λ (c : ℕ). feed (p.status ∷ p.x ∷ p.y ∷ bs) (record s { cycle = c })) e
    ∙ ap
        (λ (v : Event). (
          none
              ∷ none
              ∷ (if s.callback then some v else none)
              ∷ (feed bs (record (after p s) { buttons = v.buttons })).0,
          (feed bs (record (after p s) { buttons = v.buttons })).1,
        ))
        (meaning-eq p (record s { cycle = 2 }) hx hy)

-- What is left after some packets.
pub record Fed (s : Mouse) (ps : List Packet) (r : List (Option Event) × Mouse) : Type 0 where
  pub events : reported r.0 ≡ map meaning ps
  pub cycle : r.1.cycle ≡ 0
  pub buttons : r.1.buttons ≡ last_buttons s.buttons ps

-- From the start of a packet on, the bytes of any number of packets give the callback exactly one
-- event for each, with the three buttons of its status byte, its movement in x as it is and in y
-- with the sign turned around, in 8 bits; the handler then waits for the next packet and keeps the
-- buttons of the last one.
pub feed-Fed :
    (ps : List Packet) (s : Mouse)
    → AreBytes ps
    → s.cycle ≡ 0
    → s.callback ≡ true
    → Fed s ps (feed (bytes ps) s)
unfolding feed
feed-Fed [] s all e c = record { events = refl; cycle = e; buttons = refl }
feed-Fed (p ∷ ps) s (_, hx, hy, all) e c =
    let rest = feed-Fed ps (after p s) all refl c in
    let step = packet_step p (bytes ps) s e hx hy in
    record {
      events =
          ap (λ (r : List (Option Event) × Mouse). reported r.0) step
          ∙ ap (λ (o : Option Event). reported (o ∷ (feed (bytes ps) (after p s)).0)) (if_yes _ _ c)
          ∙ ap (λ (es : List Event). meaning p ∷ es) rest.events;
      cycle = ap (λ (r : List (Option Event) × Mouse). r.1.cycle) step ∙ rest.cycle;
      buttons = ap (λ (r : List (Option Event) × Mouse). r.1.buttons) step ∙ rest.buttons;
    }

button_bit : (status b : ℕ) → b ≤ 2 → bit (status % 8) b ≡ bit status b
unfolding bit
button_bit status zero h = omega arith
button_bit status (suc zero) h = omega arith
button_bit status (suc (suc zero)) h = omega arith
button_bit status (suc (suc (suc b))) h = absurd (omega arith)

is_set : (a b : ℕ) → not (bit_and a (2 ^ b) == 0) ≡ (bit a b == 1)
is_set a b =
    let e = bit_and-pow a b in
    let one = bit-le-one a b in let pos = pow_pos b in by_bit (bit a b) one e pos
  where
    pow_pos : (k : ℕ) → 0 < 2 ^ k
    pow_pos zero = omega arith
    pow_pos (suc k) = let h = pow_pos k in omega arith

    by_bit :
        (v : ℕ)
        → v ≤ 1
        → bit_and a (2 ^ b) ≡ v * 2 ^ b
        → 0 < 2 ^ b
        → not (bit_and a (2 ^ b) == 0) ≡ (v == 1)
    by_bit zero h e pos =
        let none_set : bit_and a (2 ^ b) ≡ 0 = omega arith in ap (λ (v : ℕ). not (v == 0)) none_set
    by_bit (suc zero) h e pos = ground arith
    by_bit (suc (suc v)) h e pos = absurd (omega arith)

-- After a packet, `mouse_get_button_state` tells whether the bit of a button in its status byte is
-- set, and is false for any button above 2.
pub get_button_state-feed :
    (p : Packet) (s : Mouse) (button : ℕ)
    → p.x < 256
    → p.y < 256
    → s.cycle ≡ 0
    → get_button_state button (feed (bytes (p ∷ [])) s).1
      ≡ (if ltb 2 button then false else bit p.status button == 1)
unfolding feed get_button_state
get_button_state-feed p s button hx hy e =
    ap (λ (r : List (Option Event) × Mouse). get_button_state button r.1)
      (packet_step p [] s e hx hy)
    ∙ elim (Bool-cases (ltb 2 button)) [
      | inl above ↦ if_yes _ _ above ∙ sym (if_yes _ _ above)
      | inr within ↦
          if_no _ _ within
          ∙ is_set (p.status % 8) button
          ∙ ap (λ (v : ℕ). v == 1) (button_bit p.status button (ground arith))
          ∙ sym (if_no _ _ within)
    ]
