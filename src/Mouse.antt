-- ===== src/Mouse.antt =====
-- kernel/src/drivers/mouse/mouse.c: from the bytes that the mouse sends to packets and events. The
-- port read and the set-up of the device are left out.
pub mod Packets
mod Tests
use kronosos.Base.{
  ℕ, suc, zero, ◌+◌, ◌-◌, ◌%◌, ◌^◌, Bool, true, false, not, Option, none, some, ltb, ◌==◌,
  if◌then◌else◌, bit_and, bit_or,
}

-- `mouse_event_t`; an `int8_t` is the byte that represents it.
pub record Event : Type 0 where
  pub buttons : ℕ
  pub delta_x : ℕ
  pub delta_y : ℕ

-- The static variables: the three bytes of `mouse_packet`, and whether a callback is registered.
pub record Mouse : Type 0 where
  pub packet_0 : ℕ
  pub packet_1 : ℕ
  pub packet_2 : ℕ
  pub cycle : ℕ
  pub buttons : ℕ
  pub callback : Bool

pub register_callback : Mouse → Bool → Mouse
register_callback s callback = record s { callback = callback }

-- an `int8_t` as an `int` of 32 bits
pub promote : ℕ → ℕ
promote b = if ltb b 128 then b else b + (2 ^ 32 - 2 ^ 8)

-- `delta |= 0xFFFFFF00`, stored in 8 bits again
pub sign_extend : ℕ → ℕ
unfolding promote
sign_extend b = bit_or (promote b) 0xffff_ff00 % 2 ^ 8

-- a movement, by the sign flag in the status byte
pub delta : ℕ → ℕ → ℕ → ℕ
unfolding sign_extend
delta status flag b = if bit_and status flag == 0 then b else sign_extend b

-- `-event.delta_y`, stored in 8 bits again
pub negate : ℕ → ℕ
unfolding promote
negate b = (2 ^ 32 - promote b) % 2 ^ 8

-- the event of the packet
pub decode : Mouse → Event
unfolding delta negate
decode s = record {
  buttons = bit_and s.packet_0 0x07;
  delta_x = delta s.packet_0 0x10 s.packet_1;
  delta_y = negate (delta s.packet_0 0x20 s.packet_2);
}

-- the third byte: the packet is complete.
pub complete : Mouse → Option Event × Mouse
unfolding decode
complete s =
    let event = decode s in
    (if s.callback then some event else none, record s { buttons = event.buttons; cycle = 0 })

-- `mouse_interrupt_handler` with the byte that it reads: the event for the callback, if there is one.
pub interrupt_handler : ℕ → Mouse → Option Event × Mouse
unfolding complete
interrupt_handler mouse_data s =
    if s.cycle == 0
    then (none, record s { packet_0 = mouse_data; cycle = s.cycle + 1 })
    else if s.cycle == 1
    then (none, record s { packet_1 = mouse_data; cycle = s.cycle + 1 })
    else if s.cycle == 2
    then complete (record s { packet_2 = mouse_data })
    else (none, s)

pub get_button_state : ℕ → Mouse → Bool
get_button_state button s =
    if ltb 2 button then false else not (bit_and s.buttons (2 ^ button) == 0)
