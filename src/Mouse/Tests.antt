-- ===== src/Mouse/Tests.antt =====
-- A mouse at the start of a packet, with a callback.
use kronosos.Base.{refl, true, List, [], ◌∷◌, arith}
use kronosos.Mouse.{Mouse}
use kronosos.Mouse.Packets.{Packet, feed, Fed, feed-Fed}

abbrev idle : Mouse
idle = record { packet_0 = 0; packet_1 = 0; packet_2 = 0; cycle = 0; buttons = 0; callback = true }

abbrev drag : List Packet
drag = record { status = 0x29; x = 3; y = 254 } ∷ record { status = 0x0c; x = 0; y = 1 } ∷ []

feed-Fed_example : Fed idle drag (feed (0x29 ∷ 3 ∷ 254 ∷ 0x0c ∷ 0 ∷ 1 ∷ []) idle)
feed-Fed_example =
    feed-Fed drag idle
      (omega arith, omega arith, omega arith, (omega arith, omega arith, omega arith, tt)) refl refl
