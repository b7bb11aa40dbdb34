-- ===== src/Kermit/Tests.antt =====
-- Data packets at the start of a transmission.
use k210_guard_bootloader.Prelude.{ℕ, ◌≡◌, refl, false, some, List, [], ◌∷◌, arith}
use k210_guard_bootloader.Prelude.Memory.{Memory, store}
use k210_guard_bootloader.Kermit.{Receiver, send_ack, up_to_nul}
use k210_guard_bootloader.Kermit.Packet.{begin, read_packet, same_number}
use k210_guard_bootloader.Kermit.Decode.{encoded, quoted, at}
use k210_guard_bootloader.Kermit.Retry.{data_packet, opened, read_packet-rewinds}
use k210_guard_bootloader.Kermit.Store.{read_packet-stores}

abbrev blank : Memory
blank x = 0xff

abbrev waiting : Receiver
waiting = begin 100 blank []

abbrev bytes : List ℕ
bytes = 0 ∷ 35 ∷ 65 ∷ 255 ∷ []

read_packet-stores_example :
    (t : Receiver) × (read_packet waiting (data_packet 2 (encoded 0x23 bytes) (1 ∷ []))
      ≡ some (t, false, 1 ∷ []))
    × (t.data_part ≡ at (store blank 100 bytes) 104)
    × (t.sent ≡ 0x01 ∷ 0x23 ∷ 0x22 ∷ 0x59 ∷ 0x40 ∷ 0x0d ∷ [])
unfolding begin same_number encoded quoted up_to_nul
read_packet-stores_example =
    read_packet-stores waiting 2 bytes (1 ∷ []) 100 (omega arith) (omega arith) refl refl refl

read_packet-rewinds_example :
    (t : Receiver) × (u : Receiver) × (read_packet waiting (data_packet 2 (65 ∷ 66 ∷ []) [])
      ≡ some (t, false, []))
    × (t.sent ≡ (send_ack (opened 2 waiting)).sent)
    × (read_packet t (7 ∷ []) ≡ some (u, false, []))
    × (u.last_n ≡ some 2)
    × (u.data_part.point ≡ waiting.data_part.point)
unfolding begin same_number
read_packet-rewinds_example =
    read_packet-rewinds waiting 2 (65 ∷ 66 ∷ []) [] 7 [] (omega arith) (omega arith) refl refl refl
