-- ===== src/Kermit/Store.antt =====
-- Data packets of src/cli/load.c end to end: a sender's bytes reach RAM, also when a packet is sent
-- again.
use k210_guard_bootloader.Prelude.{
  ℕ, ◌+◌, ◌/◌, ◌%◌, ◌<◌, ◌≡◌, refl, ap, ap₂, ◌∙◌, true, false, ◌&&◌, inl, inr, some, List, [], ◌∷◌,
  ◌++◌, append_assoc, arith,
}
use k210_guard_bootloader.Prelude.Tests.{◌==◌, if◌then◌else◌, Bool-cases}
use k210_guard_bootloader.Prelude.Bits.{every_below, every_below-at}
use k210_guard_bootloader.Prelude.Lists.{length, replicate}
use k210_guard_bootloader.Prelude.Memory.{store}
use k210_guard_bootloader.Flash.Chip.{all_bytes}
use k210_guard_bootloader.Kermit.{
  Point, Data, Line, Receiver, s1_sendpacket, send_ack, ktrans, tochar, chk1, up_to_nul, total,
  check_of, packet_of,
}
use k210_guard_bootloader.Kermit.Packet.{same_number, checkpoint, read_packet}
use k210_guard_bootloader.Kermit.Decode.{quoted, encoded, data_chars, at, data_chars-encoded}
use k210_guard_bootloader.Kermit.Retry.{printable, with_data, data_packet, read_packet-takes}

quoted_table : every_below (λ b. printable (quoted 0x23 b)) 256 ≡ true
unfolding every_below quoted
quoted_table = refl

printable-append :
    (xs ys : List ℕ) → printable xs ≡ true → printable ys ≡ true → printable (xs ++ ys) ≡ true
printable-append [] ys h k = k
printable-append (x ∷ xs) ys h k = ground (arith, h, printable-append xs ys (ground (arith, h)) k)

printable-encoded : (bs : List ℕ) → all_bytes bs ≡ true → printable (encoded 0x23 bs) ≡ true
unfolding encoded
printable-encoded [] h = refl
printable-encoded (b ∷ bs) h =
    printable-append (quoted 0x23 b) (encoded 0x23 bs)
      (every_below-at _ 256 quoted_table b (ground (arith, h)))
      (printable-encoded bs (ground (arith, h)))

hash_literal : ktrans 0x23 ≡ 0x23
unfolding ktrans
hash_literal = refl

-- The point that a packet with the number `n` continues from.
abbrev pub start_of : ℕ → Receiver → Point
start_of n r = if same_number n r.last_n then r.saved else r.data_part.point

checkpoint-data :
    (n : ℕ) (r : Receiver)
    → ((checkpoint n r).data_part ≡ record { ram = r.data_part.ram; point = start_of n r })
      × ((checkpoint n r).line ≡ r.line)
      × ((checkpoint n r).sent ≡ r.sent)
      × ((checkpoint n r).n ≡ n)
unfolding checkpoint
checkpoint-data n r = elim (Bool-cases (same_number n r.last_n)) [
  | inl same ↦ rw same (refl, refl, refl, refl)
  | inr fresh ↦ rw fresh (refl, refl, refl, refl)
]

-- What a sender expects: padding, then SOH, the length 3, the number, the type 'Y', the check of
-- these three by the standard's formula, and the end of the line unless it is NUL.
abbrev pub acknowledgement : ℕ → Line → List ℕ
acknowledgement n line =
    let s = 0x23 + (n + 32) + 0x59 in
    replicate line.his_pad_count line.his_pad_char
    ++ (0x01
        ∷ 0x23
        ∷ (n + 32)
        ∷ 0x59
        ∷ ((s + s / 64 % 4) % 64 + 32)
        ∷ up_to_nul (line.his_eol ∷ []))

ack_table :
    every_below
      (λ n.
        let s = 0x23 + (n + 32) + 0x59 in
        (tochar n == n + 32)
        && (tochar (chk1 (tochar 3 ∷ tochar n ∷ 0x59 ∷ [])) == (s + s / 64 % 4) % 64 + 32))
      64
    ≡ true
unfolding every_below tochar chk1 up_to_nul total check_of
ack_table = refl

ack_characters :
    (n : ℕ)
    → n < 64
    → let s = 0x23 + (n + 32) + 0x59 in
      (tochar n ≡ n + 32)
      × (tochar (chk1 (tochar 3 ∷ tochar n ∷ 0x59 ∷ [])) ≡ (s + s / 64 % 4) % 64 + 32)
ack_characters n small = (ground (arith, row), ground (arith, row))
  where
    row :
        ((tochar n == n + 32)
          && (tochar (chk1 (tochar 3 ∷ tochar n ∷ 0x59 ∷ []))
              == (0x23 + (n + 32) + 0x59 + (0x23 + (n + 32) + 0x59) / 64 % 4) % 64 + 32))
        ≡ true
    row = every_below-at _ 64 ack_table n small

three : tochar 3 ≡ 0x23
unfolding tochar
three = refl

above : (c : ℕ) → 0 < c → (c == 0) ≡ false
above c h = ground (arith, h)

packet_of-ack :
    (n eol : ℕ)
    → n < 64
    → up_to_nul (packet_of 0x59 n [] eol)
      ≡ 0x01
        ∷ 0x23
        ∷ (n + 32)
        ∷ 0x59
        ∷ (let s = 0x23 + (n + 32) + 0x59 in (s + s / 64 % 4) % 64 + 32)
        ∷ up_to_nul (eol ∷ [])
unfolding packet_of up_to_nul
packet_of-ack n eol small =
    let s = 0x23 + (n + 32) + 0x59 in
    let (number, check) = ack_characters n small in
    rw
      (
        check,
        number,
        three,
        above (n + 32) (omega arith),
        above ((s + s / 64 % 4) % 64 + 32) (omega arith),
      )
      refl

-- Of a sender's data packet whose field fits in 91 characters: the bytes that it quotes with '#'
-- are stored in RAM from the address that the packet continues from on, which is the checkpoint
-- if the packet has the number of the last one and the current address otherwise, with no quote
-- pending there; and what is sent is the padding, and an acknowledgement with the packet's
-- number, its check and the end of the line that the sender has asked for.
pub read_packet-stores :
    (r : Receiver) (n : ℕ) (bs rest : List ℕ) (a : ℕ)
    → n < 64
    → length (encoded 0x23 bs) < 92
    → all_bytes bs ≡ true
    → r.line.his_quote ≡ 0x23
    → start_of n r ≡ record { k_data_escape = false; os_data_addr = a }
    → (t : Receiver) × (read_packet r (data_packet n (encoded 0x23 bs) rest)
        ≡ some (t, false, rest))
      × (t.data_part ≡ at (store r.data_part.ram a bs) (a + length bs))
      × (t.sent ≡ r.sent ++ acknowledgement n r.line)
unfolding send_ack s1_sendpacket
read_packet-stores r n bs rest a small short bytes quote start = (
  send_ack (with_data (encoded 0x23 bs) (record (checkpoint n r) { k_state = 0x44 })),
  read_packet-takes r n (encoded 0x23 bs) rest small short (printable-encoded bs bytes),
  ap₂ (λ (q : ℕ) (d : Data). data_chars q (encoded 0x23 bs) d)
        (ap (λ l. l.his_quote) (checkpoint-data n r).1 ∙ quote)
        ((checkpoint-data n r).0 ∙ ap (λ p. record { ram = r.data_part.ram; point = p }) start)
      ∙ data_chars-encoded 0x23 hash_literal bs r.data_part.ram a bytes,
  let (_, line, sent, number) = checkpoint-data n r in
      rw (line, sent, number)
        (append_assoc r.sent (replicate r.line.his_pad_count r.line.his_pad_char)
            (up_to_nul (packet_of 0x59 n [] r.line.his_eol))
          ∙ ap (λ p. r.sent ++ (replicate r.line.his_pad_count r.line.his_pad_char ++ p))
              (packet_of-ack n r.line.his_eol small)),
)
