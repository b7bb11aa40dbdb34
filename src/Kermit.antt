-- ===== src/Kermit.antt =====
-- The kermit receiver of src/cli/load.c. `char` has no sign on this processor. `os_data_state` is 0
-- throughout, and is left out.
pub mod Packet
pub mod Decode
pub mod Retry
pub mod Store
pub mod Tests
use k210_guard_bootloader.Prelude.{
  ℕ, zero, suc, ◌+◌, ◌-◌, ◌*◌, ◌/◌, ◌%◌, ◌^◌, bit_and, bit_or, Bool, true, false, ◌&&◌, Option,
  none, some, List, [], ◌∷◌, ◌++◌,
}
use k210_guard_bootloader.Prelude.Tests.{◌==◌, ltb, if◌then◌else◌}
use k210_guard_bootloader.Prelude.Lists.{length, get_or, take, replicate}
use k210_guard_bootloader.Prelude.Words.{u8}
use k210_guard_bootloader.Prelude.Memory.{Memory, store}

-- `tochar`, `untochar`
unfoldable pub tochar : ℕ → ℕ
tochar x = u8 (x + 0x20)

unfoldable pub untochar : ℕ → ℕ
untochar x = u8 (x + 2 ^ 8 - 0x20)

-- `ktrans`
unfoldable pub ktrans : ℕ → ℕ
ktrans c =
    if bit_and c 0x60 == 0x40
    then bit_and c (0xff - 0x40)
    else if bit_and c 0x7f == 0x3f
    then bit_or c 0x40
    else c

-- The check of a sum of characters.
unfoldable pub check_of : ℕ → ℕ
check_of sum = bit_and (sum + bit_and (sum / 2 ^ 6) 0x03) 0x3f

-- A string up to its first NUL.
unfoldable pub up_to_nul : List ℕ → List ℕ
up_to_nul [] = []
up_to_nul (c ∷ cs) = let rest = up_to_nul cs in if c == 0 then [] else c ∷ rest

unfoldable pub total : List ℕ → ℕ
total [] = 0
total (c ∷ cs) = c + total cs

-- `chk1`
unfoldable pub chk1 : List ℕ → ℕ
chk1 buffer = check_of (total (up_to_nul buffer))

-- `his_eol`, `his_pad_count`, `his_pad_char`, `his_quote`
pub record Line : Type 0 where
  pub his_eol : ℕ
  pub his_pad_count : ℕ
  pub his_pad_char : ℕ
  pub his_quote : ℕ

abbrev pub default_line : Line
default_line = record { his_eol = 0x0d; his_pad_count = 0; his_pad_char = 0; his_quote = 0x23 }

-- `k_data_escape` and `os_data_addr`, which are saved and restored.
pub record Point : Type 0 where
  pub k_data_escape : Bool
  pub os_data_addr : ℕ

-- RAM, what of it is written next, and the parameters of the line.
pub record Data : Type 0 where
  pub ram : Memory
  pub point : Point

-- `bin_data_char`
unfoldable pub bin_data_char : ℕ → Data → Data
bin_data_char c d = record {
  ram = store d.ram d.point.os_data_addr (c ∷ []);
  point = record { k_data_escape = d.point.k_data_escape; os_data_addr = d.point.os_data_addr + 1 };
}

-- `k_data_escape = escape`
unfoldable pub with_escape : Bool → Data → Data
with_escape escape d = record {
  ram = d.ram;
  point = record { k_data_escape = escape; os_data_addr = d.point.os_data_addr };
}

-- `k_data_char`
unfoldable pub k_data_char : ℕ → ℕ → Data → Data
k_data_char quote c d =
    if d.point.k_data_escape
    then with_escape false (bin_data_char (ktrans c) d)
    else if c == quote
    then with_escape true d
    else bin_data_char c d

-- The state of `k_recv`: `saved` is what `k_data_save` keeps, `last_n` is none for -1, `send_parms`
-- the characters before `send_ptr`, and `sent` what went out on the line.
pub record Receiver : Type 0 where
  pub line : Line
  pub data_part : Data
  pub saved : Point
  pub k_state : ℕ
  pub k_state_saved : ℕ
  pub n : ℕ
  pub last_n : Option ℕ
  pub send_parms : List ℕ
  pub sent : List ℕ

-- `s1_sendpacket`, after `send_pad`
unfoldable pub s1_sendpacket : List ℕ → Receiver → Receiver
s1_sendpacket packet r = record r {
  sent = r.sent ++ replicate r.line.his_pad_count r.line.his_pad_char ++ up_to_nul packet;
}

-- A packet from this side: type, sequence number, data.
unfoldable pub packet_of : ℕ → ℕ → List ℕ → ℕ → List ℕ
packet_of type n fields eol =
    let body = tochar (3 + length fields) ∷ tochar n ∷ type ∷ fields in
    0x01 ∷ body ++ (tochar (chk1 body) ∷ eol ∷ [])

-- `send_ack`, `send_nack`
unfoldable pub send_ack : Receiver → Receiver
send_ack r = s1_sendpacket (packet_of 0x59 r.n [] r.line.his_eol) r

unfoldable pub send_nack : Receiver → Receiver
send_nack r = s1_sendpacket (packet_of 0x4e r.n [] r.line.his_eol) r

-- The number of characters that `handle_send_packet` looks at.
unfoldable pub parameters : Receiver → ℕ
parameters r = if length r.send_parms == 19 then 18 else length r.send_parms

-- `handle_send_packet`: the fields of the answer, and the parameters of the other side.
unfoldable pub answer : ℕ → List ℕ
answer bytes =
    take bytes
      (tochar 94 ∷ tochar 1 ∷ tochar 0 ∷ 0x40 ∷ tochar 0x0d ∷ 0x23 ∷ 0x4e ∷ 0x31 ∷ 0x4e ∷ [])
    ++ (if ltb 9 bytes then tochar 2 ∷ tochar 0 ∷ tochar 94 ∷ tochar 94 ∷ [] else [])

unfoldable pub learned : ℕ → List ℕ → Line
learned bytes parms = record {
  his_eol = if ltb 4 bytes then untochar (get_or parms 4 0) else 0x0d;
  his_pad_count = if ltb 2 bytes then untochar (get_or parms 2 0) else 0;
  his_pad_char = if ltb 3 bytes then ktrans (get_or parms 3 0) else 0;
  his_quote = if ltb 5 bytes then get_or parms 5 0 else 0x23;
}

unfoldable pub handle_send_packet : Receiver → Receiver
handle_send_packet r =
    let bytes = parameters r in
    let line = learned bytes r.send_parms in
    s1_sendpacket (packet_of 0x59 r.n (answer bytes) line.his_eol) (record r { line = line })
