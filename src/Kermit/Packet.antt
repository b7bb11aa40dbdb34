-- ===== src/Kermit/Packet.antt =====
-- `k_recv` of src/cli/load.c: one packet, and the loop over packets. The line is the list of the
-- characters to come; `none` stands for a wait for more.
use k210_guard_bootloader.Prelude.{
  ℕ, zero, suc, ◌+◌, ◌-◌, ◌*◌, bit_and, Bool, true, false, Option, none, some, List, [], ◌∷◌, ◌++◌,
}
use mathlib.Core.Option.{map as option_map}
use k210_guard_bootloader.Prelude.Tests.{◌==◌, ltb, if◌then◌else◌}
use k210_guard_bootloader.Prelude.Lists.{length}
use k210_guard_bootloader.Prelude.Memory.{Memory}
use k210_guard_bootloader.Kermit.{
  tochar, untochar, check_of, k_data_char, Receiver, default_line, send_ack, send_nack,
  handle_send_packet,
}

-- The state after a packet, whether the transmission is over, and the characters left.
abbrev pub Outcome : Type 0
Outcome = Option (Receiver × Bool × List ℕ)

-- `uart_getc`, and the test for a character below SPACE.
unfoldable pub next : List ℕ → (List ℕ → Outcome) → (ℕ → List ℕ → Outcome) → Outcome
next [] bad good = none
next (c ∷ cs) bad good = if bit_and c 0xe0 == 0 then bad cs else good c cs

-- `packet_error`
unfoldable pub packet_error : Receiver → List ℕ → Outcome
packet_error r cs = some (
  send_nack (record r {
    k_state = r.k_state_saved;
    data_part = record { ram = r.data_part.ram; point = r.saved };
  }),
  false,
  cs,
)

-- The comparison of sequence numbers: the previous state for the same one, a checkpoint for another.
unfoldable pub same_number : ℕ → Option ℕ → Bool
same_number n none = false
same_number n (some m) = n == m

unfoldable pub checkpoint : ℕ → Receiver → Receiver
checkpoint n r =
    if same_number n r.last_n
    then record r {
      n = n;
      k_state = r.k_state_saved;
      data_part = record { ram = r.data_part.ram; point = r.saved };
    }
    else record r { n = n; last_n = some n; k_state_saved = r.k_state; saved = r.data_part.point }

-- One character of the data field.
unfoldable pub field_char : ℕ → Receiver → Receiver
field_char c r =
    if r.k_state == 0x44
    then record r { data_part = k_data_char r.line.his_quote c r.data_part }
    else if r.k_state == 0x53
    then if ltb (length r.send_parms) 19
      then record r { send_parms = r.send_parms ++ (c ∷ []) }
      else r
    else r

-- The answer to a whole packet.
unfoldable pub answered : Receiver → List ℕ → Outcome
answered r cs =
    if r.k_state == 0x53
    then some (handle_send_packet r, false, cs)
    else some (send_ack r, r.k_state == 0x42, cs)

-- The end of the packet: the character END_CHAR.
unfoldable pub read_end : Receiver → List ℕ → Outcome
read_end r [] = none
read_end r (c ∷ cs) = if c == 0x0d then answered r cs else packet_error r cs

-- From the data field on: `left` characters of it, and `sum` so far.
unfoldable pub read_field : ℕ → ℕ → Receiver → List ℕ → Outcome
read_field zero sum r cs =
    next cs (packet_error r)
      λ c ds. if c == tochar (check_of sum) then read_end r ds else packet_error r ds
read_field (suc left) sum r cs =
    next cs (packet_error r) λ c ds. read_field left (sum + c) (field_char c r) ds

-- The extended header: two characters of length, and a check of their own.
unfoldable pub read_extended : ℕ → Receiver → List ℕ → Outcome
read_extended sum r cs = next cs (packet_error r) λ hi ds. next ds (packet_error r) λ lo es.
    next es (packet_error r) λ c fs.
      let sum' = sum + hi + lo in
      if c == tochar (check_of sum')
      then read_field (untochar hi * 95 + untochar lo - 1) (sum' + c) r fs
      else packet_error r fs

-- A packet behind its START_CHAR. A length of 1, which would be -1 behind the type, is one without
-- a data field, like 2 and 3.
unfoldable pub read_packet : Receiver → List ℕ → Outcome
read_packet r cs = next cs (packet_error r) λ length_char ds. next ds (packet_error r) λ number es.
    let t = checkpoint (untochar number) r in
    next es (packet_error t) λ type fs.
      let u = record t { k_state = type } in
      let sum = length_char + number + type in
      if untochar length_char == 0
      then read_extended sum u fs
      else read_field (untochar length_char - 3) sum u fs

-- The wait for START_CHAR or ETX_CHAR.
unfoldable pub await_start : List ℕ → Option (Bool × List ℕ)
await_start [] = none
await_start (c ∷ cs) =
    let rest = await_start cs in
    if c == 0x01 then some (true, cs) else if c == 0x03 then some (false, cs) else rest

-- What the loop does after a packet, and after the wait: `again` is the loop.
unfoldable pub after_packet :
    (Receiver → List ℕ → Option (Bool × Receiver)) → Outcome → Option (Bool × Receiver)
after_packet again none = none
after_packet again (some (r, done, cs)) = if done then some (false, r) else again r cs

unfoldable pub after_start :
    (Receiver → List ℕ → Option (Bool × Receiver))
    → Receiver
    → Option (Bool × List ℕ)
    → Option (Bool × Receiver)
after_start again r none = none
after_start again r (some (false, cs)) = some (true, r)
after_start again r (some (true, cs)) =
    after_packet again (read_packet (record r { send_parms = [] }) cs)

-- The loop of `k_recv`, on fuel for the packets: whether ^C ended it, and the state.
unfoldable pub receive_loop : ℕ → Receiver → List ℕ → Option (Bool × Receiver)
receive_loop zero r cs = none
receive_loop (suc fuel) r cs = after_start (receive_loop fuel) r (await_start cs)

-- The state at the start of `k_recv`; `n` has a value to avoid a warning.
unfoldable pub begin : ℕ → Memory → List ℕ → Receiver
begin bin_start_address ram sent = record {
  line = default_line;
  data_part = record {
    ram = ram;
    point = record { k_data_escape = false; os_data_addr = bin_start_address };
  };
  saved = record { k_data_escape = false; os_data_addr = bin_start_address };
  k_state = 0;
  k_state_saved = 0;
  n = 0;
  last_n = none;
  send_parms = [];
  sent = sent;
}

-- `k_recv`: the number of bytes, and RAM.
unfoldable pub size_of : ℕ → Bool × Receiver → ℕ × Memory
size_of bin_start_address (interrupted, r) =
    (if interrupted then 0 else r.data_part.point.os_data_addr - bin_start_address, r.data_part.ram)

unfoldable pub k_recv : ℕ → ℕ → Memory → List ℕ → Option (ℕ × Memory)
k_recv fuel bin_start_address ram cs =
    option_map (size_of bin_start_address) (receive_loop fuel (begin bin_start_address ram []) cs)
