-- ===== src/Kermit/Retry.antt =====
-- Data packets in `k_recv` of src/cli/load.c: one that is accepted, and what an error after it does.
use k210_guard_bootloader.Prelude.{
  ℕ, ◌+◌, ◌-◌, ◌/◌, ◌^◌, ◌<◌, bit_and, ◌≡◌, refl, ap, ◌∙◌, Bool, true, false, not, ◌&&◌, some, List,
  [], ◌∷◌, ◌++◌, arith,
}
use k210_guard_bootloader.Prelude.Tests.{◌==◌}
use k210_guard_bootloader.Prelude.Bits.{every_below, every_below-at, bit_and_mask}
use k210_guard_bootloader.Prelude.Lists.{length}
use k210_guard_bootloader.Kermit.{
  tochar, untochar, check_of, total, Receiver, s1_sendpacket, send_ack, send_nack,
}
use k210_guard_bootloader.Kermit.Packet.{
  Outcome, next, packet_error, same_number, checkpoint, field_char, answered, read_end, read_field,
  read_packet,
}
use k210_guard_bootloader.Kermit.Decode.{data_chars}

-- No character below SPACE, as `k_recv` tests it.
abbrev pub printable : List ℕ → Bool
printable [] = true
printable (c ∷ cs) = not (bit_and c 0xe0 == 0) && printable cs

check_table : every_below (λ x. not (bit_and (tochar x) 0xe0 == 0)) 64 ≡ true
unfolding every_below tochar
check_table = refl

check_of-lt : (sum : ℕ) → check_of sum < 64
unfolding check_of
check_of-lt sum = ground (arith, bit_and_mask 6 (sum + bit_and (sum / 2 ^ 6) 0x03))

check_printable : (sum : ℕ) → (bit_and (tochar (check_of sum)) 0xe0 == 0) ≡ false
check_printable sum =
    ground (arith, every_below-at _ 64 check_table (check_of sum) (check_of-lt sum))

equal_self : (n : ℕ) → (n == n) ≡ true
equal_self n = ground arith

next-good :
    (c : ℕ) (cs : List ℕ) (bad : List ℕ → Outcome) (good : ℕ → List ℕ → Outcome)
    → (bit_and c 0xe0 == 0) ≡ false
    → next (c ∷ cs) bad good ≡ good c cs
unfolding next
next-good c cs bad good h = rw h refl

-- What the data of a packet makes of the receiver.
abbrev pub with_data : List ℕ → Receiver → Receiver
with_data cs r = record r { data_part = data_chars r.line.his_quote cs r.data_part }

is_data : (r : Receiver) → r.k_state ≡ 0x44 → (r.k_state == 0x44) ≡ true
is_data r e = ground (arith, e)

field_char-data : (c : ℕ) (r : Receiver) → r.k_state ≡ 0x44 → field_char c r ≡ with_data (c ∷ []) r
unfolding field_char data_chars
field_char-data c r e = rw (is_data r e) refl

with_data-cons :
    (c : ℕ) (cs : List ℕ) (r : Receiver)
    → with_data cs (with_data (c ∷ []) r) ≡ with_data (c ∷ cs) r
unfolding data_chars
with_data-cons c cs r = refl

-- The end of a packet that is right: the check, END_CHAR, and what follows.
abbrev pub ending : ℕ → List ℕ → List ℕ
ending sum rest = tochar (check_of sum) ∷ 0x0d ∷ rest

checked :
    (sum : ℕ) (r : Receiver) (rest : List ℕ)
    → read_field 0 sum r (ending sum rest) ≡ answered (with_data [] r) rest
unfolding read_field read_end data_chars
checked sum r rest =
    next-good (tochar (check_of sum)) (0x0d ∷ rest) _ _ (check_printable sum)
    ∙ rw (equal_self (tochar (check_of sum))) refl

read_field-good :
    (cs : List ℕ) (sum : ℕ) (r : Receiver) (rest : List ℕ)
    → printable cs ≡ true
    → r.k_state ≡ 0x44
    → read_field (length cs) sum r (cs ++ ending (sum + total cs) rest)
      ≡ answered (with_data cs r) rest
unfolding read_field total
read_field-good [] sum r rest h e =
    ap (λ (x : ℕ). read_field 0 sum r (ending x rest)) (omega arith) ∙ checked sum r rest
read_field-good (c ∷ cs) sum r rest h e =
    next-good c _ _ _ (ground (arith, h))
    ∙ ap (λ (x : ℕ). read_field (length cs) (sum + c) (field_char c r) (cs ++ ending x rest))
        (omega arith)
    ∙ read_field-good cs (sum + c) (field_char c r) rest (ground (arith, h))
        (ap (λ t. t.k_state) (field_char-data c r e) ∙ e)
    ∙ ap (λ t. answered t rest) (ap (with_data cs) (field_char-data c r e) ∙ with_data-cons c cs r)

-- A sender's data packet with the number `n`, and what follows it.
abbrev pub data_packet : ℕ → List ℕ → List ℕ → List ℕ
data_packet n cs rest =
    let length_char = tochar (length cs + 3) in
    length_char ∷ tochar n ∷ 0x44 ∷ (cs ++ ending (length_char + tochar n + 0x44 + total cs) rest)

-- The receiver at the data field of a new packet.
abbrev pub opened : ℕ → Receiver → Receiver
opened n r = record r {
  n = n;
  last_n = some n;
  k_state = 0x44;
  k_state_saved = r.k_state;
  saved = r.data_part.point;
}

char_table :
    every_below (λ x. not (bit_and (tochar x) 0xe0 == 0) && (untochar (tochar x) == x)) 95 ≡ true
unfolding every_below tochar untochar
char_table = refl

tochar_printable : (x : ℕ) → x < 95 → (bit_and (tochar x) 0xe0 == 0) ≡ false
tochar_printable x h = ground (arith, every_below-at _ 95 char_table x h)

untochar-tochar : (x : ℕ) → x < 95 → untochar (tochar x) ≡ x
untochar-tochar x h = ground (arith, every_below-at _ 95 char_table x h)

answered-data :
    (r : Receiver) (rest : List ℕ)
    → r.k_state ≡ 0x44
    → answered r rest ≡ some (send_ack r, false, rest)
unfolding answered
answered-data r rest e = rw e refl

not_zero : (x : ℕ) → (x + 3 == 0) ≡ false
not_zero x = ground arith

back : (x : ℕ) → x + 3 - 3 ≡ x
back x = omega arith

-- A data packet that is right is acknowledged, and its data taken from the checkpoint on.
pub read_packet-takes :
    (r : Receiver) (n : ℕ) (cs rest : List ℕ)
    → n < 64
    → length cs < 92
    → printable cs ≡ true
    → read_packet r (data_packet n cs rest)
      ≡ some (send_ack (with_data cs (record (checkpoint n r) { k_state = 0x44 })), false, rest)
unfolding read_packet
read_packet-takes r n cs rest small short chars =
    next-good (tochar (length cs + 3)) _ _ _ (tochar_printable (length cs + 3) (omega arith))
    ∙ next-good (tochar n) _ _ _ (tochar_printable n (omega arith))
    ∙ next-good 0x44 _ _ _ refl
    ∙ rw
        (
          untochar-tochar n (omega arith),
          untochar-tochar (length cs + 3) (omega arith),
          not_zero (length cs),
          back (length cs),
        )
        (read_field-good cs _ (record (checkpoint n r) { k_state = 0x44 }) rest chars refl
          ∙ answered-data (with_data cs (record (checkpoint n r) { k_state = 0x44 })) rest refl)

checkpoint-opened :
    (n : ℕ) (r : Receiver)
    → same_number n r.last_n ≡ false
    → record (checkpoint n r) { k_state = 0x44 } ≡ opened n r
unfolding checkpoint
checkpoint-opened n r fresh = rw fresh refl

read_packet-accepts :
    (r : Receiver) (n : ℕ) (cs rest : List ℕ)
    → n < 64
    → length cs < 92
    → printable cs ≡ true
    → same_number n r.last_n ≡ false
    → read_packet r (data_packet n cs rest)
      ≡ some (send_ack (with_data cs (opened n r)), false, rest)
read_packet-accepts r n cs rest small short chars fresh =
    read_packet-takes r n cs rest small short chars
    ∙ ap (λ t. some (send_ack (with_data cs t), false, rest)) (checkpoint-opened n r fresh)

-- The receiver after `packet_error`.
abbrev refused : Receiver → Receiver
refused t = send_nack (record t {
  k_state = t.k_state_saved;
  data_part = record { ram = t.data_part.ram; point = t.saved };
})

-- After a data packet with a new number, which is acknowledged, a packet that starts with a
-- character below SPACE takes the receiver back to the point before the acknowledged packet,
-- whose number stays the last one.
pub read_packet-rewinds :
    (r : Receiver) (n : ℕ) (cs rest : List ℕ) (c : ℕ) (more : List ℕ)
    → n < 64
    → length cs < 92
    → printable cs ≡ true
    → same_number n r.last_n ≡ false
    → (bit_and c 0xe0 == 0) ≡ true
    → (t : Receiver) × (u : Receiver) × (read_packet r (data_packet n cs rest)
        ≡ some (t, false, rest))
      × (t.sent ≡ (send_ack (opened n r)).sent)
      × (read_packet t (c ∷ more) ≡ some (u, false, more))
      × (u.last_n ≡ some n)
      × (u.data_part.point ≡ r.data_part.point)
unfolding send_ack send_nack s1_sendpacket read_packet next packet_error
read_packet-rewinds r n cs rest c more small short chars fresh low = (
  send_ack (with_data cs (opened n r)),
  refused (send_ack (with_data cs (opened n r))),
  read_packet-accepts r n cs rest small short chars fresh,
  refl,
  rw low refl,
  refl,
  refl,
)
