-- ===== src/Spi/Tests.antt =====
-- The transfers on a simple controller. Its receive FIFO shows three bytes at most at a time; its
-- transmit FIFO fills up, stands still for a few polls, and then empties.
use k210_guard_bootloader.Prelude.{
  ℕ, ◌+◌, ◌-◌, ◌≤◌, ◌<◌, bit_and, ◌≡◌, ◌≢◌, inl, inr, refl, sym, ap, ◌∙◌, Bool, ◌&&◌, false, some,
  List, [], ◌∷◌, ◌++◌, arith,
}
use k210_guard_bootloader.Prelude.Tests.{◌==◌, ltb, if◌then◌else◌, Bool-cases}
use k210_guard_bootloader.Prelude.Lists.{length, take, drop, replicate, get_or, take_all}
use k210_guard_bootloader.Prelude.Memory.{span, length-span}
use k210_guard_bootloader.Spi.{
  SpiOps, SpiRegister, ctrlr0, ctrlr1, ssienr, ser, release, flash_receive_data, flash_send_data,
}
use k210_guard_bootloader.Spi.Laws.{mode_of, narrow, SpiLaws}
use k210_guard_bootloader.Spi.Receive.{flash_receive_data-returns}
use k210_guard_bootloader.Spi.Send.{flash_send_data-returns}

-- The registers, the bytes to come, those in the FIFO, the words written, those of them in the FIFO,
-- and the polls to stand still for.
record Controller : Type 0 where
  control : ℕ
  frames : ℕ
  enabled : ℕ
  selected : ℕ
  incoming : List ℕ
  ready : ℕ
  outgoing : List ℕ
  queued : ℕ
  stall : ℕ

abbrev held : SpiRegister → Controller → ℕ
held ctrlr0 s = s.control
held ctrlr1 s = s.frames
held ssienr s = s.enabled
held ser s = s.selected

-- The chip holds its addresses.
abbrev chip : List ℕ → ℕ → List ℕ
chip ws n = span (λ x. x) (get_or ws 3 0) n

abbrev set : SpiRegister → ℕ → Controller → Controller
set ctrlr0 v s = record s { control = v }
set ctrlr1 v s = record s { frames = v }
set ssienr v s = record s { enabled = v; outgoing = []; queued = 0 }
set ser v s = record s {
  selected = v;
  incoming = if mode_of 10 s.control == 3 then chip s.outgoing (s.frames + 1) else s.incoming;
}

abbrev next : List ℕ → ℕ
next [] = 0xff
next (b ∷ bs) = b

abbrev up_to : ℕ → ℕ → ℕ
up_to m n = if ltb n m then n else m

abbrev is_sending : Controller → Bool
is_sending s = (s.enabled == 1) && (s.selected == 1) && (mode_of 10 s.control == 1)

-- A poll gives one value while the controller stands still, and another when all is sent.
abbrev poll : ℕ → ℕ → Controller → ℕ × Controller
poll still done s =
    if is_sending s
    then (if s.stall == 0
        then (done, record s { queued = 0 })
        else (still, record s { stall = up_to 3 s.stall - 1 }))
    else (still, s)

abbrev ops : SpiOps
ops = record {
  Spi = Controller;
  write = set;
  push = λ w s. record s { outgoing = s.outgoing ++ (w ∷ []); queued = s.queued + 1 };
  pop = λ s. (next s.incoming, record s { incoming = drop 1 s.incoming; ready = s.ready - 1 });
  rxflr = λ s. (up_to 3 (length s.incoming), record s { ready = up_to 3 (length s.incoming) });
  txflr = λ s. poll (up_to 32 s.queued) 0 s;
  sr = λ s. poll 1 4 s;
}

other_held : (g h : SpiRegister) (v : ℕ) (s : Controller) → g ≢ h → held h (set g v s) ≡ held h s
other_held ctrlr0 ctrlr0 v s ne = absurd (ne refl)
other_held ctrlr1 ctrlr1 v s ne = absurd (ne refl)
other_held ssienr ssienr v s ne = absurd (ne refl)
other_held ser ser v s ne = absurd (ne refl)
other_held ctrlr0 ctrlr1 v s ne = refl
other_held ctrlr0 _ v s ne = refl
other_held ctrlr1 ctrlr0 v s ne = refl
other_held ctrlr1 _ v s ne = refl
other_held ssienr ctrlr0 v s ne = refl
other_held ssienr _ v s ne = refl
other_held ser ctrlr0 v s ne = refl
other_held ser _ v s ne = refl

push_held : (h : SpiRegister) (w : ℕ) (s : Controller) → held h (ops.push w s) ≡ held h s
push_held ctrlr0 w s = refl
push_held _ w s = refl

poll_held :
    (h : SpiRegister) (still done : ℕ) (s : Controller) → held h (poll still done s).1 ≡ held h s
poll_held ctrlr0 still done s = ground arith
poll_held ctrlr1 still done s = ground arith
poll_held ssienr still done s = ground arith
poll_held ser still done s = ground arith

poll_outgoing : (still done : ℕ) (s : Controller) → (poll still done s).1.outgoing ≡ s.outgoing
poll_outgoing still done s = ground arith

poll_patience :
    (still done : ℕ) (s : Controller) → up_to 3 (poll still done s).1.stall ≤ up_to 3 s.stall
poll_patience still done s = ground arith

-- A poll that does not find all sent comes nearer to the end of the standstill.
poll_progress :
    (still done : ℕ) (s : Controller)
    → s.enabled ≡ 1
    → s.selected ≡ 1
    → mode_of 10 s.control ≡ 1
    → (poll still done s).0 ≢ done
    → up_to 3 (poll still done s).1.stall < up_to 3 s.stall
poll_progress still done s on selected mode ne = ground (arith, on, selected, mode, ne)

receive :
    (s : Controller)
    → mode_of 10 s.control ≡ 3
    → (set ser 1 s).incoming ≡ chip s.outgoing (s.frames + 1)
receive s mode = ground (arith, mode)

drained :
    (s : Controller)
    → s.enabled ≡ 1
    → s.selected ≡ 1
    → mode_of 10 s.control ≡ 1
    → bit_and (poll 1 4 s).0 5 ≡ 4
    → (poll 1 4 s).1.queued ≡ 0
drained s on selected mode e = elim (Bool-cases (s.stall == 0)) [
  | inl over ↦ ground (arith, on, selected, mode, over)
  | inr stalled ↦ absurd (omega (arith, sym (ap (λ (x : ℕ). bit_and x 5) (still stalled)) ∙ e))
]
  where
    still : (s.stall == 0) ≡ false → (poll 1 4 s).0 ≡ 1
    still stalled = ground (arith, on, selected, mode, stalled)

laws : SpiLaws ops 0 10
laws = record {
  held = held;
  chip = λ s. chip;
  incoming = λ s. s.incoming;
  ready = λ s. s.ready;
  outgoing = λ s. s.outgoing;
  room = λ s. 32 - s.queued;
  shifted = λ s. take (length s.outgoing - s.queued) s.outgoing;
  patience = λ s. up_to 3 s.stall;
  longest = 3;
  patience-le = λ s. ground arith;
  ctrlr0-held = λ v s h k. refl;
  ctrlr1-held = λ v s h k. refl;
  ssienr-held = λ v s h. refl;
  ser-held = λ v s h. refl;
  other-held = other_held;
  push-held = push_held;
  txflr-held = λ h s. poll_held h _ 0 s;
  sr-held = λ h s. poll_held h 1 4 s;
  chip-write = λ g v s ne. refl;
  chip-push = λ w s off. refl;
  chip-length = λ s ws n. length-span (λ x. x) (get_or ws 3 0) n;
  enable = λ s h. (refl, omega arith);
  receive = λ s on off bits mode words. receive s mode;
  select = λ s on. refl;
  rxflr-incoming = λ s. refl;
  rxflr-ready = λ s. refl;
  rxflr-level = λ s. ground arith;
  rxflr-patience = λ s. omega arith;
  rxflr-progress = λ s h k. absurd (ground (arith, h, k));
  pop-byte = λ s b bs e h. (ap next e, ap (drop 1) e, omega arith, omega arith);
  push-word = λ s w on h. (refl, omega arith, omega arith);
  txflr-outgoing = λ s. poll_outgoing _ 0 s;
  txflr-level = λ s. ground arith;
  txflr-room = λ s. ground arith;
  txflr-patience = λ s. poll_patience _ 0 s;
  txflr-progress = λ s on selected mode h.
      poll_progress _ 0 s on selected mode (λ e. absurd (omega (arith, h, e)));
  sr-outgoing = λ s. poll_outgoing 1 4 s;
  sr-progress = λ s on selected mode ne.
      poll_progress 1 4 s on selected mode (λ e. ne (ap (λ (x : ℕ). bit_and x 5) e));
  sr-shifted =
      λ s on selected bits mode e. take_all _ _ (omega (arith, drained s on selected mode e));
}

abbrev off : Controller
off = record {
  control = 0;
  frames = 0;
  enabled = 0;
  selected = 0;
  incoming = [];
  ready = 0;
  outgoing = [];
  queued = 0;
  stall = 3;
}

flash_receive_data-returns_example :
    (t : Controller) × ((flash_receive_data ops 9 0 10 (0x90 ∷ 0 ∷ 0 ∷ 2 ∷ []) 5 off
        ≡ some (2 ∷ 3 ∷ 4 ∷ 5 ∷ 6 ∷ [], t))
      × (t.enabled ≡ 0)
      × (t.selected ≡ 0))
unfolding span laws
flash_receive_data-returns_example =
    flash_receive_data-returns ops 0 10 laws 9 (0x90 ∷ 0 ∷ 0 ∷ 2 ∷ []) 5 off narrow refl refl
      (omega arith) (omega arith) (omega arith) (omega arith) (omega arith)

-- 40 bytes, of which 28 fit behind the command
flash_send_data-returns_example :
    (t : Controller) × ((flash_send_data ops 44 0 10 (0x02 ∷ 0 ∷ 1 ∷ 0 ∷ []) (replicate 40 7) off
        ≡ some (release ops t))
      × (laws.shifted t ≡ 0x02 ∷ 0 ∷ 1 ∷ 0 ∷ replicate 40 7)
      × ((release ops t).enabled ≡ 0)
      × ((release ops t).selected ≡ 0))
unfolding laws
flash_send_data-returns_example =
    flash_send_data-returns ops 0 10 laws 44 (0x02 ∷ 0 ∷ 1 ∷ 0 ∷ []) (replicate 40 7) off narrow
      refl (omega arith) (omega arith)
