-- ===== src/Spi/Receive.antt =====
-- `flash_receive_data` of src/drivers/flash.c returns, with the bytes in their order, in whatever
-- portions the FIFO delivers them.
use k210_guard_bootloader.Prelude.{
  ℕ, zero, suc, ◌+◌, ◌-◌, ◌^◌, ◌≤◌, ◌<◌, ◌≡◌, refl, ap, ap₂, ◌∙◌, inl, inr, true, false, some, List,
  [], ◌∷◌, arith,
}
use k210_guard_bootloader.Prelude.Tests.{◌==◌, Bool-cases}
use k210_guard_bootloader.Prelude.Lists.{length, take, drop, length-drop, take-append-drop}
use k210_guard_bootloader.Spi.{
  SpiOps, ctrlr0, ctrlr1, ssienr, ser, smaller, pop_all, receive_loop, release, receive_start,
  flash_receive_data_enhanced, flash_receive_data,
}
use k210_guard_bootloader.Spi.Laws.{frame_bits, mode_of, IsPort, SpiLaws}
use k210_guard_bootloader.Spi.Start.{
  control, control-receive, push_all-held, push_all-chip, loaded, loaded-enabled, loaded-held,
  loaded-outgoing, release-held,
}
use k210_guard_bootloader.Prelude.Words.{u32}

pub smaller_left : (a b : ℕ) → smaller a b ≤ a
unfolding smaller
smaller_left a b = ground arith

pub smaller_right : (a b : ℕ) → smaller a b ≤ b
unfolding smaller
smaller_right a b = ground arith

pub smaller_zero : (a b : ℕ) → 0 < b → smaller a b ≡ 0 → a ≡ 0
unfolding smaller
smaller_zero a b h e = ground (arith, h, e)

pub equal : (n : ℕ) → (n == 0) ≡ true → n ≡ 0
equal n h = ground (arith, h)

pub unequal : (n : ℕ) → (n == 0) ≡ false → 0 < n
unequal n h = ground (arith, h)

none_left : (bs : List ℕ) → length bs ≡ 0 → [] ≡ bs
none_left [] h = refl
none_left (b ∷ bs) h = absurd (omega (arith, h))

module _ (o : SpiOps) (dfs tmod : ℕ) (laws : SpiLaws o dfs tmod) where
  open o use {Spi, write, pop, rxflr}
  open laws use {held, chip, incoming, ready, outgoing, patience, longest}

  -- What a loop of `n` reads of `dr[0]` gets out of the FIFO.
  pop_all-bytes :
      (n : ℕ) (s : Spi) (xs : List ℕ)
      → incoming s ≡ xs
      → n ≤ ready s
      → n ≤ length xs
      → ((pop_all o n s).0 ≡ take n xs)
        × (incoming (pop_all o n s).1 ≡ drop n xs)
        × (patience (pop_all o n s).1 ≤ patience s)
  unfolding pop_all
  pop_all-bytes zero s xs e h k = (refl, e, omega arith)
  pop_all-bytes (suc n) s [] e h k = absurd (omega (arith, k))
  pop_all-bytes (suc n) s (x ∷ xs) e h k =
      let (byte, rest, level, time) = laws.pop-byte s x xs e (omega (arith, h)) in
      let (bytes, left, later) =
        pop_all-bytes n (pop s).1 xs rest (omega (arith, h, level)) (omega (arith, k)) in
      (ap₂ ◌∷◌ byte bytes, left, omega (arith, time, later))

  -- One round of the loop from a state with `xs` still to come: what is popped and what is left.
  module _ (rx_len : ℕ) (s : Spi) (xs : List ℕ) (e : incoming s ≡ xs) (size : length xs ≡ rx_len)
      (some_left : 0 < rx_len) where
    abbrev n : ℕ
    n = smaller (rxflr s).0 rx_len

    abbrev u : Spi
    u = (pop_all o n (rxflr s).1).1

    popped :
        ((pop_all o n (rxflr s).1).0 ≡ take n xs)
        × (incoming u ≡ drop n xs)
        × (patience u ≤ patience (rxflr s).1)
    popped =
        pop_all-bytes n (rxflr s).1 xs (laws.rxflr-incoming s ∙ e)
          (omega (arith, smaller_left (rxflr s).0 rx_len, laws.rxflr-ready s))
          (omega (arith, smaller_right (rxflr s).0 rx_len, size))

    sooner : patience u + (rx_len - n) < patience s + rx_len
    sooner = elim (Bool-cases (n == 0)) [
      | inl stuck ↦ omega (
        arith,
        popped.2,
        laws.rxflr-progress s (smaller_zero (rxflr s).0 rx_len some_left (equal n stuck))
            (omega (arith, ap length e, size, some_left)),
      )
      | inr moved ↦ omega (arith, popped.2, laws.rxflr-patience s, unequal n moved, some_left)
    ]

  receive_loop-bytes :
      (fuel rx_len : ℕ) (s : Spi) (xs : List ℕ)
      → incoming s ≡ xs
      → length xs ≡ rx_len
      → patience s + rx_len < fuel
      → (t : Spi) × (receive_loop o fuel rx_len s ≡ some (xs, t))
  unfolding receive_loop
  receive_loop-bytes zero rx_len s xs e size enough = absurd (omega (arith, enough))
  receive_loop-bytes (suc fuel) rx_len s xs e size enough = elim (Bool-cases (rx_len == 0)) [
    | inl done ↦
        rw done (s, ap (λ bs. some (bs, s)) (none_left xs (omega (arith, equal rx_len done, size))))
    | inr more ↦ rw more (
        let some_left = unequal rx_len more in
        let (bytes, left, later) = popped rx_len s xs e size some_left in
        let (t, again) =
          receive_loop-bytes fuel (rx_len - n rx_len s xs e size some_left)
            (u rx_len s xs e size some_left) (drop (n rx_len s xs e size some_left) xs) left
            (omega (arith, size, length-drop (n rx_len s xs e size some_left) xs))
            (omega (arith, sooner rx_len s xs e size some_left, enough)) in
        (
          t,
          rw (again, bytes)
              (ap (λ bs. some (bs, t)) (take-append-drop (n rx_len s xs e size some_left) xs)),
        ))
  ]

  -- The chip selected by a controller in mode 3, with a command loaded.
  module _ (cmd : List ℕ) (n : ℕ) (s : Spi) (disabled : held ssienr s ≡ 0) (off : held ser s ≡ 0)
      (short : length cmd ≤ 32) (some_words : 0 < length cmd) (some_bytes : 0 < n)
      (few : n ≤ 65536) where
    abbrev asked : Spi
    asked = write ctrlr1 (u32 (n + 2 ^ 32 - 1)) s

    asked-disabled : held ssienr asked ≡ 0
    asked-disabled =
        laws.other-held ctrlr1 ssienr (u32 (n + 2 ^ 32 - 1)) s (λ e. absurd (cc e)) ∙ disabled

    abbrev ready_to_go : Spi
    ready_to_go = loaded o dfs tmod laws cmd asked asked-disabled short

    frames : held ctrlr1 ready_to_go + 1 ≡ n
    frames = omega (
      arith,
      loaded-held o dfs tmod laws cmd asked asked-disabled short ctrlr1 (λ e. absurd (cc e)),
      laws.ctrlr1-held (u32 (n + 2 ^ 32 - 1)) s disabled (omega (arith, few, some_bytes)),
      few,
      some_bytes,
    )

    chip_off : held ser (write ssienr 0x01 asked) ≡ 0
    chip_off =
        laws.other-held ssienr ser 0x01 asked (λ e. absurd (cc e))
        ∙ laws.other-held ctrlr1 ser (u32 (n + 2 ^ 32 - 1)) s (λ e. absurd (cc e))
        ∙ off

    same_chip : chip ready_to_go ≡ chip s
    same_chip =
        push_all-chip o dfs tmod laws cmd (write ssienr 0x01 asked) chip_off
        ∙ laws.chip-write ssienr 0x01 asked (λ e. absurd (cc e))
        ∙ laws.chip-write ctrlr1 (u32 (n + 2 ^ 32 - 1)) s (λ e. absurd (cc e))

    same_control : held ctrlr0 ready_to_go ≡ held ctrlr0 s
    same_control =
        loaded-held o dfs tmod laws cmd asked asked-disabled short ctrlr0 (λ e. absurd (cc e))
        ∙ laws.other-held ctrlr1 ctrlr0 (u32 (n + 2 ^ 32 - 1)) s (λ e. absurd (cc e))

    words : outgoing ready_to_go ≡ cmd
    words = loaded-outgoing o dfs tmod laws cmd asked asked-disabled short

    receive_start-incoming :
        frame_bits dfs (held ctrlr0 s) ≡ 7
        → mode_of tmod (held ctrlr0 s) ≡ 3
        → incoming (receive_start o cmd n s) ≡ chip s cmd n
    unfolding receive_start
    receive_start-incoming bits mode =
        laws.receive ready_to_go (loaded-enabled o dfs tmod laws cmd asked asked-disabled short)
          (push_all-held o dfs tmod laws ser cmd (write ssienr 0x01 asked) ∙ chip_off)
          (ap (frame_bits dfs) same_control ∙ bits) (ap (mode_of tmod) same_control ∙ mode)
          (omega (arith, ap length words, some_words))
        ∙ ap₂ (chip ready_to_go) words frames
        ∙ ap (λ c. c cmd n) same_chip

  -- On a controller that is disabled and has no chip selected, at the offsets of one of the
  -- chip's controllers, whose receive FIFO stands still for a bounded number of polls, with
  -- fuel for more polls than that and the bytes wanted, 1 to 65536 of these, and a command of 1
  -- to 32 words: `flash_receive_data` returns what the chip answers the command with, all of it
  -- and in order, in whatever portions the FIFO delivers it, and leaves the controller disabled
  -- and the chip released.
  pub flash_receive_data-returns :
      (fuel : ℕ) (cmd : List ℕ) (n : ℕ) (s : Spi)
      → IsPort dfs tmod
      → held ssienr s ≡ 0
      → held ser s ≡ 0
      → 0 < length cmd
      → length cmd ≤ 32
      → 0 < n
      → n ≤ 65536
      → longest + n < fuel
      → (t : Spi) × ((flash_receive_data o fuel dfs tmod cmd n s ≡ some (chip s cmd n, t))
          × (held ssienr t ≡ 0)
          × (held ser t ≡ 0))
  unfolding flash_receive_data flash_receive_data_enhanced
  flash_receive_data-returns fuel cmd n s port disabled off some_words short some_bytes few enough =
      let (small, bits, mode) = control-receive port in
      let m = control dfs tmod 0x03 in
      let set = laws.ctrlr0-held m s disabled small in
      let start = receive_start o cmd n (write ctrlr0 m s) in
      let bytes =
        receive_start-incoming cmd n (write ctrlr0 m s)
          (laws.other-held ctrlr0 ssienr m s (λ e. absurd (cc e)) ∙ disabled)
          (laws.other-held ctrlr0 ser m s (λ e. absurd (cc e)) ∙ off) short some_words some_bytes
          few (ap (frame_bits dfs) set ∙ bits) (ap (mode_of tmod) set ∙ mode)
        ∙ ap (λ c. c cmd n) (laws.chip-write ctrlr0 m s (λ e. absurd (cc e))) in
      let (t, e) =
        receive_loop-bytes fuel n start (chip s cmd n) bytes (laws.chip-length s cmd n)
          (omega (arith, enough, laws.patience-le start)) in
      let (idle, deselected) = release-held o dfs tmod laws t in
      (release o t, (rw e refl, idle, deselected))
