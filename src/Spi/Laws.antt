-- ===== src/Spi/Laws.antt =====
-- What an SPI controller promises of its registers and FIFOs, by its documentation: a DesignWare SSI
-- as src/drivers/flash.c reads and writes it in a transfer.
use k210_guard_bootloader.Prelude.{
  ℕ, ◌+◌, ◌/◌, ◌%◌, ◌^◌, ◌≤◌, ◌<◌, bit_and, ◌≡◌, ◌≢◌, List, [], ◌∷◌, ◌++◌,
}
use k210_guard_bootloader.Prelude.Lists.{length}
use k210_guard_bootloader.Spi.{SpiOps, SpiRegister, ctrlr0, ctrlr1, ssienr, ser}

-- The fields of `ctrlr0` at these offsets: the bits of a frame less 1, and the mode of transfer, in
-- which 1 is to transmit only and 3 is to send a command and then receive.
abbrev pub frame_bits : ℕ → ℕ → ℕ
frame_bits dfs value = value / 2 ^ dfs % 32

abbrev pub mode_of : ℕ → ℕ → ℕ
mode_of tmod value = value / 2 ^ tmod % 4

-- The offsets of the controllers SPI0 and SPI1, and of SPI3.
pub data IsPort : ℕ → ℕ → Type 0 where
  wide : IsPort 16 8
  narrow : IsPort 0 10

module _ (o : SpiOps) (dfs tmod : ℕ) where
  open o use {Spi, write, push, pop, rxflr, txflr, sr}

  pub record SpiLaws : Type 1 where
    -- what a register holds
    pub held : SpiRegister → Spi → ℕ
    -- what the chip would answer these words with, in so many frames
    pub chip : Spi → List ℕ → ℕ → List ℕ
    -- the bytes that the chip has still to deliver in this transfer, and how many of them are in the
    -- receive FIFO
    pub incoming : Spi → List ℕ
    pub ready : Spi → ℕ
    -- the words written since the controller was enabled, the free places of the transmit FIFO, and
    -- the words that have reached the chip
    pub outgoing : Spi → List ℕ
    pub room : Spi → ℕ
    pub shifted : Spi → List ℕ
    -- the polls for which nothing may move, and a bound on them
    pub patience : Spi → ℕ
    pub longest : ℕ
    pub patience-le : (s : Spi) → patience s ≤ longest
    -- the control registers can be written while the controller is disabled
    pub ctrlr0-held :
        (v : ℕ) (s : Spi) → held ssienr s ≡ 0 → v < 2 ^ 32 → held ctrlr0 (write ctrlr0 v s) ≡ v
    pub ctrlr1-held :
        (v : ℕ) (s : Spi) → held ssienr s ≡ 0 → v < 65536 → held ctrlr1 (write ctrlr1 v s) ≡ v
    pub ssienr-held : (v : ℕ) (s : Spi) → v < 2 → held ssienr (write ssienr v s) ≡ v
    pub ser-held : (v : ℕ) (s : Spi) → v < 2 → held ser (write ser v s) ≡ v
    pub other-held : (g h : SpiRegister) (v : ℕ) (s : Spi) → g ≢ h → held h (write g v s) ≡ held h s
    pub push-held : (h : SpiRegister) (w : ℕ) (s : Spi) → held h (push w s) ≡ held h s
    pub txflr-held : (h : SpiRegister) (s : Spi) → held h (txflr s).1 ≡ held h s
    pub sr-held : (h : SpiRegister) (s : Spi) → held h (sr s).1 ≡ held h s
    -- as long as it is not selected, the chip hears nothing
    pub chip-write : (g : SpiRegister) (v : ℕ) (s : Spi) → g ≢ ser → chip (write g v s) ≡ chip s
    pub chip-push : (w : ℕ) (s : Spi) → held ser s ≡ 0 → chip (push w s) ≡ chip s
    pub chip-length : (s : Spi) (ws : List ℕ) (n : ℕ) → length (chip s ws n) ≡ n
    -- a controller is enabled with empty FIFOs
    pub enable :
        (s : Spi)
        → held ssienr s ≡ 0
        → (outgoing (write ssienr 1 s) ≡ []) × (32 ≤ room (write ssienr 1 s))
    -- the chip is selected in mode 3: after the command, `ctrlr1` asks for so many frames less 1
    pub receive :
        (s : Spi)
        → held ssienr s ≡ 1
        → held ser s ≡ 0
        → frame_bits dfs (held ctrlr0 s) ≡ 7
        → mode_of tmod (held ctrlr0 s) ≡ 3
        → 0 < length (outgoing s)
        → incoming (write ser 1 s) ≡ chip s (outgoing s) (held ctrlr1 s + 1)
    pub select : (s : Spi) → held ssienr s ≡ 1 → outgoing (write ser 1 s) ≡ outgoing s
    pub rxflr-incoming : (s : Spi) → incoming (rxflr s).1 ≡ incoming s
    pub rxflr-ready : (s : Spi) → ready (rxflr s).1 ≡ (rxflr s).0
    pub rxflr-level : (s : Spi) → (rxflr s).0 ≤ length (incoming s)
    pub rxflr-patience : (s : Spi) → patience (rxflr s).1 ≤ patience s
    pub rxflr-progress :
        (s : Spi) → (rxflr s).0 ≡ 0 → 0 < length (incoming s) → patience (rxflr s).1 < patience s
    pub pop-byte :
        (s : Spi) (b : ℕ) (bs : List ℕ)
        → incoming s ≡ b ∷ bs
        → 0 < ready s
        → ((pop s).0 ≡ b)
          × (incoming (pop s).1 ≡ bs)
          × (ready s ≤ ready (pop s).1 + 1)
          × (patience (pop s).1 ≤ patience s)
    pub push-word :
        (s : Spi) (w : ℕ)
        → held ssienr s ≡ 1
        → 0 < room s
        → (outgoing (push w s) ≡ outgoing s ++ (w ∷ []))
          × (room s ≤ room (push w s) + 1)
          × (patience (push w s) ≤ patience s)
    pub txflr-outgoing : (s : Spi) → outgoing (txflr s).1 ≡ outgoing s
    pub txflr-level : (s : Spi) → (txflr s).0 ≤ 32
    pub txflr-room : (s : Spi) → 32 ≤ room (txflr s).1 + (txflr s).0
    pub txflr-patience : (s : Spi) → patience (txflr s).1 ≤ patience s
    -- in mode 1 the words leave the FIFO for the chip that is selected
    pub txflr-progress :
        (s : Spi)
        → held ssienr s ≡ 1
        → held ser s ≡ 1
        → mode_of tmod (held ctrlr0 s) ≡ 1
        → 32 ≤ (txflr s).0
        → patience (txflr s).1 < patience s
    -- bits 2 and 0 of `sr`: the transmit FIFO is empty, the controller is busy
    pub sr-outgoing : (s : Spi) → outgoing (sr s).1 ≡ outgoing s
    pub sr-progress :
        (s : Spi)
        → held ssienr s ≡ 1
        → held ser s ≡ 1
        → mode_of tmod (held ctrlr0 s) ≡ 1
        → bit_and (sr s).0 5 ≢ 4
        → patience (sr s).1 < patience s
    pub sr-shifted :
        (s : Spi)
        → held ssienr s ≡ 1
        → held ser s ≡ 1
        → frame_bits dfs (held ctrlr0 s) ≡ 7
        → mode_of tmod (held ctrlr0 s) ≡ 1
        → bit_and (sr s).0 5 ≡ 4
        → shifted (sr s).1 ≡ outgoing (sr s).1
