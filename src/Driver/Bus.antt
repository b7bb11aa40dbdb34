-- ===== src/Driver/Bus.antt =====
-- The controller and the chip under src/drivers/flash.c: the transfers through the registers of
-- an SPI controller, and what the data sheet of the flash chip promises of its commands.
use k210_guard_bootloader.Prelude.{
  ℕ, ◌+◌, ◌-◌, ◌*◌, ◌/◌, ◌%◌, ◌^◌, ◌≤◌, ◌<◌, bit_and, ◌≡◌, ◌≢◌, Bool, true, List, [], ◌∷◌,
}
use k210_guard_bootloader.Prelude.Tests.{◌==◌, if◌then◌else◌}
use k210_guard_bootloader.Prelude.Lists.{length}
use k210_guard_bootloader.Prelude.Memory.{Memory, span}
use k210_guard_bootloader.Flash.Ops.{capacity, programmed, erased}

-- The registers of `struct spi_t` that the driver writes outside its transfers.
pub data Register : Type 0 where
  ctrlr0 ser ssienr baudr imr spi_ctrlr0 : Register

-- SPI0_BASE_ADDR, SPI3_BASE_ADDR
abbrev pub spi0 : ℕ
spi0 = 0x52000000

abbrev pub spi3 : ℕ
spi3 = 0x54000000

-- The addresses are those of a controller, the numbers before a command are `dfs_offset` and
-- `tmod_offset`. A transfer raises the chip select once.
pub record BusOps : Type 1 where
  pub Bus : Type 0
  -- the clocks, resets and pins that `flash_init` sets up for its index
  pub attach : ℕ → Bus → Bus
  pub write : ℕ → Register → ℕ → Bus → Bus
  -- command, number of bytes
  pub flash_receive_data : ℕ → ℕ → ℕ → List ℕ → ℕ → Bus → List ℕ × Bus
  -- command, data
  pub flash_send_data : ℕ → ℕ → ℕ → List ℕ → List ℕ → Bus → Bus
  pub flash_receive_data_enhanced : ℕ → List ℕ → ℕ → Bus → List ℕ × Bus
  pub flash_send_data_enhanced : ℕ → List ℕ → List ℕ → Bus → Bus

-- What the chip remembers. `upper` holds the bits 7 to 2 of status register 1; bit 1 is `enabled`,
-- and bit 0 stays set for the next `busy` reads of the register.
pub record ChipState : Type 0 where
  pub content : Memory
  pub upper : ℕ
  pub status2 : ℕ
  pub busy : ℕ
  pub enabled : Bool

-- The block protect bits 4 to 2 of status register 1 and the complement bit 6 of register 2.
abbrev pub Unprotected : ChipState → Type 0
Unprotected c = (c.upper % 8 ≡ 0) × (c.status2 / 64 % 2 ≡ 0)

-- Bit 1 of status register 2: the data lines carry four bits.
abbrev pub Quad : ChipState → Type 0
Quad c = bit_and c.status2 2 ≡ 2

-- The number of polls that the driver waits.
abbrev pub limit : ℕ
limit = 0xffffff

unfoldable pub status1_of : ChipState → ℕ
status1_of c = 4 * c.upper + 2 * (if c.enabled then 1 else 0) + (if c.busy == 0 then 0 else 1)

-- Nothing but time has passed.
pub record Later (c d : ChipState) : Type 0 where
  pub same_content : d.content ≡ c.content
  pub same_upper : d.upper ≡ c.upper
  pub same_status2 : d.status2 ≡ c.status2
  pub less_busy : d.busy ≤ c.busy

-- A write to the cells has begun, and ends in time.
pub record Begun (c d : ChipState) : Type 0 where
  pub same_upper : d.upper ≡ c.upper
  pub same_status2 : d.status2 ≡ c.status2
  pub in_time : d.busy < limit

-- The three bytes of an address in a command.
abbrev pub address : ℕ → List ℕ
address a = a / 2 ^ 16 % 2 ^ 8 ∷ a / 2 ^ 8 % 2 ^ 8 ∷ a % 2 ^ 8 ∷ []

module _ (o : BusOps) where
  open o use {
    Bus, attach, write, flash_receive_data, flash_send_data, flash_receive_data_enhanced,
    flash_send_data_enhanced,
  }

  -- The chip is on SPI3, whose frame size, transfer mode and format fields are at bits 0, 10, 22 of
  -- `ctrlr0`.
  pub record BusLaws : Type 1 where
    pub chip : Bus → ChipState
    pub content-lt : (b : Bus) (x : ℕ) → (chip b).content x < 256
    pub upper-lt : (b : Bus) → (chip b).upper < 64
    pub status2-lt : (b : Bus) → (chip b).status2 < 256
    pub attach-Later : (i : ℕ) (b : Bus) → Later (chip b) (chip (attach i b))
    pub write-Later :
        (h : ℕ) (r : Register) (v : ℕ) (b : Bus) → Later (chip b) (chip (write h r v b))
    -- other controllers
    pub receive-elsewhere :
        (h dfs tmod : ℕ) (cmd : List ℕ) (n : ℕ) (b : Bus)
        → h ≢ spi3
        → Later (chip b) (chip (flash_receive_data h dfs tmod cmd n b).1)
    pub send-elsewhere :
        (h dfs tmod : ℕ) (cmd bs : List ℕ) (b : Bus)
        → h ≢ spi3
        → Later (chip b) (chip (flash_send_data h dfs tmod cmd bs b))
    pub receive_enhanced-elsewhere :
        (h : ℕ) (cmd : List ℕ) (n : ℕ) (b : Bus)
        → h ≢ spi3
        → Later (chip b) (chip (flash_receive_data_enhanced h cmd n b).1)
    pub send_enhanced-elsewhere :
        (h : ℕ) (cmd bs : List ℕ) (b : Bus)
        → h ≢ spi3
        → Later (chip b) (chip (flash_send_data_enhanced h cmd bs b))
    -- read status register 1 (05h) and 2 (35h), at any time
    pub status1-value :
        (b : Bus) → (flash_receive_data spi3 0 10 (0x05 ∷ []) 1 b).0 ≡ status1_of (chip b) ∷ []
    pub status1-Later :
        (b : Bus) → Later (chip b) (chip (flash_receive_data spi3 0 10 (0x05 ∷ []) 1 b).1)
    pub status1-time :
        (b : Bus) → (chip (flash_receive_data spi3 0 10 (0x05 ∷ []) 1 b).1).busy ≤ (chip b).busy - 1
    pub status2-value :
        (b : Bus) → (flash_receive_data spi3 0 10 (0x35 ∷ []) 1 b).0 ≡ (chip b).status2 ∷ []
    pub status2-Later :
        (b : Bus) → Later (chip b) (chip (flash_receive_data spi3 0 10 (0x35 ∷ []) 1 b).1)
    -- leave continuous read mode (FFFFh)
    pub reset-Later :
        (b : Bus) → Later (chip b) (chip (flash_send_data spi3 0 10 (0xff ∷ 0xff ∷ []) [] b))
    -- write enable (06h)
    pub enable-Later :
        (b : Bus) → Later (chip b) (chip (flash_send_data spi3 0 10 (0x06 ∷ []) [] b))
    pub enable-enabled :
        (b : Bus)
        → (chip b).busy ≡ 0
        → (chip (flash_send_data spi3 0 10 (0x06 ∷ []) [] b)).enabled ≡ true
    -- write status registers (01h)
    pub write_status :
        (b : Bus) (r1 r2 : ℕ)
        → (chip b).busy ≡ 0
        → (chip b).enabled ≡ true
        → r1 < 256
        → r2 < 256
        → let t = chip (flash_send_data spi3 0 10 (0x01 ∷ r1 ∷ r2 ∷ []) [] b) in
          (t.content ≡ (chip b).content) × (t.upper ≡ r1 / 4) × (t.status2 ≡ r2) × t.busy < limit
    -- sector erase (20h)
    pub erase-Begun :
        (b : Bus) (a : ℕ)
        → (chip b).busy ≡ 0
        → (chip b).enabled ≡ true
        → Begun (chip b) (chip (flash_send_data spi3 0 10 (0x20 ∷ address a) [] b))
    pub erase-content :
        (b : Bus) (a : ℕ)
        → (chip b).busy ≡ 0
        → (chip b).enabled ≡ true
        → Unprotected (chip b)
        → a < capacity
        → (chip (flash_send_data spi3 0 10 (0x20 ∷ address a) [] b)).content
          ≡ erased ((chip b).content) a
    -- page program (02h)
    pub program-Begun :
        (b : Bus) (a : ℕ) (bs : List ℕ)
        → (chip b).busy ≡ 0
        → (chip b).enabled ≡ true
        → Begun (chip b) (chip (flash_send_data spi3 0 10 (0x02 ∷ address a) bs b))
    pub program-content :
        (b : Bus) (a : ℕ) (bs : List ℕ)
        → (chip b).busy ≡ 0
        → (chip b).enabled ≡ true
        → Unprotected (chip b)
        → a % 256 + length bs ≤ 256
        → a + length bs ≤ capacity
        → (chip (flash_send_data spi3 0 10 (0x02 ∷ address a) bs b)).content
          ≡ programmed ((chip b).content) a bs
    -- quad page program (32h): 8-bit frames, transmit only, four data lines; an instruction of 8
    -- bits, an address of 24 bits
    pub quad_program-Begun :
        (b : Bus) (a : ℕ) (bs : List ℕ)
        → (chip b).busy ≡ 0
        → (chip b).enabled ≡ true
        → Begun (chip b) (
            chip (
              flash_send_data_enhanced spi3
                (0x32 ∷ a ∷ [])
                bs
                (write spi3 spi_ctrlr0 0x218 (write spi3 ctrlr0 0x800407 b))))
    pub quad_program-content :
        (b : Bus) (a : ℕ) (bs : List ℕ)
        → (chip b).busy ≡ 0
        → (chip b).enabled ≡ true
        → Unprotected (chip b)
        → Quad (chip b)
        → a % 256 + length bs ≤ 256
        → a + length bs ≤ capacity
        → (chip (
            flash_send_data_enhanced spi3
              (0x32 ∷ a ∷ [])
              bs
              (write spi3 spi_ctrlr0 0x218 (write spi3 ctrlr0 0x800407 b)))).content
          ≡ programmed ((chip b).content) a bs
    -- fast read quad I/O (EBh): 8-bit frames, receive only, four lines; an instruction of 8 bits, an
    -- address of 24 bits and 8 mode bits on four lines, 4 dummy clocks
    pub quad_read-bytes :
        (b : Bus) (a n : ℕ)
        → (chip b).busy ≡ 0
        → Quad (chip b)
        → a + n ≤ capacity
        → (flash_receive_data_enhanced spi3
            (0xeb ∷ a * 2 ^ 8 ∷ [])
            n
            (write spi3 spi_ctrlr0 0x2221 (write spi3 ctrlr0 0x800807 b))).0
          ≡ span ((chip b).content) a n
    pub quad_read-Later :
        (b : Bus) (w n : ℕ)
        → Later (chip b) (
            chip
              (flash_receive_data_enhanced spi3
                (0xeb ∷ w ∷ [])
                n
                (write spi3 spi_ctrlr0 0x2221 (write spi3 ctrlr0 0x800807 b))).1)
    pub receive_enhanced-length :
        (h : ℕ) (cmd : List ℕ) (n : ℕ) (b : Bus)
        → length (flash_receive_data_enhanced h cmd n b).0 ≡ n
