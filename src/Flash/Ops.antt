-- ===== src/Flash/Ops.antt =====
-- The interface between src/drivers/flash.c's single transactions and what is built on them.
use k210_guard_bootloader.Prelude.{ℕ, ◌+◌, ◌-◌, ◌/◌, ◌%◌, ◌^◌, ◌≤◌, ◌<◌, bit_and, ◌≡◌, List}
use k210_guard_bootloader.Prelude.Tests.{◌==◌, if◌then◌else◌}
use k210_guard_bootloader.Prelude.Lists.{length, get_or}
use k210_guard_bootloader.Prelude.Memory.{Memory, span, within}

-- One call of each function is one or a few transactions with the chip. The functions return a
-- `flash_status_t`, which no caller above reads.
pub record FlashOps : Type 1 where
  pub State : Type 0
  pub flash_init : ℕ → State → State
  pub flash_enable_quad_mode : State → State
  pub flash_disable_protect : State → State
  pub flash_check_status : State → State
  -- `flash_read` with mode FLASH_QUAD_SINGLE: address, count
  pub flash_read : State → ℕ → ℕ → List ℕ × State
  -- `*flash_page_program_fun`: address, data
  pub page_program : State → ℕ → List ℕ → State
  pub flash_sector_erase : State → ℕ → State

abbrev pub capacity : ℕ
capacity = 2 ^ 24

-- Programming can only clear bits.
unfoldable pub programmed : Memory → ℕ → List ℕ → Memory
programmed m a bs x = if within a (length bs) x then bit_and (m x) (get_or bs (x - a) 0) else m x

-- A sector of 4096 bytes is erased to ones.
unfoldable pub erased : Memory → ℕ → Memory
erased m a x = if x / 4096 == a / 4096 then 0xff else m x

module _ (f : FlashOps) where
  open f use {
    State, flash_init, flash_enable_quad_mode, flash_disable_protect, flash_check_status,
    flash_read, page_program, flash_sector_erase,
  }

  -- What a NOR flash chip promises of these transactions, by its data sheet: `content` is what its
  -- cells hold. The driver has to be in quad mode (`IsReady`) and the chip unprotected
  -- (`IsWritable`).
  pub record FlashLaws : Type 1 where
    pub content : State → Memory
    pub IsReady : State → Type 0
    pub IsWritable : State → Type 0
    pub content-lt : (s : State) (x : ℕ) → content s x < 256
    pub init-content : (s : State) → content (flash_enable_quad_mode (flash_init 1 s)) ≡ content s
    pub init-IsReady : (s : State) → IsReady (flash_enable_quad_mode (flash_init 1 s))
    pub init-IsWritable :
        (s : State) → IsWritable s → IsWritable (flash_enable_quad_mode (flash_init 1 s))
    pub disable-content : (s : State) → content (flash_disable_protect s) ≡ content s
    pub disable-IsReady : (s : State) → IsReady s → IsReady (flash_disable_protect s)
    pub disable-IsWritable : (s : State) → IsReady s → IsWritable (flash_disable_protect s)
    pub check-content : (s : State) → content (flash_check_status s) ≡ content s
    pub check-IsReady : (s : State) → IsReady s → IsReady (flash_check_status s)
    pub check-IsWritable : (s : State) → IsWritable s → IsWritable (flash_check_status s)
    pub read-length : (s : State) (a n : ℕ) → length (flash_read s a n).0 ≡ n
    pub read-bytes :
        (s : State) (a n : ℕ)
        → IsReady s
        → n ≤ 32
        → a + n ≤ capacity
        → (flash_read s a n).0 ≡ span (content s) a n
    pub read-content : (s : State) (a n : ℕ) → content (flash_read s a n).1 ≡ content s
    pub read-IsReady : (s : State) (a n : ℕ) → IsReady s → IsReady (flash_read s a n).1
    pub read-IsWritable : (s : State) (a n : ℕ) → IsWritable s → IsWritable (flash_read s a n).1
    pub program-content :
        (s : State) (a : ℕ) (bs : List ℕ)
        → IsReady s
        → IsWritable s
        → length bs ≤ 32
        → a % 256 + length bs ≤ 256
        → a + length bs ≤ capacity
        → content (page_program s a bs) ≡ programmed (content s) a bs
    pub program-IsReady :
        (s : State) (a : ℕ) (bs : List ℕ) → IsReady s → IsReady (page_program s a bs)
    pub program-IsWritable :
        (s : State) (a : ℕ) (bs : List ℕ) → IsWritable s → IsWritable (page_program s a bs)
    pub erase-content :
        (s : State) (a : ℕ)
        → IsReady s
        → IsWritable s
        → a < capacity
        → content (flash_sector_erase s a) ≡ erased (content s) a
    pub erase-IsReady : (s : State) (a : ℕ) → IsReady s → IsReady (flash_sector_erase s a)
    pub erase-IsWritable : (s : State) (a : ℕ) → IsWritable s → IsWritable (flash_sector_erase s a)
