-- ===== src/Flash.antt =====
-- The transfers of src/drivers/flash.c, and the erase and write loops of src/cli/command.c, over
-- the driver's single transactions.
pub mod Ops
pub mod Content
pub mod Read
pub mod Write
pub mod Program
pub mod Erase
pub mod Chip
pub mod RoundTrip
pub mod Tests
use k210_guard_bootloader.Prelude.{
  ℕ, zero, suc, ◌+◌, ◌-◌, ◌*◌, ◌/◌, ◌%◌, ◌^◌, bit_and, Bool, true, false, not, List, [], ◌∷◌, ◌++◌,
}
use k210_guard_bootloader.Prelude.Tests.{ltb, ◌==◌, if◌then◌else◌}
use k210_guard_bootloader.Prelude.Lists.{take, drop}
use k210_guard_bootloader.Prelude.Words.{u32}
use k210_guard_bootloader.Flash.Ops.{FlashOps}

-- The outcome of a function that returns 0 or -1.
pub data Status : Type 0 where
  success failure : Status

-- `uart_ctrlc`: the answers to the polls to come; with none left, no key is pressed.
unfoldable pub uart_ctrlc : List Bool → Bool × List Bool
uart_ctrlc [] = (false, [])
uart_ctrlc (pressed ∷ keys) = (pressed, keys)

-- `sectors` of `do_flash_erase`
unfoldable pub sectors_of : ℕ → ℕ
sectors_of length = length / 4096 + (if length % 4096 == 0 then 0 else 1)

module _ (f : FlashOps) where
  open f use {
    State, flash_init, flash_enable_quad_mode, flash_disable_protect, flash_check_status,
    flash_read, page_program, flash_sector_erase,
  }

  -- The loop of `flash_read_data` with mode FLASH_QUAD_SINGLE, on fuel: chunks of 32 bytes at most.
  unfoldable pub read_loop : ℕ → State → ℕ → ℕ → List ℕ × State
  read_loop zero s addr len = ([], s)
  read_loop (suc fuel) s addr len =
      let write_len = if ltb 32 len then 32 else len in
      let (bs, t) = flash_read s addr write_len in
      let (rest, u) = read_loop fuel t (u32 (addr + write_len)) (len - write_len) in
      if len == 0 then ([], s) else (bs ++ rest, u)

  -- `flash_read_data`: the bytes put into `data_buf`, in order.
  unfoldable pub flash_read_data : State → ℕ → ℕ → List ℕ × State
  flash_read_data s addr len = read_loop len s addr len

  -- The inner loop of `flash_write_data`: one page, in chunks of 32 bytes at most.
  unfoldable pub chunk_loop : ℕ → State → ℕ → List ℕ → ℕ → State
  chunk_loop zero s addr data_buf write_len = s
  chunk_loop (suc fuel) s addr data_buf write_len =
      let len = if ltb 32 write_len then 32 else write_len in
      let rest =
        chunk_loop fuel (page_program s addr (take len data_buf)) (u32 (addr + len))
          (drop len data_buf) (write_len - len) in
      if write_len == 0 then s else rest

  -- The outer loop: up to the end of each page. The inner loop has moved `addr` and `data_buf` on
  -- by the bytes that it wrote.
  unfoldable pub page_loop : ℕ → State → ℕ → List ℕ → ℕ → State
  page_loop zero s addr data_buf length = s
  page_loop (suc fuel) s addr data_buf length =
      let page_remain = 256 - bit_and addr (256 - 1) in
      let write_len = if ltb length page_remain then length else page_remain in
      let rest =
        page_loop fuel (chunk_loop write_len s addr data_buf write_len) (u32 (addr + write_len))
          (drop write_len data_buf) (length - write_len) in
      if length == 0 then s else rest

  -- `flash_write_data`
  unfoldable pub flash_write_data : State → ℕ → List ℕ → ℕ → State
  flash_write_data s addr data_buf length =
      flash_check_status (page_loop length s addr data_buf length)

  -- The loop of `do_flash_erase`, with the sectors left and the number `i` of the next one.
  unfoldable pub erase_loop : ℕ → ℕ → State → ℕ → List Bool → Status × State × List Bool
  erase_loop zero i s offset keys = (success, s, keys)
  erase_loop (suc left) i s offset keys =
      let t = flash_sector_erase s (u32 (4096 * i + offset)) in
      let (pressed, keys') = uart_ctrlc keys in
      let rest = erase_loop left (i + 1) t offset keys' in
      if pressed then (failure, t, keys') else rest

  -- `do_flash_erase`
  unfoldable pub do_flash_erase : State → ℕ → ℕ → List Bool → Status × State × List Bool
  do_flash_erase s offset length keys =
      if not (offset % 4096 == 0)
      then (failure, s, keys)
      else if length == 0
      then (failure, s, keys)
      else erase_loop (sectors_of length) 0
          (flash_disable_protect (flash_enable_quad_mode (flash_init 1 s))) offset keys

  -- The loop of `do_flash_write`, on fuel: chunks of 128 bytes at most.
  unfoldable pub write_loop : ℕ → State → ℕ → ℕ → List ℕ → State
  write_loop zero s offset length ram = s
  write_loop (suc fuel) s offset length ram =
      let lenwrite = if ltb 128 length then 128 else length in
      let rest =
        write_loop fuel (flash_write_data s offset ram lenwrite) (u32 (offset + lenwrite))
          (length - lenwrite) (drop lenwrite ram) in
      if length == 0 then s else rest

  -- `do_flash_write`, which returns 0
  unfoldable pub do_flash_write : State → ℕ → ℕ → List ℕ → State
  do_flash_write s offset length ram =
      write_loop length (flash_enable_quad_mode (flash_init 1 s)) offset length ram
