-- ===== src/Spi.antt =====
-- The transfers of src/drivers/flash.c through the FIFOs of an SPI controller.
pub mod Laws
pub mod Start
pub mod Receive
pub mod Send
pub mod Tests
use k210_guard_bootloader.Prelude.{
  ℕ, zero, suc, ◌+◌, ◌-◌, ◌*◌, ◌%◌, ◌^◌, bit_and, bit_or, Bool, true, false, Option, none, some,
  List, [], ◌∷◌, ◌++◌,
}
use k210_guard_bootloader.Prelude.Tests.{◌==◌, ltb, if◌then◌else◌, ◌>>=◌}
use k210_guard_bootloader.Prelude.Lists.{length, take, drop}
use k210_guard_bootloader.Prelude.Words.{u32}

-- The registers of `struct spi_t` that a transfer writes.
pub data SpiRegister : Type 0 where
  ctrlr0 ctrlr1 ssienr ser : SpiRegister

-- The registers of one controller. A read takes time, in which the controller works on.
pub record SpiOps : Type 1 where
  pub Spi : Type 0
  pub write : SpiRegister → ℕ → Spi → Spi
  -- `dr[0]`
  pub push : ℕ → Spi → Spi
  pub pop : Spi → ℕ × Spi
  pub rxflr : Spi → ℕ × Spi
  pub txflr : Spi → ℕ × Spi
  pub sr : Spi → ℕ × Spi

-- `a < b ? a : b`
unfoldable pub smaller : ℕ → ℕ → ℕ
smaller a b = if ltb a b then a else b

module _ (o : SpiOps) where
  open o use {Spi, write, push, pop, rxflr, txflr, sr}

  -- The loops over `dr[0]`.
  unfoldable pub push_all : List ℕ → Spi → Spi
  push_all [] s = s
  push_all (w ∷ ws) s = push_all ws (push w s)

  unfoldable pub pop_all : ℕ → Spi → List ℕ × Spi
  pop_all zero s = ([], s)
  pop_all (suc n) s = let (b, t) = pop s in let (bs, u) = pop_all n t in (b ∷ bs, u)

  -- The loop over `rx_len`, on fuel.
  unfoldable pub receive_loop : ℕ → ℕ → Spi → Option (List ℕ × Spi)
  receive_loop zero rx_len s = none
  receive_loop (suc fuel) rx_len s =
      let (level, t) = rxflr s in
      let fifo_len = smaller level rx_len in
      let (bs, u) = pop_all fifo_len t in
      let rest = receive_loop fuel (rx_len - fifo_len) u in
      if rx_len == 0 then some ([], s) else (rest >>= λ (cs, v). some (bs ++ cs, v))

  -- From the loop on: the chip select falls, and the controller is disabled.
  unfoldable pub release : Spi → Spi
  release s = write ssienr 0x00 (write ser 0x00 s)

  -- `flash_receive_data_enhanced` up to its loop
  unfoldable pub receive_start : List ℕ → ℕ → Spi → Spi
  receive_start cmd rx_len s =
      write ser 0x01 (push_all cmd (write ssienr 0x01 (write ctrlr1 (u32 (rx_len + 2 ^ 32 - 1)) s)))

  -- `flash_receive_data_enhanced`
  unfoldable pub flash_receive_data_enhanced : ℕ → List ℕ → ℕ → Spi → Option (List ℕ × Spi)
  flash_receive_data_enhanced fuel cmd rx_len s =
      receive_loop fuel rx_len (receive_start cmd rx_len s) >>= λ (bs, t). some (bs, release t)

  -- `flash_receive_data`: it sets `ctrlr0` first, and goes on in the same way.
  unfoldable pub flash_receive_data : ℕ → ℕ → ℕ → List ℕ → ℕ → Spi → Option (List ℕ × Spi)
  flash_receive_data fuel dfs tmod cmd rx_len s =
      flash_receive_data_enhanced fuel cmd rx_len
        (write ctrlr0 (bit_or (0x07 * 2 ^ dfs) (0x03 * 2 ^ tmod)) s)

  -- One filling of the transmit FIFO: the rest of the data.
  unfoldable pub fill_fifo : List ℕ → Spi → List ℕ × Spi
  fill_fifo data_left s =
      let (level, t) = txflr s in
      let fifo_len = smaller (u32 (32 + 2 ^ 32 - level)) (length data_left) in
      (drop fifo_len data_left, push_all (take fifo_len data_left) t)

  -- The loop over `tx_len`, on fuel.
  unfoldable pub send_loop : ℕ → List ℕ → Spi → Option Spi
  send_loop zero data_left s = none
  send_loop (suc fuel) data_left s =
      let (left, t) = fill_fifo data_left s in
      let rest = send_loop fuel left t in if length data_left == 0 then some s else rest

  -- `while ((spi_handle->sr & 0x05) != 0x04);`, on fuel
  unfoldable pub drain_loop : ℕ → Spi → Option Spi
  drain_loop zero s = none
  drain_loop (suc fuel) s =
      let (status, t) = sr s in
      let rest = drain_loop fuel t in if bit_and status 0x05 == 0x04 then some t else rest

  -- `flash_send_data_enhanced`
  unfoldable pub flash_send_data_enhanced : ℕ → List ℕ → List ℕ → Spi → Option Spi
  flash_send_data_enhanced fuel cmd tx s = do
    let (left, t) = fill_fifo tx (push_all cmd (write ssienr 0x01 s))
    u ← send_loop fuel left (write ser 0x01 t)
    v ← drain_loop fuel u
    some (release v)

  -- `flash_send_data`: it sets `ctrlr0` first, and goes on in the same way.
  unfoldable pub flash_send_data : ℕ → ℕ → ℕ → List ℕ → List ℕ → Spi → Option Spi
  flash_send_data fuel dfs tmod cmd tx s =
      flash_send_data_enhanced fuel cmd tx
        (write ctrlr0 (bit_or (0x07 * 2 ^ dfs) (0x01 * 2 ^ tmod)) s)
