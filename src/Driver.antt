-- ===== src/Driver.antt =====
-- The commands of src/drivers/flash.c to the flash chip, over the transfers of an SPI controller.
pub mod Bus
pub mod Status
pub mod Commands
pub mod Registers
pub mod Modes
pub mod Quad
pub mod Sim
pub mod Sound
pub mod Refine
pub mod Tests
use k210_guard_bootloader.Prelude.{
  ℕ, zero, suc, ◌+◌, ◌-◌, ◌*◌, ◌/◌, ◌^◌, bit_and, bit_or, Bool, true, false, List, [], ◌∷◌,
}
use k210_guard_bootloader.Prelude.Tests.{◌==◌, if◌then◌else◌}
use k210_guard_bootloader.Prelude.Lists.{get_or}
use k210_guard_bootloader.Prelude.Words.{u8, u32}
use k210_guard_bootloader.Driver.Bus.{
  BusOps, ctrlr0, ser, ssienr, baudr, imr, spi_ctrlr0, spi0, spi3,
}

-- `flash_status_t`
pub data FlashStatus : Type 0 where
  flash_ok flash_busy : FlashStatus

-- `flash_read_t`
pub data ReadMode : Type 0 where
  flash_standard flash_standard_fast flash_dual flash_dual_single flash_quad flash_quad_single :
      ReadMode

-- What `flash_page_program_fun` and `flash_read_fun` point to: nothing before `flash_init`, then
-- the functions for one data line or those for four.
pub data Pointer : Type 0 where
  unset standard quad : Pointer

-- `spi_handle` (0 before `flash_init`), `dfs_offset`, `tmod_offset`, `frf_offset`
pub record Handle : Type 0 where
  pub spi_handle : ℕ
  pub dfs_offset : ℕ
  pub tmod_offset : ℕ
  pub frf_offset : ℕ

-- A command with an address.
unfoldable pub command : ℕ → ℕ → List ℕ
command op addr = op ∷ u8 (addr / 2 ^ 16) ∷ u8 (addr / 2 ^ 8) ∷ u8 addr ∷ []

-- `spi_handle` and the offsets that `flash_init` sets.
unfoldable pub handle_of : ℕ → Handle
handle_of index =
    if index == 0
    then record { spi_handle = spi0; dfs_offset = 16; tmod_offset = 8; frf_offset = 21 }
    else record { spi_handle = spi3; dfs_offset = 0; tmod_offset = 10; frf_offset = 22 }

-- A loop's test with `break`: `next` is the rest of the loop.
abbrev pub break_if {ℓ} : {A B : Type ℓ} → Bool → A → (B → A) → B → A
break_if true stop next t = stop
break_if false stop next t = next t

module _ (o : BusOps) where
  open o use {
    Bus, attach, write, flash_receive_data, flash_send_data, flash_receive_data_enhanced,
    flash_send_data_enhanced,
  }

  -- The driver's static variables, and the hardware.
  pub record Driver : Type 0 where
    pub handle : Handle
    pub page_program_fun : Pointer
    pub read_fun : Pointer
    pub bus : Bus

  -- The functions from here to `flash_read` use the statics of the handle only, and change none.
  module _ (g : Handle) where
    receive : List ℕ → ℕ → Bus → List ℕ × Bus
    receive = flash_receive_data g.spi_handle g.dfs_offset g.tmod_offset

    send : List ℕ → List ℕ → Bus → Bus
    send = flash_send_data g.spi_handle g.dfs_offset g.tmod_offset

    -- `flash_read_id`
    unfoldable pub flash_read_id : Bus → (ℕ × ℕ) × Bus
    unfolding receive
    flash_read_id b =
        let (bytes, t) = receive (0x90 ∷ 0x00 ∷ 0x00 ∷ 0x00 ∷ []) 2 b in
        ((get_or bytes 0 0, get_or bytes 1 0), t)

    -- `flash_write_enable`
    unfoldable pub flash_write_enable : Bus → Bus
    unfolding send
    flash_write_enable = send (0x06 ∷ []) []

    -- `flash_write_status_reg`
    unfoldable pub flash_write_status_reg : ℕ → ℕ → Bus → Bus
    unfolding send
    flash_write_status_reg reg1 reg2 b = send (0x01 ∷ reg1 ∷ reg2 ∷ []) [] (flash_write_enable b)

    -- `flash_read_status_reg1`
    unfoldable pub flash_read_status_reg1 : Bus → ℕ × Bus
    unfolding receive
    flash_read_status_reg1 b = let (bytes, t) = receive (0x05 ∷ []) 1 b in (get_or bytes 0 0, t)

    -- `flash_read_status_reg2`
    unfoldable pub flash_read_status_reg2 : Bus → ℕ × Bus
    unfolding receive
    flash_read_status_reg2 b = let (bytes, t) = receive (0x35 ∷ []) 1 b in (get_or bytes 0 0, t)

    -- `flash_is_busy`
    unfoldable pub flash_is_busy : Bus → FlashStatus × Bus
    flash_is_busy b =
        let (status, t) = flash_read_status_reg1 b in
        (if bit_and status 0x01 == 0 then flash_ok else flash_busy, t)

    -- The loop of `flash_check_status`, with the polls left: whether it ran out of them.
    unfoldable pub poll : ℕ → Bus → Bool × Bus
    poll zero b = (true, b)
    poll (suc left) b =
        let (status, t) = flash_read_status_reg1 b in
        break_if (bit_and status 0x01 == 0) (false, t) (poll left) t

    -- `flash_check_status`
    unfoldable pub flash_check_status : Bus → FlashStatus × Bus
    flash_check_status b =
        let (_, t) = flash_read_status_reg1 b in
        let (_, u) = flash_read_status_reg2 t in
        let (timeout, v) = poll 0xffffff u in
        let (_, w) = flash_read_status_reg2 v in (if timeout then flash_busy else flash_ok, w)

    -- `flash_disable_protect`
    unfoldable pub flash_disable_protect : Bus → FlashStatus × Bus
    flash_disable_protect b =
        let (_, t) = flash_read_status_reg1 b in
        let (reg2, u) = flash_read_status_reg2 t in
        let v = flash_write_status_reg 0x00 (bit_and reg2 0x03) u in
        let (_, w) = flash_read_status_reg1 v in
        let (_, x) = flash_read_status_reg2 w in flash_check_status x

    -- `flash_sector_erase`, `flash_32k_block_erase`, `flash_64k_block_erase`, `flash_chip_erase`
    unfoldable pub flash_sector_erase : ℕ → Bus → FlashStatus × Bus
    unfolding send
    flash_sector_erase addr b =
        flash_check_status (send (command 0x20 addr) [] (flash_write_enable b))

    unfoldable pub flash_32k_block_erase : ℕ → Bus → FlashStatus × Bus
    unfolding send
    flash_32k_block_erase addr b =
        flash_check_status (send (command 0x52 addr) [] (flash_write_enable b))

    unfoldable pub flash_64k_block_erase : ℕ → Bus → FlashStatus × Bus
    unfolding send
    flash_64k_block_erase addr b =
        flash_check_status (send (command 0xd8 addr) [] (flash_write_enable b))

    unfoldable pub flash_chip_erase : Bus → FlashStatus × Bus
    unfolding send
    flash_chip_erase b = flash_check_status (send (0x60 ∷ []) [] (flash_write_enable b))

    -- `flash_page_program`
    unfoldable pub flash_page_program : ℕ → List ℕ → Bus → FlashStatus × Bus
    unfolding send
    flash_page_program addr data_buf b =
        flash_check_status (send (command 0x02 addr) data_buf (flash_write_enable b))

    -- The two registers that the functions with more than one data line set up.
    unfoldable pub set_up : ℕ → ℕ → ℕ → Bus → Bus
    set_up tmod frf control b =
        let value =
          bit_or (bit_or (tmod * 2 ^ g.tmod_offset) (0x07 * 2 ^ g.dfs_offset))
            (frf * 2 ^ g.frf_offset) in
        write g.spi_handle spi_ctrlr0 control (write g.spi_handle ctrlr0 value b)

    -- `flash_quad_page_program`
    unfoldable pub flash_quad_page_program : ℕ → List ℕ → Bus → FlashStatus × Bus
    flash_quad_page_program addr data_buf b =
        let control = bit_or (0x06 * 2 ^ 2) (0x02 * 2 ^ 8) in
        let t = set_up 0x01 0x02 control (flash_write_enable b) in
        flash_check_status (flash_send_data_enhanced g.spi_handle (0x32 ∷ addr ∷ []) data_buf t)

    -- `flash_read`
    unfoldable pub flash_read : ℕ → ℕ → ReadMode → Bus → List ℕ × Bus
    unfolding receive
    flash_read addr n flash_standard b = receive (command 0x03 addr) n b
    flash_read addr n flash_standard_fast b =
        receive (0x0b ∷ u8 (addr / 2 ^ 16) ∷ u8 (addr / 2 ^ 8) ∷ u8 addr ∷ 0xff ∷ []) n b
    flash_read addr n flash_dual b =
        let control = bit_or (bit_or (0x06 * 2 ^ 2) (0x02 * 2 ^ 8)) (0x08 * 2 ^ 11) in
        flash_receive_data_enhanced g.spi_handle (0x3b ∷ addr ∷ []) n (set_up 0x02 0x01 control b)
    flash_read addr n flash_dual_single b =
        let control = bit_or (bit_or (0x08 * 2 ^ 2) (0x02 * 2 ^ 8)) 0x01 in
        flash_receive_data_enhanced g.spi_handle (0xbb ∷ u32 (addr * 2 ^ 8) ∷ []) n
          (set_up 0x02 0x01 control b)
    flash_read addr n flash_quad b =
        let control = bit_or (bit_or (0x06 * 2 ^ 2) (0x02 * 2 ^ 8)) (0x08 * 2 ^ 11) in
        flash_receive_data_enhanced g.spi_handle (0x6b ∷ addr ∷ []) n (set_up 0x02 0x02 control b)
    flash_read addr n flash_quad_single b =
        let control = bit_or (bit_or (bit_or (0x08 * 2 ^ 2) (0x02 * 2 ^ 8)) (0x04 * 2 ^ 11)) 0x01 in
        flash_receive_data_enhanced g.spi_handle (0xeb ∷ u32 (addr * 2 ^ 8) ∷ []) n
          (set_up 0x02 0x02 control b)

  -- `flash_init`
  unfoldable pub flash_init : ℕ → Driver → Driver
  unfolding send
  flash_init index d =
      let g = handle_of index in
      let h = g.spi_handle in
      let t = write h ser 0x00 (write h imr 0x00 (write h baudr 0x02 (attach index d.bus))) in
      record {
        handle = g;
        page_program_fun = standard;
        read_fun = standard;
        bus = send g (0xff ∷ 0xff ∷ []) [] (write h ssienr 0x00 t);
      }

  -- `flash_enable_quad_mode`
  unfoldable pub flash_enable_quad_mode : Driver → FlashStatus × Driver
  flash_enable_quad_mode d =
      let (reg2, t) = flash_read_status_reg2 d.handle d.bus in
      let (reg1, u) = flash_read_status_reg1 d.handle t in
      let v = flash_write_status_reg d.handle reg1 (bit_or reg2 0x02) u in
      let (status, w) = flash_check_status d.handle (if bit_and reg2 0x02 == 0 then v else t) in
      (status, record d { page_program_fun = quad; read_fun = quad; bus = w })

  -- `flash_disable_quad_mode`
  unfoldable pub flash_disable_quad_mode : Driver → FlashStatus × Driver
  flash_disable_quad_mode d =
      let (reg2, t) = flash_read_status_reg2 d.handle d.bus in
      let (reg1, u) = flash_read_status_reg1 d.handle t in
      let v = flash_write_status_reg d.handle reg1 (bit_and reg2 (0xff - 0x02)) u in
      let (status, w) = flash_check_status d.handle (if bit_and reg2 0x02 == 0 then t else v) in
      (status, record d { page_program_fun = standard; read_fun = standard; bus = w })

  -- `*flash_page_program_fun`; before `flash_init` there is no function to call.
  unfoldable pub page_program : Pointer → Handle → ℕ → List ℕ → Bus → FlashStatus × Bus
  page_program unset g addr data_buf b = (flash_busy, b)
  page_program standard g addr data_buf b = flash_page_program g addr data_buf b
  page_program quad g addr data_buf b = flash_quad_page_program g addr data_buf b
