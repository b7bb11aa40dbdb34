-- ===== src/Driver/Tests.antt =====
-- The driver on a simple chip.
use k210_guard_bootloader.Prelude.{ℕ, ◌≡◌, ◌≢◌, refl, true, inl, List, [], ◌∷◌, arith}
use k210_guard_bootloader.Flash.{flash_read_data, flash_write_data}
use k210_guard_bootloader.Flash.RoundTrip.{prepared}
use k210_guard_bootloader.Driver.{Handle, Driver, unset, flash_ok, handle_of, flash_check_status}
use k210_guard_bootloader.Driver.Bus.{spi3}
use k210_guard_bootloader.Driver.Sim.{Sim, sim_ops, sim_laws, sim_idle}
use k210_guard_bootloader.Driver.Status.{flash_check_status-idle}
use k210_guard_bootloader.Driver.Sound.{IsSound, driver_ops}
use k210_guard_bootloader.Driver.Refine.{erased_written_read}

-- A chip with zeros, all blocks protected, one data line.
abbrev protected : Sim
protected = record {
  cells = λ x. 0;
  bytes = λ x. omega arith;
  upper = 31;
  upper_lt = omega arith;
  status2 = 0;
  status2_lt = omega arith;
  enabled = true;
}

abbrev hello : List ℕ
hello = 104 ∷ 101 ∷ 108 ∷ 108 ∷ 111 ∷ []

-- The statics before the first `flash_init`.
abbrev nothing : Handle
nothing = record { spi_handle = 0; dfs_offset = 0; tmod_offset = 0; frf_offset = 0 }

abbrev started : Driver sim_ops
started = record { handle = nothing; page_program_fun = unset; read_fun = unset; bus = protected }

elsewhere : 0 ≢ spi3
elsewhere e = omega (arith, e)

started-IsSound : IsSound sim_ops sim_laws started
started-IsSound = (sim_idle protected, inl elsewhere)

erased_written_read_example :
    let f = driver_ops sim_ops sim_laws in
    let t = flash_write_data f (prepared f (started, started-IsSound) 4350) 4350 hello 5 in
    (flash_read_data f t 4350 5).0 ≡ hello
erased_written_read_example =
    erased_written_read sim_ops sim_laws started started-IsSound 4350 hello (omega arith)
      (omega arith) refl

flash_check_status-idle_example :
    ((flash_check_status sim_ops (handle_of 1) protected).0 ≡ flash_ok)
    × ((sim_laws.chip (flash_check_status sim_ops (handle_of 1) protected).1).busy ≡ 0)
flash_check_status-idle_example =
    flash_check_status-idle sim_ops sim_laws protected (omega (arith, sim_idle protected))
