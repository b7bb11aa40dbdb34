-- ===== src/Lib.antt =====
-- The K210 guard bootloader: what stands between the chip's reset and the application.
--
-- The boot ROM starts stage 1, which starts stage 2, which starts the application. Both stages are
-- built from the same src/main.c. `main` checks the image in the partition BAK and then that in APP
-- (`flash_image_check`: read the image into RAM, hash it, compare the checksum, decipher it if its
-- flag asks for that), compares the stored checksums (`flash_image_compare`), copies the valid image
-- over the other if these differ (`flash_image_backup`), and jumps (`go_boot`), where the two cores
-- wait for each other. The flash is reached through the transfers of src/drivers/flash.c and the
-- erase and write commands of src/cli/command.c, the checksum through src/drivers/sha256.c.
-- src/drivers/fpioa.c connects the chip's functions to its pins.
--
-- The files:
--   Prelude (and below it): names of the library, Boolean tests, lists, bits of native numbers,
--     C's unsigned words, integers, and memories as functions from addresses to bytes.
--   Sha256: src/drivers/sha256.c. `Sha` is the accelerator's registers (`Engine`) and the
--     `SHA256Context`; `sha256_init`, `sha256_update` and `sha256_final` are functions on it. What the
--     accelerator computes is a parameter, a function of the number of blocks that it is told and of
--     the words that it is fed. Round, Stream, Padding, Digest and Byteswap prove things of it.
--   Flash: `flash_read_data` and `flash_write_data` of src/drivers/flash.c, and `do_flash_erase` and
--     `do_flash_write` of src/cli/command.c, over Flash.Ops: a record of the driver's single
--     transactions, and one of laws, which are what a NOR flash promises. Flash.Chip is a small chip
--     that keeps them. The polls of the UART are a list of answers.
--   Spi: the four transfers of src/drivers/flash.c through the FIFOs of an SPI controller, whose
--     registers are a parameter. Laws says what the controller promises of each register, Start is on
--     the set-up; Receive and Send prove that the transfers end and lose nothing.
--   Driver: the commands of src/drivers/flash.c over the transfers, which Driver.Bus takes as a
--     record of operations, with what the data sheet of the chip promises of each command. `Driver` is
--     the driver's static variables and the bus. Status, Commands, Registers, Modes and Quad are on
--     the functions; Sound and Refine make of them the interface that Flash stands on. Sim is a
--     small chip.
--   Sysctl: src/drivers/sysctl.c over the bit-fields of src/include/sysctl.h (Layout, Fields,
--     PllFields); Ids has the identifiers, Switches the switches over them. Pll and Frequency are
--     further functions; Thresholds, Clocks, Domains and Start prove things of all.
--   Kermit: src/cli/load.c. `Receiver` is the state of `k_recv` and of the functions that it calls; the
--     line is the list of the characters to come. Packet has the packets and the loop, Decode the
--     quoting, Retry and Store are on data packets.
--   Cli: the command line of src/cli/cli.c, and the table of commands of src/cli/command.c, whose
--     functions are a parameter. Editing is what the keys do to a line and Entered what can come of
--     it; Arguments and Commands are on the split of a line, Orders on commands with their words;
--     Lookup finds a command; Session puts the parts together.
--   Boot: src/main.c. `Machine` is the flash, the cipher unit, the SHA-256 driver, RAM from the
--     address `_boot` on, and the polls to come. Image says what a valid image is; Steps, Verify,
--     Decipher and Check lead to what `flash_image_check` returns; Copy, Repair and Repaired are on
--     `flash_image_backup`; Compare on `flash_image_compare`; Choose, Finished, Run, Settled, Main and Recovery on
--     `main`. Cores has the two cores as a step relation, and Wake the interrupt between
--     them. Fixtures and Faults are small images.
--   Fpioa: src/drivers/fpioa.c. `Fpioa` is the registers; Config holds the table `function_config`
--     of 256 entries, Pins, Select and Find prove things of the operations.
--   Crc16: src/cli/crc16.c. Linear has laws of exclusive or, and Bitwise compares the table with a
--     shift register.
--   Strto: `simple_strtoul` of src/bsp/strto.c, which the commands read their arguments with. Ctype
--     holds the classes of characters of src/bsp/ctype.c, and Digits is on hexadecimal numbers.
--
-- Numbers are native. Unsigned words of 8, 32 and 64 bits have their wrap-around written out (u8,
-- u32, u64). Loops that count down a length are recursion on fuel: each round takes a byte at least,
-- so the length itself is fuel enough, and the theorems on the loops say what the whole loop does.
-- The deciphering loop counts down by 16 and can miss 0: it has one round more than the length as
-- fuel, `none` stands for a loop that has not ended, and it is proved that with a multiple of 16 it
-- ends and that with any other length no fuel is enough.
--
-- The polls of a FIFO or of a PLL's lock bits are fuel too: the hardware's promise is that nothing
-- stands still for more than so many polls, and with fuel above that the loops are proved to end.
-- `flash_check_status` has its own bound of 0xFFFFFF polls. The functions of sysctl.c that compute
-- frequencies call each other four levels deep at most, which is proved, and so are modelled level by
-- level.
--
-- A step of the cores is one action on what they share. With its interrupt enabled and pending,
-- core 1 takes the trap before its next instruction, which clears the pending bit; out of `wfi` it
-- wakes for that only, its other interrupts being disabled. `jump_flag` is read in each round of the
-- loop, although it is not volatile.
--
-- Not modelled: printed output and delays; the AES and OTP drivers (parameters of Boot); the search
-- for PLL dividers with floating point in src/drivers/sysctl.c, and what calls it; the commands
-- that print or that copy between flash and RAM; interrupts, GPIO, timers and the system calls; the tie bits of
-- the FPIOA.
pub mod Prelude
pub mod Sha256
pub mod Flash
pub mod Spi
pub mod Driver
pub mod Sysctl
pub mod Kermit
pub mod Boot
pub mod Cli
pub mod Fpioa
pub mod Crc16
pub mod Strto
