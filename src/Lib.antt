-- ===== src/Lib.antt =====
-- The firmware of the Nintendo Switch platform package: its drivers as functions on the state they
-- change.
--
-- Register accesses (Include/Foundation/Types.h, Include/Shim/UBootIo.h) of the pin and clock drivers
-- are functions on a map from addresses to 32-bit words; a value is cut to 32 bits where it is
-- written, as `writel` does. A register keeps what was last written to it. An assertion that fails
-- does not return, since the platform is built with the dead loop enabled (NintendoSwitch.dsc,
-- PcdDebugPropertyMask): such a call is `none`.
--
-- Files:
--   Prelude            numbers, tests, bits of a word, integers, the monad of assertions
--   Mmio               registers; Field and Update say what a write does, bit by bit
--   PinMux             Drivers/PinMuxDxe/pinmux-common.c: the setters of a pin and of a table of
--                      pins; Table is Drivers/PinMuxDxe/Tegra210/pinmux.c, Board the table of
--                      Include/Device/PinMux.h, Drive the drive groups
--   Gpio               Drivers/PinMuxDxe/Gpio.c and Library/GpioLib/GpioLib.c
--   SdMmc              Drivers/SdMmcDxe: the records and the interface of the host controller;
--                      Command, Read, Ident, OpCond, SdFeatures, Startup and FxInit are
--                      MmcHostOp.c, BlockIo is EfiBlkDeviceOp.c; Card says what is relied on of the
--                      card when blocks are read, Sim is a card that meets it
--   SdMmc/Controller   SdMmc.c: the accesses to the controller's registers; Setup is power, clock,
--                      bus width and reset, Transfer and SendCmd a command and its data;
--                      SdMmc/Probe is `SdControllerProbe`, SdMmc/SelfTest the entry of the driver from
--                      SdFxInit on
--   BounceBuf          Library/DmaBounceBufferLib/BounceBuf.c; SdMmc/Bounced is `tegra_mmc_send_cmd`,
--                      which puts the bounce buffer around a command
--   Clock              Drivers/ClockManagementDxe: Table, Periph, EarlyInit and PllE are
--                      Tegra210/clock.c, Rate, BestDivider, Pll, SetRate, PeriphRate, Init and the mux
--                      of Periph are clock.c, Osc is from both, Protocol is UBootClockManagement.c
--   ClockLib           Library/ClockLib/ClockLib.c: the clocks of a `clock_t`; Sdmmc is those of the
--                      SDMMC controllers, Devices is Drivers/ClockManagementDxe/ClockManagement.c
--   Pmic               Library/Max7762xPmicLib/Max7762xPmicLib.c: the regulators; Rails is
--                      Drivers/PmicDxe/Pmic.c and the power-off of Library/UtilLib/UtilLib.c
--   I2c                Library/I2cLib/I2cLib.c
--   Usb                Drivers/EhciPciEmulationDxe: Timing is TegraUsb.h, Utmi and Host are
--                      PciEmulation.c
--   Serial             Library/Tegra8250SerialPortLib/Tegra8250SerialPortLib.c
--   SimpleFb           Drivers/SimpleFbDxe/SimpleFbDxe.c
--   Rtc                Library/VirtualRealTimeClockLib/VirtualRealTimeClockLib.c
--
-- The pin and clock drivers' state is the registers alone, so an operation on a pin is a function
-- `Regs → Option Regs`, and two drivers that share a register block share the map. The SD driver's
-- state (`Sd`, and `Driver` during identification) is its globals mMmcInstance and mBlkDesc and the
-- state of the host, which stands for `tegra_mmc_send_cmd` and `tegra_mmc_set_ios` of
-- Drivers/SdMmcDxe/SdMmc.c, the controller, the card and main memory: a parameter (`Host`), about
-- which `Card` assumes the effects of CMD12, CMD16, CMD17 and CMD18 of the SD specification.
-- Identification assumes nothing of the host. SdFxInit and SdFxInitFinalize set the geometry that the
-- reads rely on. The block device calls MmcReadInternal, which calls mmc_bread in chunks of at most 64
-- blocks, which calls mmc_read_blocks in chunks of at most b_max blocks.
--
-- The host controller is modelled apart from the commands: its registers change on their own, so its
-- state is the history of accesses, and what a read gives is any function of that history (`Env`),
-- as are the timer and the rate that the clock manager sets. Registers that only a debug message
-- prints are not read. A buffer is its address. The bounce buffer is modelled over the firmware's page
-- allocator and CopyMem (`Machine`), and `tegra_mmc_send_cmd` over a transfer to a buffer that DMA
-- reaches; what is relied on of them is in SdMmc/Reach.
--
-- The clock manager keeps the rates of the clocks in `pll_rate`, which clock_init fills, and in
-- `pllp_valid` whether PLLP was found correct; both are passed beside the registers. A call that waits
-- for a PLL to lock reads a register that the hardware changes: the readings, up to the one that
-- ends the wait or the end of the time, are an argument.
--
-- The controllers of Library/I2cLib change on their own too, and I2c has a history of accesses of its
-- own, which Serial shares. The waits for an idle controller and for the serial port have no bound in
-- the code and take fuel.
--
-- The set-up of the USB controller and the probe of the SD host controller call the clock manager and
-- the GPIO library on one map of registers; what the hardware decides (the clock of the PHY, the bus
-- that is driven already) is an argument (`Readings`). The wait for the PHY has the 100000 rounds of
-- the code, and the self test its 51. The firmware's ZeroMem, AllocateCopyPool and
-- InstallMultipleProtocolInterfaces are parameters of the entry of the SD driver (`Services`).
--
-- The power controller is the bytes of its registers, behind the two calls of Library/I2cLib, which
-- are parameters (`Bus`); `KeepsBytes` says that a register keeps the byte last sent to it.
--
-- The frame buffer driver copies between byte ranges of memory by the firmware's CopyMem (`Firmware`),
-- of which `MovesBytes` says what is relied on; its addresses wrap at 64 bits.
--
-- Else an address in memory is a number without an upper bound. The fuel of a loop is `none` when it is
-- used up: mmc_bread has one round for each block and one more, since a round reads at least one
-- block; MmcReadInternal has the initial operation size and the length in bytes, of which each round
-- lessens one, and one more. The results below include that neither runs out. The loop of
-- mmc_complete_op_cond and the last loop of a transfer are bounded in the code by the timer alone, or
-- by the end of the DMA interrupts, so their fuel is a parameter, and the results on them are for any
-- fuel. The other loops have the bounds of the code.
--
-- Not modelled: the protocol and driver glue of UEFI, debug output, cache maintenance and, but for the
-- host controller, delays; the SMBIOS tables, which are constants handed to a protocol; the boot
-- manager and the set-up of memory, which are calls of UEFI services; and the poll of the side buttons,
-- which does nothing with what it reads.
pub mod BounceBuf
pub mod Clock
pub mod ClockLib
pub mod Gpio
pub mod I2c
pub mod Mmio
pub mod PinMux
pub mod Pmic
pub mod Prelude
pub mod Rtc
pub mod SdMmc
pub mod Serial
pub mod SimpleFb
pub mod Usb
