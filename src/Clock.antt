-- ===== src/Clock.antt =====
-- The clock manager: Drivers/ClockManagementDxe/clock.c and Tegra210/clock.c, over the registers of
-- the clock and reset controller (`struct clk_rst_ctlr` of Include/Protocol/Utc/ClkRst.h).
pub mod Table
pub mod Periph
pub mod Enable
pub mod Source
pub mod Mux
pub mod Rate
pub mod Divider
pub mod Pll
pub mod PllFields
pub mod PllRoundTrip
pub mod Osc
pub mod SetRate
pub mod BestDivider
pub mod RateOrder
pub mod Closest
pub mod SecondStage
pub mod PeriphRate
pub mod SourceField
pub mod Start
pub mod BaseFields
pub mod SetRateBack
pub mod Init
pub mod InitMux
pub mod EarlyInit
pub mod PllE
pub mod PllELock
pub mod EarlyRates
pub mod ProtocolRate
pub mod Protocol
mod Tests
mod RateTests
use nintendo_switch_pkg.Prelude.{ℕ}

-- NV_PA_CLK_RST_BASE
abbrev pub clk_rst_base : ℕ
clk_rst_base = 0x60006000

-- PERIPH_ID_VW_FIRST, PERIPH_ID_X_FIRST, PERIPH_ID_Y_FIRST and PERIPH_ID_COUNT.
abbrev pub periph_id_vw_first : ℕ
periph_id_vw_first = 96

abbrev pub periph_id_x_first : ℕ
periph_id_x_first = 160

abbrev pub periph_id_y_first : ℕ
periph_id_y_first = 192

abbrev pub periph_id_count : ℕ
periph_id_count = 224
