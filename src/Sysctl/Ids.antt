-- ===== src/Sysctl/Ids.antt =====
-- The identifiers of src/include/sysctl.h that the functions of src/drivers/sysctl.c take.
-- `sysctl_pll_t`
pub data Pll : Type 0 where
  pll0 pll1 pll2 pll_max : Pll

-- `sysctl_clock_source_t`
pub data Source : Type 0 where
  source_in0 source_pll0 source_pll1 source_pll2 source_aclk source_max : Source

-- `sysctl_clock_t`; `clock_max` stands for the numbers from SYSCTL_CLOCK_MAX on.
pub data Clock : Type 0 where
  clock_pll0 clock_pll1 clock_pll2 clock_cpu clock_sram0 clock_sram1 clock_apb0 clock_apb1
        clock_apb2 clock_rom clock_dma clock_ai clock_dvp clock_fft clock_gpio clock_spi0 clock_spi1
        clock_spi2 clock_spi3 clock_i2s0 clock_i2s1 clock_i2s2 clock_i2c0 clock_i2c1 clock_i2c2
        clock_uart1 clock_uart2 clock_uart3 clock_aes clock_fpioa clock_timer0 clock_timer1
        clock_timer2 clock_wdt0 clock_wdt1 clock_sha clock_otp clock_rtc clock_aclk clock_hclk
        clock_in0 clock_max :
      Clock

-- `sysctl_clock_select_t`
pub data Select : Type 0 where
  clock_select_pll0_bypass clock_select_pll1_bypass clock_select_pll2_bypass clock_select_pll2
        clock_select_aclk clock_select_spi3 clock_select_timer0 clock_select_timer1
        clock_select_timer2 clock_select_spi3_sample clock_select_max :
      Select

-- `sysctl_threshold_t`
pub data Threshold : Type 0 where
  threshold_aclk threshold_apb0 threshold_apb1 threshold_apb2 threshold_sram0 threshold_sram1
        threshold_ai threshold_dvp threshold_rom threshold_spi0 threshold_spi1 threshold_spi2
        threshold_spi3 threshold_timer0 threshold_timer1 threshold_timer2 threshold_i2s0
        threshold_i2s1 threshold_i2s2 threshold_i2s0_m threshold_i2s1_m threshold_i2s2_m
        threshold_i2c0 threshold_i2c1 threshold_i2c2 threshold_wdt0 threshold_wdt1 threshold_max :
      Threshold

-- `sysctl_reset_t`
pub data Reset : Type 0 where
  reset_soc reset_rom reset_dma reset_ai reset_dvp reset_fft reset_gpio reset_spi0 reset_spi1
        reset_spi2 reset_spi3 reset_i2s0 reset_i2s1 reset_i2s2 reset_i2c0 reset_i2c1 reset_i2c2
        reset_uart1 reset_uart2 reset_uart3 reset_aes reset_fpioa reset_timer0 reset_timer1
        reset_timer2 reset_wdt0 reset_wdt1 reset_sha reset_rtc reset_max :
      Reset
