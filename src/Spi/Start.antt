-- ===== src/Spi/Start.antt =====
-- What the transfers of src/drivers/flash.c have in common: a controller is set up and loaded with a
-- command before the chip is selected, and released at the end.
use k210_guard_bootloader.Prelude.{
  ℕ, ◌+◌, ◌*◌, ◌^◌, ◌≤◌, ◌<◌, bit_or, ◌≡◌, ◌≢◌, refl, sym, ap, ◌∙◌, List, [], ◌∷◌, ◌++◌, append-nil,
  append_assoc, arith,
}
use k210_guard_bootloader.Prelude.Lists.{length}
use k210_guard_bootloader.Spi.{SpiOps, SpiRegister, ssienr, ser, push_all, release}
use k210_guard_bootloader.Spi.Laws.{frame_bits, mode_of, IsPort, wide, narrow, SpiLaws}

-- `ctrlr0` for frames of 8 bits in the modes 3 and 1.
abbrev pub control : ℕ → ℕ → ℕ → ℕ
control dfs tmod mode = bit_or (0x07 * 2 ^ dfs) (mode * 2 ^ tmod)

pub control-receive :
    {dfs tmod : ℕ}
    → IsPort dfs tmod
    → (control dfs tmod 0x03 < 2 ^ 32)
      × (frame_bits dfs (control dfs tmod 0x03) ≡ 7)
      × (mode_of tmod (control dfs tmod 0x03) ≡ 3)
control-receive wide = (omega arith, refl, refl)
control-receive narrow = (omega arith, refl, refl)

pub control-send :
    {dfs tmod : ℕ}
    → IsPort dfs tmod
    → (control dfs tmod 0x01 < 2 ^ 32)
      × (frame_bits dfs (control dfs tmod 0x01) ≡ 7)
      × (mode_of tmod (control dfs tmod 0x01) ≡ 1)
control-send wide = (omega arith, refl, refl)
control-send narrow = (omega arith, refl, refl)

module _ (o : SpiOps) (dfs tmod : ℕ) (laws : SpiLaws o dfs tmod) where
  open o use {Spi, write, push}
  open laws use {held, chip, outgoing, room, patience}

  pub push_all-held :
      (h : SpiRegister) (ws : List ℕ) (s : Spi) → held h (push_all o ws s) ≡ held h s
  unfolding push_all
  push_all-held h [] s = refl
  push_all-held h (w ∷ ws) s = push_all-held h ws (push w s) ∙ laws.push-held h w s

  pub push_all-chip : (ws : List ℕ) (s : Spi) → held ser s ≡ 0 → chip (push_all o ws s) ≡ chip s
  unfolding push_all
  push_all-chip [] s off = refl
  push_all-chip (w ∷ ws) s off =
      push_all-chip ws (push w s) (laws.push-held ser w s ∙ off) ∙ laws.chip-push w s off

  pub push_all-outgoing :
      (ws : List ℕ) (s : Spi)
      → held ssienr s ≡ 1
      → length ws ≤ room s
      → (outgoing (push_all o ws s) ≡ outgoing s ++ ws)
        × (room s ≤ room (push_all o ws s) + length ws)
        × (patience (push_all o ws s) ≤ patience s)
  unfolding push_all
  push_all-outgoing [] s on h = (sym (append-nil (outgoing s)), omega arith, omega arith)
  push_all-outgoing (w ∷ ws) s on h =
      let (word, places, time) = laws.push-word s w on (omega (arith, h)) in
      let (words, left, later) =
        push_all-outgoing ws (push w s) (laws.push-held ssienr w s ∙ on)
          (omega (arith, h, places)) in
      (
        words ∙ ap (λ l. l ++ ws) word ∙ append_assoc (outgoing s) (w ∷ []) ws,
        omega (arith, places, left),
        omega (arith, time, later),
      )

  -- The command in the FIFO of a controller that was disabled before.
  module _ (cmd : List ℕ) (s : Spi) (disabled : held ssienr s ≡ 0) (short : length cmd ≤ 32) where
    abbrev pub loaded : Spi
    loaded = push_all o cmd (write ssienr 0x01 s)

    enabled : held ssienr (write ssienr 0x01 s) ≡ 1
    enabled = laws.ssienr-held 1 s (omega arith)

    pub loaded-enabled : held ssienr loaded ≡ 1
    loaded-enabled = push_all-held ssienr cmd (write ssienr 0x01 s) ∙ enabled

    pub loaded-held : (h : SpiRegister) → ssienr ≢ h → held h loaded ≡ held h s
    loaded-held h ne =
        push_all-held h cmd (write ssienr 0x01 s) ∙ laws.other-held ssienr h 0x01 s ne

    pub loaded-outgoing : outgoing loaded ≡ cmd
    loaded-outgoing =
        (push_all-outgoing cmd (write ssienr 0x01 s) enabled
          (omega (arith, short, (laws.enable s disabled).1))).0
        ∙ ap (λ l. l ++ cmd) (laws.enable s disabled).0

  pub release-held : (s : Spi) → (held ssienr (release o s) ≡ 0) × (held ser (release o s) ≡ 0)
  unfolding release
  release-held s = (
    laws.ssienr-held 0 (write ser 0x00 s) (omega arith),
    laws.other-held ssienr ser 0x00 (write ser 0x00 s) (λ e. absurd (cc e))
        ∙ laws.ser-held 0 s (omega arith),
  )
