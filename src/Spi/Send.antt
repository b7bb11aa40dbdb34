-- ===== src/Spi/Send.antt =====
-- `flash_send_data` of src/drivers/flash.c returns when the chip has every word, in the order of the
-- command and the data, at whatever pace the FIFO takes them.
use k210_guard_bootloader.Prelude.{
  ℕ, zero, suc, ◌+◌, ◌-◌, ◌^◌, ◌≤◌, ◌<◌, bit_and, ◌≡◌, refl, sym, ap, ◌∙◌, inl, inr, some, List, [],
  ◌∷◌, ◌++◌, append-nil, append_assoc, arith,
}
use k210_guard_bootloader.Prelude.Tests.{◌==◌, Bool-cases}
use k210_guard_bootloader.Prelude.Lists.{
  length, take, drop, length-take, length-drop, take-append-drop,
}
use k210_guard_bootloader.Spi.{
  SpiOps, SpiRegister, ctrlr0, ssienr, ser, smaller, push_all, fill_fifo, send_loop, drain_loop,
  release, flash_send_data_enhanced, flash_send_data,
}
use k210_guard_bootloader.Spi.Laws.{frame_bits, mode_of, IsPort, SpiLaws}
use k210_guard_bootloader.Spi.Start.{
  control, control-send, push_all-held, push_all-outgoing, loaded, loaded-enabled, loaded-held,
  loaded-outgoing, release-held,
}
use k210_guard_bootloader.Prelude.Words.{u32}
use k210_guard_bootloader.Spi.Receive.{smaller_left, smaller_zero, equal, unequal}

nil_only : (xs : List ℕ) → length xs ≡ 0 → xs ≡ []
nil_only [] h = refl
nil_only (x ∷ xs) h = absurd (omega (arith, h))

module _ (o : SpiOps) (dfs tmod : ℕ) (laws : SpiLaws o dfs tmod) where
  open o use {Spi, write, txflr, sr}
  open laws use {held, outgoing, room, shifted, patience, longest}

  -- Enabled, in mode 1 with frames of 8 bits, and with the chip selected.
  record IsActive (s : Spi) : Type 0 where
    on : held ssienr s ≡ 1
    selected : held ser s ≡ 1
    bits : frame_bits dfs (held ctrlr0 s) ≡ 7
    mode : mode_of tmod (held ctrlr0 s) ≡ 1

  IsActive-held : {s t : Spi} → ((h : SpiRegister) → held h t ≡ held h s) → IsActive s → IsActive t
  IsActive-held same h = record {
    on = same ssienr ∙ h.on;
    selected = same ser ∙ h.selected;
    bits = ap (frame_bits dfs) (same ctrlr0) ∙ h.bits;
    mode = ap (mode_of tmod) (same ctrlr0) ∙ h.mode;
  }

  -- One filling of the FIFO from a state with the data `xs` left.
  module _ (xs : List ℕ) (s : Spi) (enabled : held ssienr s ≡ 1) where
    abbrev places : ℕ
    places = u32 (32 + 2 ^ 32 - (txflr s).0)

    places_left : places ≡ 32 - (txflr s).0
    places_left = omega (arith, laws.txflr-level s)

    abbrev n : ℕ
    n = smaller places (length xs)

    filled :
        (outgoing (push_all o (take n xs) (txflr s).1) ≡ outgoing (txflr s).1 ++ take n xs)
        × (room (txflr s).1 ≤ room (push_all o (take n xs) (txflr s).1) + length (take n xs))
        × (patience (push_all o (take n xs) (txflr s).1) ≤ patience (txflr s).1)
    filled =
        push_all-outgoing o dfs tmod laws (take n xs) (txflr s).1
          (laws.txflr-held ssienr s ∙ enabled)
          (omega (
            arith,
            length-take n xs,
            smaller_left places (length xs),
            places_left,
            laws.txflr-room s,
          ))

    fill_fifo-outgoing : outgoing (fill_fifo o xs s).1 ++ (fill_fifo o xs s).0 ≡ outgoing s ++ xs
    unfolding fill_fifo
    fill_fifo-outgoing =
        ap (λ l. l ++ drop n xs) (filled.0 ∙ ap (λ l. l ++ take n xs) (laws.txflr-outgoing s))
        ∙ append_assoc (outgoing s) (take n xs) (drop n xs)
        ∙ ap (λ l. outgoing s ++ l) (take-append-drop n xs)

    fill_fifo-held : (h : SpiRegister) → held h (fill_fifo o xs s).1 ≡ held h s
    unfolding fill_fifo
    fill_fifo-held h = push_all-held o dfs tmod laws h (take n xs) (txflr s).1 ∙ laws.txflr-held h s

    fill_fifo-shorter : length (fill_fifo o xs s).0 ≤ length xs
    unfolding fill_fifo
    fill_fifo-shorter = omega (arith, length-drop n xs)

    fill_fifo-sooner :
        IsActive s
        → 0 < length xs
        → patience (fill_fifo o xs s).1 + length (fill_fifo o xs s).0 < patience s + length xs
    unfolding fill_fifo
    fill_fifo-sooner active some_left = elim (Bool-cases (n == 0)) [
      | inl stuck ↦ omega (
        arith,
        filled.2,
        length-drop n xs,
        laws.txflr-progress s active.on active.selected active.mode
            (omega (arith, places_left, smaller_zero places (length xs) some_left (equal n stuck))),
      )
      | inr moved ↦
          omega
            (arith, filled.2, length-drop n xs, laws.txflr-patience s, unequal n moved, some_left)
    ]

  send_loop-returns :
      (fuel : ℕ) (xs : List ℕ) (s : Spi)
      → IsActive s
      → patience s + length xs < fuel
      → (t : Spi) × ((send_loop o fuel xs s ≡ some t)
          × (outgoing t ≡ outgoing s ++ xs)
          × IsActive t)
  unfolding send_loop
  send_loop-returns zero xs s active enough = absurd (omega (arith, enough))
  send_loop-returns (suc fuel) xs s active enough = elim (Bool-cases (length xs == 0)) [
    | inl done ↦ rw done (
      s,
      (
        refl,
        sym (
            ap (λ l. outgoing s ++ l) (nil_only xs (equal (length xs) done))
            ∙ append-nil (outgoing s)),
        active,
      ),
    )
    | inr more ↦ rw more (
        let (t, (e, out, still)) =
          send_loop-returns fuel (fill_fifo o xs s).0 (fill_fifo o xs s).1
            (IsActive-held (fill_fifo-held xs s active.on) active)
            (omega
              (arith, enough, fill_fifo-sooner xs s active.on active (unequal (length xs) more))) in
        (t, (e, out ∙ fill_fifo-outgoing xs s active.on, still)))
  ]

  drain_loop-returns :
      (fuel : ℕ) (s : Spi)
      → IsActive s
      → patience s < fuel
      → (t : Spi) × ((drain_loop o fuel s ≡ some t) × (shifted t ≡ outgoing s))
  unfolding drain_loop
  drain_loop-returns zero s active enough = absurd (omega (arith, enough))
  drain_loop-returns (suc fuel) s active enough =
      elim (Bool-cases (bit_and (sr s).0 0x05 == 0x04)) [
        | inl done ↦ rw done (
          (sr s).1,
          (
            refl,
            laws.sr-shifted s active.on active.selected active.bits active.mode
                  (ground (arith, done))
                ∙ laws.sr-outgoing s,
          ),
        )
        | inr more ↦ rw more (
            let (t, (e, out)) =
              drain_loop-returns fuel (sr s).1 (IsActive-held (λ h. laws.sr-held h s) active) (
                omega (
                  arith,
                  enough,
                  laws.sr-progress s active.on active.selected active.mode
                      (λ e. absurd (ground (arith, e, more))),
                )) in
            (t, (e, out ∙ laws.sr-outgoing s)))
      ]

  enhanced-returns :
      (fuel : ℕ) (cmd tx : List ℕ) (s : Spi)
      → held ssienr s ≡ 0
      → frame_bits dfs (held ctrlr0 s) ≡ 7
      → mode_of tmod (held ctrlr0 s) ≡ 1
      → length cmd ≤ 32
      → longest + length tx < fuel
      → (t : Spi) × ((flash_send_data_enhanced o fuel cmd tx s ≡ some (release o t))
          × (shifted t ≡ cmd ++ tx))
  unfolding flash_send_data_enhanced
  enhanced-returns fuel cmd tx s disabled bits mode short enough =
      let start = loaded o dfs tmod laws cmd s disabled short in
      let on = loaded-enabled o dfs tmod laws cmd s disabled short in
      let first = fill_fifo o tx start in
      let first_on = fill_fifo-held tx start on ssienr ∙ on in
      let control_held =
        laws.other-held ser ctrlr0 0x01 first.1 (λ e. absurd (cc e))
        ∙ fill_fifo-held tx start on ctrlr0
        ∙ loaded-held o dfs tmod laws cmd s disabled short ctrlr0 (λ e. absurd (cc e)) in
      let active : IsActive (write ser 0x01 first.1) = record {
        on = laws.other-held ser ssienr 0x01 first.1 (λ e. absurd (cc e)) ∙ first_on;
        selected = laws.ser-held 1 first.1 (omega arith);
        bits = ap (frame_bits dfs) control_held ∙ bits;
        mode = ap (mode_of tmod) control_held ∙ mode;
      } in
      let (t, (et, out, still)) = send_loop-returns fuel first.0 (write ser 0x01 first.1) active (
        omega (
          arith,
          enough,
          laws.patience-le (write ser 0x01 first.1),
          fill_fifo-shorter tx start on,
        )) in
      let (v, (ev, reached)) =
        drain_loop-returns fuel t still (omega (arith, enough, laws.patience-le t)) in
      (
        v,
        (
          rw (et, ev) refl,
          reached
              ∙ out
              ∙ ap (λ l. l ++ first.0) (laws.select first.1 first_on)
              ∙ fill_fifo-outgoing tx start on
              ∙ ap (λ l. l ++ tx) (loaded-outgoing o dfs tmod laws cmd s disabled short),
        ),
      )

  -- On a controller that is disabled, at the offsets of one of the chip's controllers, whose
  -- transmit FIFO stands still for a bounded number of polls, with fuel for more polls than
  -- that and the bytes to send, and a command of 32 words at most: `flash_send_data` returns,
  -- and when it releases the chip, the words of the command and the data have reached the chip,
  -- all and in their order; the controller is then disabled and the chip released.
  pub flash_send_data-returns :
      (fuel : ℕ) (cmd tx : List ℕ) (s : Spi)
      → IsPort dfs tmod
      → held ssienr s ≡ 0
      → length cmd ≤ 32
      → longest + length tx < fuel
      → (t : Spi) × ((flash_send_data o fuel dfs tmod cmd tx s ≡ some (release o t))
          × (shifted t ≡ cmd ++ tx)
          × (held ssienr (release o t) ≡ 0)
          × (held ser (release o t) ≡ 0))
  unfolding flash_send_data
  flash_send_data-returns fuel cmd tx s port disabled short enough =
      let (small, bits, mode) = control-send port in
      let m = control dfs tmod 0x01 in
      let set = laws.ctrlr0-held m s disabled small in
      let (t, (e, reached)) =
        enhanced-returns fuel cmd tx (write ctrlr0 m s)
          (laws.other-held ctrlr0 ssienr m s (λ e. absurd (cc e)) ∙ disabled)
          (ap (frame_bits dfs) set ∙ bits) (ap (mode_of tmod) set ∙ mode) short enough in
      let (idle, deselected) = release-held o dfs tmod laws t in (t, (e, reached, idle, deselected))
