-- ===== src/Boot/Repair.antt =====
-- What `flash_image_backup` of src/main.c does to the flash and to RAM.
use k210_guard_bootloader.Prelude.{
  ℕ, zero, suc, ◌+◌, ◌*◌, ◌≤◌, ◌<◌, ◌≡◌, sym, ap, ◌∙◌, true, false, List, arith,
}
use k210_guard_bootloader.Prelude.Lists.{length, get_or}
use k210_guard_bootloader.Prelude.Memory.{Memory, span, store, within, span-store_self, length-span}
use k210_guard_bootloader.Flash.{sectors_of}
use k210_guard_bootloader.Flash.Ops.{FlashOps, FlashLaws}
use k210_guard_bootloader.Flash.Content.{programmed-outside, programmed-ones}
use k210_guard_bootloader.Flash.Erase.{wiped, NoKey}
use k210_guard_bootloader.Boot.{CipherOps, Machine, flash_image_backup}
use k210_guard_bootloader.Boot.Image.{image_length}
use k210_guard_bootloader.Boot.Copy.{
  CanCopy, t4, backup-content, backup-ram, erased_part, erase-success, sectors_of_bounds,
}

wiped-outside : (m : Memory) (a n x : ℕ) → within a n x ≡ false → wiped m a n x ≡ m x
unfolding wiped
wiped-outside m a n x h = rw h

wiped-inside : (m : Memory) (a n x : ℕ) → within a n x ≡ true → wiped m a n x ≡ 0xff
unfolding wiped
wiped-inside m a n x h = rw h

get_or-span_lt : (m : Memory) (a n i : ℕ) → ((x : ℕ) → m x < 256) → get_or (span m a n) i 0 < 256
unfolding span
get_or-span_lt m a zero i h = omega arith
get_or-span_lt m a (suc n) zero h = h a
get_or-span_lt m a (suc n) (suc i) h = get_or-span_lt m (a + 1) n i h

module _ (f : FlashOps) (laws : FlashLaws f) (c : CipherOps) (accelerator : ℕ → List ℕ → List ℕ)
    (s : Machine f c) (from to size : ℕ) (h : CanCopy f laws c accelerator s from to size) where
  open laws use {content}

  abbrev m : Memory
  m = content s.flash

  abbrev len : ℕ
  len = image_length m from

  abbrev erased_flash : Memory
  erased_flash = content (t4 f laws c accelerator s from to size h)

  bounds : (len + 37 ≤ 4096 * sectors_of (len + 37)) × (4096 * sectors_of (len + 37) ≤ size)
  bounds = sectors_of_bounds (len + 37) size h.whole h.fits

  -- Between partitions in the chip, with a destination of whole sectors, and whatever keys are
  -- pressed, `flash_image_backup` of an image that fits changes no byte outside the
  -- destination.
  pub flash_image_backup-outside :
      (x : ℕ)
      → within to size x ≡ false
      → content (flash_image_backup f c accelerator s from to).flash x ≡ m x
  flash_image_backup-outside x out =
      let p = erased_part f laws c accelerator s from to size h in
      ap (λ (k : Memory). k x) (backup-content f laws c accelerator s from to size h)
      ∙ programmed-outside erased_flash to (span m from (len + 37)) x
          (ground (arith, out, h.fits, length-span m from (len + 37)))
      ∙ ap (λ (k : Memory). k x) p.content
      ∙ wiped-outside m to (4096 * p.done) x (ground (arith, out, bounds.1, p.within_total))

  -- Between partitions in the chip, with a destination of whole sectors and no key pressed,
  -- `flash_image_backup` of an image that fits leaves the same image in the destination: its
  -- flag, length, codes and checksum are those that the source had.
  pub flash_image_backup-copies :
      NoKey s.keys
      → span (content (flash_image_backup f c accelerator s from to).flash) to (len + 37)
        ≡ span m from (len + 37)
  flash_image_backup-copies quiet =
      ap (λ (k : Memory). span k to (len + 37))
        (backup-content f laws c accelerator s from to size h
          ∙ programmed-ones erased_flash to (span m from (len + 37)) ones
              (λ i. get_or-span_lt m from (len + 37) i (laws.content-lt s.flash)))
      ∙ ap (span (store erased_flash to (span m from (len + 37))) to)
          (sym (length-span m from (len + 37)))
      ∙ span-store_self erased_flash to (span m from (len + 37))
    where
      ones : (x : ℕ) → within to (length (span m from (len + 37))) x ≡ true → erased_flash x ≡ 0xff
      ones x inside =
          let p = erased_part f laws c accelerator s from to size h in
          let all = p.complete (erase-success f laws c accelerator s from to size h quiet) in
          ap (λ (k : Memory). k x) p.content
          ∙ wiped-inside m to (4096 * p.done) x
              (ground (arith, inside, bounds.0, all, length-span m from (len + 37)))

  -- RAM then starts with the codes and the checksum as flash holds them: an image that is
  -- encrypted is not deciphered.
  pub flash_image_backup-ram :
      (flash_image_backup f c accelerator s from to).ram
      ≡ store s.ram 0 (span m (from + 5) (len + 32))
  flash_image_backup-ram = backup-ram f laws c accelerator s from to size h
