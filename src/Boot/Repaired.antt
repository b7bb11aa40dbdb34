-- ===== src/Boot/Repaired.antt =====
-- What a repair by `flash_image_backup` of src/main.c leaves, in the terms of the content before.
use k210_guard_bootloader.Prelude.{
  ℕ, ◌+◌, ◌-◌, ◌%◌, ◌≤◌, ◌≡◌, sym, ap, ap₂, subst, ◌∙◌, fun_ext, ◌⊎◌, inl, inr, false, List, ◌∷◌,
  ◌++◌, arith,
}
use k210_guard_bootloader.Prelude.Tests.{Bool-cases}
use k210_guard_bootloader.Prelude.Words.{bytes_of32, word32}
use k210_guard_bootloader.Prelude.Memory.{
  Memory, span, store, within, length-span, get_or-span, span_cong, span_point, span_part,
  span-store_prefix,
}
use k210_guard_bootloader.Flash.Ops.{FlashOps, FlashLaws, capacity}
use k210_guard_bootloader.Flash.Erase.{NoKey}
use k210_guard_bootloader.Boot.{CipherOps, Machine, flash_image_backup}
use k210_guard_bootloader.Boot.Image.{
  image_length, image_codes, image_sign, image_message, checksum, IsImage,
}
use k210_guard_bootloader.Boot.Copy.{CanCopy}
use k210_guard_bootloader.Boot.Repair.{
  flash_image_backup-outside, flash_image_backup-copies, flash_image_backup-ram,
}

module _ (accelerator : ℕ → List ℕ → List ℕ) (k m : Memory) (to from size : ℕ)
    (e : span k to (image_length m from + 37) ≡ span m from (image_length m from + 37)) where
  image_length-copy : image_length k to ≡ image_length m from
  unfolding image_length
  image_length-copy = ap word32 (span_part k m to from _ e 1 4 (omega arith))

  image_codes-copy : image_codes k to ≡ image_codes m from
  unfolding image_codes
  image_codes-copy =
      ap (span k (to + 5)) image_length-copy
      ∙ span_part k m to from _ e 5 (image_length m from) (omega arith)

  image_sign-copy : image_sign k to ≡ image_sign m from
  unfolding image_sign
  image_sign-copy =
      ap (λ (x : ℕ). span k x 32) at
      ∙ span_part k m to from _ e (5 + image_length m from) 32 (omega arith)
      ∙ ap (λ (x : ℕ). span m x 32) (omega arith)
    where
      at : to + 5 + image_length k to ≡ to + (5 + image_length m from)
      at = omega (arith, image_length-copy)

  image_message-copy : image_message k to ≡ image_message m from
  unfolding image_message
  image_message-copy = ap₂ ◌∷◌ first (ap₂ ◌++◌ (ap bytes_of32 image_length-copy) image_codes-copy)
    where
      first : k to ≡ m from
      first = ap k (omega arith) ∙ span_point k m to from _ e 0 (omega arith) ∙ ap m (omega arith)

  -- A copy of an image is one.
  pub IsImage-copy : IsImage accelerator size m from → IsImage accelerator size k to
  IsImage-copy image = record {
    fits = omega (arith, image_length-copy, image.fits);
    signed = image_sign-copy ∙ image.signed ∙ ap (checksum accelerator) (sym image_message-copy);
  }

-- A partition of `size` bytes at `a`, of whole sectors in the chip
pub record IsPartition (size a : ℕ) : Type 0 where
  pub room : 37 ≤ size
  pub in_chip : a + size ≤ capacity
  pub aligned : a % 4096 ≡ 0
  pub whole : size % 4096 ≡ 0

module _ (f : FlashOps) (laws : FlashLaws f) (c : CipherOps) (accelerator : ℕ → List ℕ → List ℕ)
    (s : Machine f c) (m : Memory) (from to size : ℕ) (same : FlashLaws.content laws s.flash ≡ m)
    (ready : FlashLaws.IsReady laws s.flash) (here : IsPartition size from)
    (there : IsPartition size to) (image : IsImage accelerator size m from) where
  open laws use {content}

  abbrev after : Machine f c
  after = flash_image_backup f c accelerator s from to

  can_copy : CanCopy f laws c accelerator s from to size
  can_copy = record {
    ready = ready;
    fits = subst (λ (k : Memory). image_length k from + 37 ≤ size) (sym same) image.fits;
    from_in = here.in_chip;
    to_in = there.in_chip;
    aligned = there.aligned;
    whole = there.whole;
  }

  pub repaired-outside : (x : ℕ) → within to size x ≡ false → content after.flash x ≡ m x
  repaired-outside x out =
      flash_image_backup-outside f laws c accelerator s from to size can_copy x out
      ∙ ap (λ (k : Memory). k x) same

  -- The content changes in the destination at most.
  pub repaired-store : content after.flash ≡ store m to (span (content after.flash) to size)
  unfolding store
  repaired-store = fun_ext λ x. elim (Bool-cases (within to size x)) [
    | inl inside ↦
        rw (ap (λ (n : ℕ). within to n x) (length-span (content after.flash) to size) ∙ inside) (
          sym (
            get_or-span (content after.flash) to size (x - to) 0 (ground (arith, inside))
            ∙ ap (content after.flash) (ground (arith, inside))))
    | inr outside ↦
        rw (ap (λ (n : ℕ). within to n x) (length-span (content after.flash) to size) ∙ outside)
          (repaired-outside x outside)
  ]

  -- An image in a partition that the destination does not overlap stays.
  pub repaired-other :
      (a : ℕ)
      → (a + size ≤ to) ⊎ (to + size ≤ a)
      → IsImage accelerator size m a
      → IsImage accelerator size (content after.flash) a
  repaired-other a apart other =
      IsImage-copy accelerator (content after.flash) m a a size
        (span_cong (content after.flash) m a (image_length m a + 37)
          (λ x p q. repaired-outside x (ground (arith, apart, other.fits))))
        other

  pub repaired-span :
      NoKey s.keys
      → span (content after.flash) to (image_length m from + 37)
        ≡ span m from (image_length m from + 37)
  repaired-span quiet =
      subst
        (λ (k : Memory).
          span (content after.flash) to (image_length k from + 37)
          ≡ span k from (image_length k from + 37))
        same (flash_image_backup-copies f laws c accelerator s from to size can_copy quiet)

  pub repaired-IsImage : NoKey s.keys → IsImage accelerator size (content after.flash) to
  repaired-IsImage quiet =
      IsImage-copy accelerator (content after.flash) m to from size (repaired-span quiet) image

  pub repaired-ram : span after.ram 0 (image_length m from) ≡ image_codes m from
  unfolding image_codes
  repaired-ram =
      ap (λ (r : Memory). span r 0 (image_length m from))
        (subst
          (λ (k : Memory). after.ram ≡ store s.ram 0 (span k (from + 5) (image_length k from + 32)))
          same (flash_image_backup-ram f laws c accelerator s from to size can_copy))
      ∙ span-store_prefix s.ram m 0 (from + 5) (image_length m from) 32
