-- ===== src/Boot/Settled.antt =====
-- `main` of src/main.c once both checks have returned.
use k210_guard_bootloader.Prelude.{
  ℕ, ◌+◌, ◌≤◌, bit_and, ◌≡◌, ◌≢◌, refl, sym, ap, subst, ◌∙◌, fun_ext, inl, inr, Bool, false, some,
  List, arith,
}
use k210_guard_bootloader.Prelude.Tests.{Bool-cases}
use k210_guard_bootloader.Prelude.Lists.{length}
use k210_guard_bootloader.Prelude.Memory.{
  Memory, span, store, span-store_self, length-span, store-span,
}
use k210_guard_bootloader.Flash.Ops.{FlashOps, FlashLaws, capacity}
use k210_guard_bootloader.Flash.Erase.{NoKey}
use k210_guard_bootloader.Boot.{
  CipherOps, pass, go_boot, outcome_of, Layout, Machine, equal_bytes, choose_image, main,
}
use k210_guard_bootloader.Boot.Image.{image_length, image_codes, IsImage}
use k210_guard_bootloader.Boot.Steps.{Reads}
use k210_guard_bootloader.Boot.Decipher.{CipherLaws}
use k210_guard_bootloader.Boot.Check.{equal_bytes-eq}
use k210_guard_bootloader.Boot.Compare.{
  sign_address, stored_sign, flash_image_compare-ram, flash_image_compare_lem,
}
use k210_guard_bootloader.Boot.Choose.{IsLayout, compared}
use k210_guard_bootloader.Boot.Run.{Checks, IsStuck, checks, main-eq, t-Reads, t}

module _ (f : FlashOps) (laws : FlashLaws f) (c : CipherOps) (accelerator : ℕ → List ℕ → List ℕ)
    (cipher : CipherLaws c) (l : Layout) (is_layout : IsLayout l) (s : Machine f c)
    (buffer : length s.sha.context.buffer ≡ 64)
    (returns : ¬ IsStuck f laws c accelerator cipher l is_layout s buffer) where
  open laws use {content, IsReady}
  open l use {app, bak, next_size}

  abbrev pub m : Memory
  m = content s.flash

  pub both : Checks f laws c accelerator cipher l is_layout s buffer
  both = elim (checks f laws c accelerator cipher l is_layout s buffer) [
    | inl h ↦ h
    | inr (_, stuck) ↦ absurd (returns stuck)
  ]

  abbrev pub after : Machine f c
  after = both.app_check.after

  abbrev pub u : Machine f c
  u = t f laws c accelerator cipher l is_layout s buffer both

  pub reads : Reads f laws c s u
  reads = t-Reads f laws c accelerator cipher l is_layout s buffer both

  pub run :
      main f c accelerator l s
      ≡ some (choose_image f c accelerator l both.bak_check.result both.app_check.result after)
  run = main-eq f laws c accelerator cipher l is_layout s buffer both

  abbrev pub same : Bool
  same = (compared f laws c accelerator l after).0

  pub pass_boots : outcome_of pass ≡ go_boot
  unfolding outcome_of
  pass_boots = refl

  pub same_ram :
      IsImage accelerator next_size m app
      → bit_and (m app) 1 ≡ 0
      → span u.ram 0 (image_length m app) ≡ image_codes m app
  unfolding image_codes
  same_ram image plain =
      ap (λ (r : Memory). span r 0 (image_length m app))
        (flash_image_compare-ram f laws c accelerator after app bak
          ∙ both.app_check.plain_ram image plain)
      ∙ ap (span (store both.bak_check.after.ram 0 (image_codes m app)) 0)
          (sym (length-span m (app + 5) (image_length m app)))
      ∙ span-store_self both.bak_check.after.ram 0 (image_codes m app)

  -- The comparison before a repair, when the places it looks at are in the chip
  pub same-eq :
      sign_address m app + 32 ≤ capacity
      → sign_address m bak + 32 ≤ capacity
      → same ≡ equal_bytes (stored_sign m app) (stored_sign m bak)
  same-eq app_in bak_in =
      flash_image_compare_lem f laws c accelerator after app bak both.app_check.reads.ready
        (omega (arith, is_layout.app_part.room, is_layout.app_part.in_chip))
        (omega (arith, is_layout.bak_part.room, is_layout.bak_part.in_chip)) (at_m app app_in)
        (at_m bak bak_in)
      ∙ ap (λ (k : Memory). equal_bytes (stored_sign k app) (stored_sign k bak)) content-after
    where
      content-after : content after.flash ≡ m
      content-after = both.app_check.reads.content ∙ both.bak_check.reads.content

      at_m :
          (a : ℕ)
          → sign_address m a + 32 ≤ capacity
          → sign_address (content after.flash) a + 32 ≤ capacity
      at_m a = subst (λ (k : Memory). sign_address k a + 32 ≤ capacity) (sym content-after)

  pub differ-eq :
      sign_address m app + 32 ≤ capacity
      → sign_address m bak + 32 ≤ capacity
      → stored_sign m app ≢ stored_sign m bak
      → same ≡ false
  differ-eq app_in bak_in differ = elim (Bool-cases same) [
    | inl e ↦ absurd (differ (equal_bytes-eq _ _ (sym (same-eq app_in bak_in) ∙ e)))
    | inr e ↦ e
  ]

  pub quiet_keys : NoKey s.keys → NoKey u.keys
  quiet_keys = subst NoKey (sym reads.keys)

  pub kept : content u.flash ≡ store m bak (span (content u.flash) bak next_size)
  kept =
      subst (λ (k : Memory). k ≡ store m bak (span k bak next_size)) (sym reads.content)
        (fun_ext λ x. sym (store-span m bak next_size x))
