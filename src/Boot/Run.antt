-- ===== src/Boot/Run.antt =====
-- `main` of src/main.c: the two checks, and when they return.
use k210_guard_bootloader.Prelude.{ℕ, ◌≡◌, refl, ◌∙◌, ◌↔◌, ◌⊎◌, inl, inr, none, some, List}
use k210_guard_bootloader.Prelude.Lists.{length}
use k210_guard_bootloader.Prelude.Memory.{Memory}
use k210_guard_bootloader.Flash.Ops.{FlashOps, FlashLaws}
use k210_guard_bootloader.Boot.{CipherOps, Layout, Machine, flash_image_check, choose_image, main}
use k210_guard_bootloader.Boot.Steps.{Reads}
use k210_guard_bootloader.Boot.Decipher.{CipherLaws}
use k210_guard_bootloader.Boot.Finished.{Finished, IsEndless, finished}
use k210_guard_bootloader.Boot.Compare.{flash_image_compare-Reads}
use k210_guard_bootloader.Boot.Choose.{IsLayout, compared, main-none_bak, main-none_app, main-some}

module _ (f : FlashOps) (laws : FlashLaws f) (c : CipherOps) (accelerator : ℕ → List ℕ → List ℕ)
    (cipher : CipherLaws c) (l : Layout) (is_layout : IsLayout l) (s : Machine f c)
    (buffer : length s.sha.context.buffer ≡ 64) where
  open laws use {content, IsReady}
  open l use {app, bak, next_size}

  abbrev m : Memory
  m = content s.flash

  -- The two checks, when both return.
  pub record Checks : Type 0 where
    pub bak_check :
        Finished f laws c accelerator s m bak next_size
          (flash_image_check f c accelerator s bak next_size)
    pub app_check :
        Finished f laws c accelerator bak_check.after m app next_size
          (flash_image_check f c accelerator bak_check.after app next_size)

  abbrev pub IsStuck : Type 0
  IsStuck = IsEndless accelerator next_size m bak ⊎ IsEndless accelerator next_size m app

  -- Each of the two checks returns unless its image is one that is deciphered for ever.
  pub checks : Checks ⊎ ((main f c accelerator l s ≡ none) × IsStuck)
  checks =
      elim (finished f laws c accelerator s m bak next_size refl buffer is_layout.bak_part.room
        is_layout.bak_part.in_chip cipher) [
          | inr (e, stuck) ↦ inr (main-none_bak f laws c accelerator l s e, inl stuck)
          | inl first ↦
              elim (finished f laws c accelerator first.after m app next_size first.reads.content
                first.reads.buffer is_layout.app_part.room is_layout.app_part.in_chip cipher) [
                  | inr (e, stuck) ↦
                      inr (main-none_app f laws c accelerator l s _ _ first.returns e, inr stuck)
                  | inl second ↦ inl (record { bak_check = first; app_check = second })
                ]
        ]

  module _ (h : Checks) where
    abbrev pub t : Machine f c
    t = (compared f laws c accelerator l h.app_check.after).1

    pub main-eq :
        main f c accelerator l s
        ≡ some
            (choose_image f c accelerator l h.bak_check.result h.app_check.result h.app_check.after)
    main-eq = main-some f laws c accelerator l s _ _ _ _ h.bak_check.returns h.app_check.returns

    pub t-Reads : Reads f laws c s t
    t-Reads =
        let r = h.app_check.reads in
        let u =
          flash_image_compare-Reads f laws c accelerator h.app_check.after app bak r.ready
            r.buffer in
        record {
          content = u.content ∙ r.content ∙ h.bak_check.reads.content;
          ready = u.ready;
          keys = u.keys ∙ r.keys ∙ h.bak_check.reads.keys;
          buffer = u.buffer;
        }

    not_stuck : ¬ IsStuck
    not_stuck (inl e) = h.bak_check.ended e
    not_stuck (inr e) = h.app_check.ended e

  -- In a layout of two whole partitions `main` does not return exactly if one of the two images
  -- is valid, asks to be deciphered, and is no whole number of blocks of 16 bytes long.
  pub main-none : (main f c accelerator l s ≡ none) ↔ IsStuck
  main-none = elim checks [
    | inl h ↦ (λ e. absurd (cc (e, main-eq h)), λ stuck. absurd (not_stuck h stuck))
    | inr (e, stuck) ↦ (λ _. stuck, λ _. e)
  ]
