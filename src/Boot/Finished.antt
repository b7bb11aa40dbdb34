-- ===== src/Boot/Finished.antt =====
-- The two ways `flash_image_check` of src/main.c goes: it returns, or it deciphers for ever.
use k210_guard_bootloader.Prelude.{
  ℕ, ◌+◌, ◌%◌, ◌≤◌, bit_and, ◌≡◌, ◌≢◌, refl, subst, ◌⊎◌, inl, inr, Option, none, some, List, arith,
}
use k210_guard_bootloader.Prelude.Lists.{length}
use k210_guard_bootloader.Prelude.Memory.{Memory, store}
use k210_guard_bootloader.Flash.Ops.{FlashOps, FlashLaws, capacity}
use k210_guard_bootloader.Boot.{
  CipherOps, CheckResult, pass, oversize, sha256_mismatch, Machine, flash_image_check,
}
use k210_guard_bootloader.Boot.Image.{image_length, image_codes, IsImage}
use k210_guard_bootloader.Boot.Steps.{Reads}
use k210_guard_bootloader.Boot.Decipher.{CipherLaws}
use k210_guard_bootloader.Boot.Check.{
  Verdict, too_long, unsigned, plain, deciphered, endless, flash_image_check-Verdict,
}

-- An image that passes the checksum, is to be deciphered, and is no whole number of blocks.
pub record IsEndless (accelerator : ℕ → List ℕ → List ℕ) (size : ℕ) (m : Memory) (a : ℕ)
    : Type 0 where
  pub image : IsImage accelerator size m a
  pub encrypted : bit_and (m a) 1 ≡ 1
  pub ragged : image_length m a % 16 ≢ 0

module _ (f : FlashOps) (laws : FlashLaws f) (c : CipherOps)
    (accelerator : ℕ → List ℕ → List ℕ) where
  -- A check that returned, of the image at `a` in the content `m`.
  pub record Finished (s : Machine f c) (m : Memory) (a size : ℕ)
      (o : Option (CheckResult × Machine f c)) : Type 0 where
    pub after : Machine f c
    pub result : CheckResult
    pub returns : o ≡ some (result, after)
    pub reads : Reads f laws c s after
    pub sound : result ≡ pass → IsImage accelerator size m a
    pub complete : IsImage accelerator size m a → result ≡ pass
    pub ended : ¬ IsEndless accelerator size m a
    pub plain_ram :
        IsImage accelerator size m a
        → bit_and (m a) 1 ≡ 0
        → after.ram ≡ store s.ram 0 (image_codes m a)

  sort_out :
      (s : Machine f c) (a size : ℕ) (o : Option (CheckResult × Machine f c))
      → Verdict f laws c accelerator s a size o
      → Finished s (FlashLaws.content laws s.flash) a size o
        ⊎ ((o ≡ none) × IsEndless accelerator size (FlashLaws.content laws s.flash) a)
  sort_out s a size o (too_long t e long reads ram) = inl (record {
    after = t;
    result = oversize;
    returns = e;
    reads = reads;
    sound = λ bad. absurd (cc bad);
    complete = λ image. absurd (omega (arith, long, image.fits));
    ended = λ stuck. absurd (omega (arith, long, stuck.image.fits));
    plain_ram = λ image _. absurd (omega (arith, long, image.fits));
  })
  sort_out s a size o (unsigned t e short differ reads ram) = inl (record {
    after = t;
    result = sha256_mismatch;
    returns = e;
    reads = reads;
    sound = λ bad. absurd (cc bad);
    complete = λ image. absurd (differ image.signed);
    ended = λ stuck. absurd (differ stuck.image.signed);
    plain_ram = λ image _. absurd (differ image.signed);
  })
  sort_out s a size o (plain t e image even reads ram) = inl (record {
    after = t;
    result = pass;
    returns = e;
    reads = reads;
    sound = λ _. image;
    complete = λ _. refl;
    ended = λ stuck. absurd (omega (arith, even, stuck.encrypted));
    plain_ram = λ _ _. ram;
  })
  sort_out s a size o (deciphered t blocks e image odd whole reads ram) = inl (record {
    after = t;
    result = pass;
    returns = e;
    reads = reads;
    sound = λ _. image;
    complete = λ _. refl;
    ended = λ stuck. stuck.ragged (omega (arith, whole));
    plain_ram = λ _ even. absurd (omega (arith, odd, even));
  })
  sort_out s a size o (endless e image odd ragged) =
      inr (e, record { image = image; encrypted = odd; ragged = ragged })

  -- The check of the image at `a`, where the flash's content is `m`.
  pub finished :
      (s : Machine f c) (m : Memory) (a size : ℕ)
      → FlashLaws.content laws s.flash ≡ m
      → length s.sha.context.buffer ≡ 64
      → 37 ≤ size
      → a + size ≤ capacity
      → CipherLaws c
      → Finished s m a size (flash_image_check f c accelerator s a size)
        ⊎ ((flash_image_check f c accelerator s a size ≡ none) × IsEndless accelerator size m a)
  finished s m a size same buffer room fits cipher =
      subst
        (λ (k : Memory).
          Finished s k a size (flash_image_check f c accelerator s a size)
          ⊎ ((flash_image_check f c accelerator s a size ≡ none) × IsEndless accelerator size k a))
        same
        (sort_out s a size _
          (flash_image_check-Verdict f laws c accelerator s a size buffer room fits cipher))
