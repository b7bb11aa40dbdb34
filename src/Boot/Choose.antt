-- ===== src/Boot/Choose.antt =====
-- `main` of src/main.c after the two checks: which image is booted and which is repaired.
use k210_guard_bootloader.Prelude.{
  ℕ, ◌+◌, ◌≤◌, ◌≡◌, ◌≢◌, refl, ap, ◌∙◌, inl, inr, Bool, true, false, Option, none, some, List,
}
use k210_guard_bootloader.Prelude.Tests.{Bool-cases}
use k210_guard_bootloader.Flash.Ops.{FlashOps, FlashLaws}
use k210_guard_bootloader.Boot.{
  CipherOps, CheckResult, pass, oversize, sha256_mismatch, Outcome, go_boot, exit_abnormal,
  outcome_of, Layout, Machine, flash_image_check, flash_image_compare, flash_image_backup,
  choose_image, main,
}
use k210_guard_bootloader.Boot.Repaired.{IsPartition}

-- The two partitions of a layout
pub record IsLayout (l : Layout) : Type 0 where
  pub app_part : IsPartition l.next_size l.app
  pub bak_part : IsPartition l.next_size l.bak
  pub apart : l.app + l.next_size ≤ l.bak

pub outcome_of-failed : (r : CheckResult) → r ≢ pass → outcome_of r ≡ exit_abnormal
unfolding outcome_of
outcome_of-failed pass bad = absurd (bad refl)
outcome_of-failed oversize bad = refl
outcome_of-failed sha256_mismatch bad = refl

module _ (f : FlashOps) (laws : FlashLaws f) (c : CipherOps) (accelerator : ℕ → List ℕ → List ℕ)
    (l : Layout) where
  open laws use {content, IsReady}

  -- Whether the two stored checksums are found to be the same, and the machine after that
  abbrev pub compared : Machine f c → Bool × Machine f c
  compared s = flash_image_compare f c accelerator s l.app l.bak

  pub choose-same :
      (s : Machine f c) (bak app : CheckResult)
      → (compared s).0 ≡ true
      → choose_image f c accelerator l bak app s ≡ (outcome_of app, (compared s).1)
  unfolding choose_image
  choose-same s bak app same = rw same refl

  pub choose-app :
      (s : Machine f c) (bak app : CheckResult)
      → (compared s).0 ≡ false
      → app ≡ pass
      → choose_image f c accelerator l bak app s
        ≡ (go_boot, flash_image_backup f c accelerator (compared s).1 l.app l.bak)
  unfolding choose_image
  choose-app s bak app differ e = rw (differ, e) refl

  pub choose-bak :
      (s : Machine f c) (bak app : CheckResult)
      → (compared s).0 ≡ false
      → app ≢ pass
      → bak ≡ pass
      → choose_image f c accelerator l bak app s
        ≡ (go_boot, flash_image_backup f c accelerator (compared s).1 l.bak l.app)
  unfolding choose_image
  choose-bak s bak pass differ bad e = absurd (bad refl)
  choose-bak s bak oversize differ bad e = rw (differ, e) refl
  choose-bak s bak sha256_mismatch differ bad e = rw (differ, e) refl

  choose-none_differ :
      (s : Machine f c) (bak app : CheckResult)
      → (compared s).0 ≡ false
      → app ≢ pass
      → bak ≢ pass
      → choose_image f c accelerator l bak app s ≡ (exit_abnormal, (compared s).1)
  unfolding choose_image
  choose-none_differ s bak pass differ bad bad' = absurd (bad refl)
  choose-none_differ s pass app differ bad bad' = absurd (bad' refl)
  choose-none_differ s oversize oversize differ bad bad' = rw differ refl
  choose-none_differ s oversize sha256_mismatch differ bad bad' = rw differ refl
  choose-none_differ s sha256_mismatch oversize differ bad bad' = rw differ refl
  choose-none_differ s sha256_mismatch sha256_mismatch differ bad bad' = rw differ refl

  pub choose-none :
      (s : Machine f c) (bak app : CheckResult)
      → app ≢ pass
      → bak ≢ pass
      → choose_image f c accelerator l bak app s ≡ (exit_abnormal, (compared s).1)
  choose-none s bak app bad bad' = elim (Bool-cases (compared s).0) [
    | inl same ↦
        choose-same s bak app same ∙ ap (λ o. (o, (compared s).1)) (outcome_of-failed app bad)
    | inr differ ↦ choose-none_differ s bak app differ bad bad'
  ]

  -- `main` from the result of either check on
  abbrev after_app :
      CheckResult → Option (CheckResult × Machine f c) → Option (Outcome × Machine f c)
  after_app bak_check o = elim o [
    | none ↦ none
    | some (app_check, s2) ↦ some (choose_image f c accelerator l bak_check app_check s2)
  ]

  abbrev after_bak : Option (CheckResult × Machine f c) → Option (Outcome × Machine f c)
  after_bak o = elim o [
    | none ↦ none
    | some (bak_check, s1) ↦
        after_app bak_check (flash_image_check f c accelerator s1 l.app l.next_size)
  ]

  pub main-none_bak :
      (s : Machine f c)
      → flash_image_check f c accelerator s l.bak l.next_size ≡ none
      → main f c accelerator l s ≡ none
  unfolding main
  main-none_bak s e = ap after_bak e

  pub main-bak :
      (s s1 : Machine f c) (bak_check : CheckResult)
      → flash_image_check f c accelerator s l.bak l.next_size ≡ some (bak_check, s1)
      → main f c accelerator l s
        ≡ after_app bak_check (flash_image_check f c accelerator s1 l.app l.next_size)
  unfolding main
  main-bak s s1 bak_check e = ap after_bak e

  pub main-none_app :
      (s s1 : Machine f c) (bak_check : CheckResult)
      → flash_image_check f c accelerator s l.bak l.next_size ≡ some (bak_check, s1)
      → flash_image_check f c accelerator s1 l.app l.next_size ≡ none
      → main f c accelerator l s ≡ none
  main-none_app s s1 bak_check e e' = main-bak s s1 bak_check e ∙ ap (after_app bak_check) e'

  pub main-some :
      (s s1 s2 : Machine f c) (bak_check app_check : CheckResult)
      → flash_image_check f c accelerator s l.bak l.next_size ≡ some (bak_check, s1)
      → flash_image_check f c accelerator s1 l.app l.next_size ≡ some (app_check, s2)
      → main f c accelerator l s ≡ some (choose_image f c accelerator l bak_check app_check s2)
  main-some s s1 s2 bak_check app_check e e' =
      main-bak s s1 bak_check e ∙ ap (after_app bak_check) e'
