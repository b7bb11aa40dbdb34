-- ===== src/Driver/Sim.antt =====
-- A simple chip on SPI3 that keeps to its data sheet, to run the driver on. It is never busy.
use k210_guard_bootloader.Prelude.{
  ℕ, ◌+◌, ◌*◌, ◌/◌, ◌%◌, ◌^◌, ◌≤◌, ◌<◌, ◌&&◌, ◌≡◌, ◌≢◌, refl, sym, ap, ◌∙◌, Bool, true, false, inl,
  inr, List, [], ◌∷◌, arith,
}
use k210_guard_bootloader.Prelude.Tests.{◌==◌, if◌then◌else◌, Bool-cases}
use k210_guard_bootloader.Prelude.Lists.{length, replicate, length-replicate}
use k210_guard_bootloader.Prelude.Memory.{Memory, span, length-span}
use k210_guard_bootloader.Flash.Ops.{capacity, programmed, erased}
use k210_guard_bootloader.Flash.Content.{programmed-nil}
use k210_guard_bootloader.Flash.Chip.{programmed-lt, erased-lt}
use k210_guard_bootloader.Driver.Bus.{
  BusOps, BusLaws, ChipState, spi3, Unprotected, status1_of, Later, Begun,
}
use k210_guard_bootloader.Driver.Status.{Later-refl}

pub record Sim : Type 0 where
  pub cells : Memory
  pub bytes : (x : ℕ) → cells x < 256
  pub upper : ℕ
  pub upper_lt : upper < 64
  pub status2 : ℕ
  pub status2_lt : status2 < 256
  pub enabled : Bool

abbrev pub state_of : Sim → ChipState
state_of b = record {
  content = b.cells;
  upper = b.upper;
  status2 = b.status2;
  busy = 0;
  enabled = b.enabled;
}

abbrev writable : Sim → Bool
writable b = b.enabled && (b.upper % 8 == 0) && (b.status2 / 64 % 2 == 0)

abbrev with_cells : Sim → (m : Memory) → ((x : ℕ) → m x < 256) → Sim
with_cells b m bytes = record b { cells = m; bytes = bytes; enabled = false }

unfoldable pub erase : ℕ → Sim → Sim
erase a b =
    if writable b
    then with_cells b (erased b.cells a) (erased-lt b.cells a b.bytes)
    else record b { enabled = false }

unfoldable pub program : ℕ → List ℕ → Sim → Sim
program a bs b =
    if writable b
    then with_cells b (programmed b.cells a bs) (programmed-lt b.cells a bs b.bytes)
    else record b { enabled = false }

unfoldable pub write_status : ℕ → ℕ → Sim → Sim
write_status r1 r2 b = record b {
  upper = r1 / 4 % 64;
  upper_lt = omega arith;
  status2 = r2 % 256;
  status2_lt = omega arith;
  enabled = false;
}

unfoldable pub run : List ℕ → List ℕ → Sim → Sim
run (op ∷ []) bs b = if op == 0x06 then record b { enabled = true } else b
run (op ∷ r1 ∷ r2 ∷ []) bs b = if op == 0x01 then write_status r1 r2 b else b
run (op ∷ a2 ∷ a1 ∷ a0 ∷ []) bs b =
    let a = a2 * 2 ^ 16 + a1 * 2 ^ 8 + a0 in
    if op == 0x20 then erase a b else if op == 0x02 then program a bs b else b
run _ bs b = b

unfoldable pub run_enhanced : List ℕ → List ℕ → Sim → Sim
run_enhanced (op ∷ a ∷ []) bs b = if op == 0x32 then program a bs b else b
run_enhanced _ bs b = b

unfoldable pub reply : List ℕ → ℕ → Sim → List ℕ
reply (op ∷ []) n b =
    replicate n
      (if op == 0x05 then status1_of (state_of b) else if op == 0x35 then b.status2 else 0)
reply _ n b = replicate n 0

unfoldable pub reply_enhanced : List ℕ → ℕ → Sim → List ℕ
reply_enhanced (op ∷ w ∷ []) n b = if op == 0xeb then span b.cells (w / 256) n else replicate n 0
reply_enhanced _ n b = replicate n 0

-- Nothing is connected to the other controllers.
abbrev pub sim_ops : BusOps
sim_ops = record {
  Bus = Sim;
  attach = λ i b. b;
  write = λ h r v b. b;
  flash_receive_data = λ h dfs tmod cmd n b. (reply cmd n b, b);
  flash_send_data = λ h dfs tmod cmd bs b. if h == spi3 then run cmd bs b else b;
  flash_receive_data_enhanced = λ h cmd n b. (reply_enhanced cmd n b, b);
  flash_send_data_enhanced = λ h cmd bs b. if h == spi3 then run_enhanced cmd bs b else b;
}

elsewhere :
    (h : ℕ) (b t : Sim) → h ≢ spi3 → Later (state_of b) (state_of (if h == spi3 then t else b))
elsewhere h b t ne = elim (Bool-cases (h == spi3)) [
  | inl e ↦ absurd (ne (ground (arith, e)))
  | inr e ↦ rw e (Later-refl (state_of b))
]

reply_enhanced-length : (cmd : List ℕ) (n : ℕ) (b : Sim) → length (reply_enhanced cmd n b) ≡ n
unfolding reply_enhanced
reply_enhanced-length [] n b = length-replicate n 0
reply_enhanced-length (op ∷ []) n b = length-replicate n 0
reply_enhanced-length (op ∷ w ∷ []) n b = elim (Bool-cases (op == 0xeb)) [
  | inl e ↦ rw e (length-span b.cells (w / 256) n)
  | inr e ↦ rw e (length-replicate n 0)
]
reply_enhanced-length (op ∷ w ∷ v ∷ ws) n b = length-replicate n 0

erase-Begun : (a : ℕ) (b : Sim) → Begun (state_of b) (state_of (erase a b))
unfolding erase
erase-Begun a b = elim (Bool-cases (writable b)) [
  | inl e ↦ rw e (record { same_upper = refl; same_status2 = refl; in_time = omega arith })
  | inr e ↦ rw e (record { same_upper = refl; same_status2 = refl; in_time = omega arith })
]

program-Begun : (a : ℕ) (bs : List ℕ) (b : Sim) → Begun (state_of b) (state_of (program a bs b))
unfolding program
program-Begun a bs b = elim (Bool-cases (writable b)) [
  | inl e ↦ rw e (record { same_upper = refl; same_status2 = refl; in_time = omega arith })
  | inr e ↦ rw e (record { same_upper = refl; same_status2 = refl; in_time = omega arith })
]

is_writable : (b : Sim) → b.enabled ≡ true → Unprotected (state_of b) → writable b ≡ true
is_writable b e (p, q) = ground (arith, e, p, q)

erase-cells : (a : ℕ) (b : Sim) → writable b ≡ true → (erase a b).cells ≡ erased b.cells a
unfolding erase
erase-cells a b h = rw h refl

program-cells :
    (a : ℕ) (bs : List ℕ) (b : Sim)
    → writable b ≡ true
    → (program a bs b).cells ≡ programmed b.cells a bs
unfolding program
program-cells a bs b h = rw h refl

abbrev joined : ℕ → ℕ
joined a = a / 2 ^ 16 % 2 ^ 8 * 2 ^ 16 + a / 2 ^ 8 % 2 ^ 8 * 2 ^ 8 + a % 2 ^ 8

joined-eq : (a : ℕ) → a < capacity → joined a ≡ a
joined-eq a h = omega arith

programmed-joined :
    (m : Memory) (a : ℕ) (bs : List ℕ)
    → a + length bs ≤ capacity
    → programmed m (joined a) bs ≡ programmed m a bs
programmed-joined m a [] h = programmed-nil m (joined a) ∙ sym (programmed-nil m a)
programmed-joined m a (b ∷ bs) h =
    ap (λ (x : ℕ). programmed m x (b ∷ bs)) (joined-eq a (omega arith))

enabling : (b : Sim) → Later (state_of b) (state_of (record b { enabled = true }))
enabling b = record {
  same_content = refl;
  same_upper = refl;
  same_status2 = refl;
  less_busy = omega arith;
}

pub sim_laws : BusLaws sim_ops
unfolding run run_enhanced reply reply_enhanced write_status
sim_laws = record {
  chip = state_of;
  content-lt = λ b. b.bytes;
  upper-lt = λ b. b.upper_lt;
  status2-lt = λ b. b.status2_lt;
  attach-Later = λ i b. Later-refl (state_of b);
  write-Later = λ h r v b. Later-refl (state_of b);
  receive-elsewhere = λ h dfs tmod cmd n b ne. Later-refl (state_of b);
  send-elsewhere = λ h dfs tmod cmd bs b ne. elsewhere h b (run cmd bs b) ne;
  receive_enhanced-elsewhere = λ h cmd n b ne. Later-refl (state_of b);
  send_enhanced-elsewhere = λ h cmd bs b ne. elsewhere h b (run_enhanced cmd bs b) ne;
  status1-value = λ b. refl;
  status1-Later = λ b. Later-refl (state_of b);
  status1-time = λ b. omega arith;
  status2-value = λ b. refl;
  status2-Later = λ b. Later-refl (state_of b);
  reset-Later = λ b. Later-refl (state_of b);
  enable-Later = λ b. enabling b;
  enable-enabled = λ b idle. refl;
  write_status = λ b r1 r2 idle e h1 h2. (refl, omega arith, omega arith, omega arith);
  erase-Begun = λ b a idle e. erase-Begun (joined a) b;
  erase-content = λ b a idle e free fits.
      erase-cells (joined a) b (is_writable b e free)
      ∙ ap (λ (x : ℕ). erased b.cells x) (joined-eq a fits);
  program-Begun = λ b a bs idle e. program-Begun (joined a) bs b;
  program-content = λ b a bs idle e free page fits.
      program-cells (joined a) bs b (is_writable b e free) ∙ programmed-joined b.cells a bs fits;
  quad_program-Begun = λ b a bs idle e. program-Begun a bs b;
  quad_program-content =
      λ b a bs idle e free four page fits. program-cells a bs b (is_writable b e free);
  quad_read-bytes = λ b a n idle four fits. ap (λ (x : ℕ). span b.cells x n) (omega arith);
  quad_read-Later = λ b w n. Later-refl (state_of b);
  receive_enhanced-length = λ h cmd n b. reply_enhanced-length cmd n b;
}

pub sim_idle : (b : Sim) → (sim_laws.chip b).busy ≡ 0
unfolding sim_laws
sim_idle b = refl
