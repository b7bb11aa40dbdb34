-- ===== src/Flash/Erase.antt =====
-- `do_flash_erase` of src/cli/command.c: which sectors it erases, also when ^C stops it.
use k210_guard_bootloader.Prelude.{
  ℕ, zero, suc, ◌+◌, ◌*◌, ◌%◌, ◌≤◌, ◌<◌, ◌≡◌, refl, sym, ap, subst, ◌∙◌, fun_ext, inl, inr, Bool,
  false, List, [], ◌∷◌, arith,
}
use k210_guard_bootloader.Prelude.Tests.{if◌then◌else◌, Bool-cases}
use k210_guard_bootloader.Prelude.Words.{u32}
use k210_guard_bootloader.Prelude.Memory.{Memory, within}
use k210_guard_bootloader.Flash.{
  Status, success, uart_ctrlc, erase_loop, sectors_of, do_flash_erase,
}
use k210_guard_bootloader.Flash.Ops.{FlashOps, FlashLaws, capacity, erased}

-- `n` bytes from `a` on read as ones.
unfoldable pub wiped : Memory → ℕ → ℕ → Memory
wiped m a n x = if within a n x then 0xff else m x

erased-aligned : (m : Memory) (a : ℕ) → a % 4096 ≡ 0 → erased m a ≡ wiped m a 4096
unfolding erased wiped
erased-aligned m a h = fun_ext λ x. ground arith

wiped-none : (m : Memory) (a n : ℕ) → n ≡ 0 → wiped m a n ≡ m
unfolding wiped
wiped-none m a n h = fun_ext λ x. ground arith

wiped_twice : (m : Memory) (a n b k : ℕ) → a + n ≡ b → wiped (wiped m a n) b k ≡ wiped m a (n + k)
unfolding wiped
wiped_twice m a n b k h = fun_ext λ x. ground arith

-- No key is pressed at any poll.
abbrev pub NoKey : List Bool → Type 0
NoKey [] = Unit
NoKey (pressed ∷ keys) = (pressed ≡ false) × NoKey keys

uart_ctrlc-NoKey :
    (keys : List Bool) → NoKey keys → ((uart_ctrlc keys).0 ≡ false) × NoKey (uart_ctrlc keys).1
unfolding uart_ctrlc
uart_ctrlc-NoKey [] h = (refl, tt)
uart_ctrlc-NoKey (pressed ∷ keys) h = h

module _ (f : FlashOps) where
  open f use {State, flash_sector_erase, flash_init, flash_enable_quad_mode, flash_disable_protect}

  erase_loop-keeps {ℓ} :
      (P : State → Type ℓ)
      → ((s : State) (a : ℕ) → P s → P (flash_sector_erase s a))
      → (left i : ℕ) (s : State) (offset : ℕ) (keys : List Bool) → P s
      → P (erase_loop f left i s offset keys).1
  unfolding erase_loop
  erase_loop-keeps P keep zero i s offset keys p = p
  erase_loop-keeps P keep (suc left) i s offset keys p = elim (Bool-cases (uart_ctrlc keys).0) [
    | inl pressed ↦ rw pressed (keep s _ p)
    | inr quiet ↦ rw quiet (erase_loop-keeps P keep left (i + 1) _ offset _ (keep s _ p))
  ]

  -- With no key the loop runs to its end.
  erase_loop-success :
      (left i : ℕ) (s : State) (offset : ℕ) (keys : List Bool)
      → NoKey keys
      → ((erase_loop f left i s offset keys).0 ≡ success)
        × NoKey (erase_loop f left i s offset keys).2
  unfolding erase_loop
  erase_loop-success zero i s offset keys h = (refl, h)
  erase_loop-success (suc left) i s offset keys h =
      let (quiet, later) = uart_ctrlc-NoKey keys h in
      rw quiet (erase_loop-success left (i + 1) _ offset _ later)

  do_flash_erase-eq :
      (s : State) (offset len : ℕ) (keys : List Bool)
      → offset % 4096 ≡ 0
      → 0 < len
      → do_flash_erase f s offset len keys
        ≡ erase_loop f
            (sectors_of len)
            0
            (flash_disable_protect (flash_enable_quad_mode (flash_init 1 s)))
            offset
            keys
  unfolding do_flash_erase
  do_flash_erase-eq s offset len keys aligned some_bytes = ground arith

  -- At an aligned offset, with a length above 0 and no key pressed, `do_flash_erase` succeeds.
  pub do_flash_erase-success :
      (s : State) (offset len : ℕ) (keys : List Bool)
      → offset % 4096 ≡ 0
      → 0 < len
      → NoKey keys
      → (do_flash_erase f s offset len keys).0 ≡ success
  do_flash_erase-success s offset len keys aligned some_bytes quiet =
      rw (do_flash_erase-eq s offset len keys aligned some_bytes)
        (erase_loop-success (sectors_of len) 0 _ offset keys quiet).0

-- How far an erase came: `done` sectors, all of them if it succeeded.
pub record Progress (m after : Memory) (start total : ℕ) (status : Status) : Type 0 where
  pub done : ℕ
  pub within_total : done ≤ total
  pub content : after ≡ wiped m start (4096 * done)
  pub complete : status ≡ success → done ≡ total

Progress-change :
    {m m' after : Memory} {start start' total : ℕ} {status : Status}
    → m ≡ m'
    → start ≡ start'
    → Progress m after start total status
    → Progress m' after start' total status
Progress-change {m' = m'} {after = after} {start = start} {total = total} {status = status} e e' p =
    subst (λ (a : ℕ). Progress m' after a total status) e'
      (subst (λ (k : Memory). Progress k after start total status) e p)

-- One sector, and then what the later rounds erased.
Progress-suc :
    {m between after : Memory} {status : Status} (start next left : ℕ)
    → between ≡ wiped m start 4096
    → start + 4096 ≡ next
    → Progress between after next left status
    → Progress m after start (suc left) status
Progress-suc {m} start next left first e rest = record {
  done = suc rest.done;
  within_total = omega (arith, rest.within_total);
  content =
      rest.content
      ∙ ap (λ (k : Memory). wiped k next (4096 * rest.done)) first
      ∙ wiped_twice m start 4096 next (4096 * rest.done) e
      ∙ ap (wiped m start) (omega arith);
  complete = λ e. ap suc (rest.complete e);
}

module _ (f : FlashOps) (laws : FlashLaws f) where
  open f use {State, flash_sector_erase, flash_init, flash_enable_quad_mode, flash_disable_protect}
  open laws use {content, IsReady, IsWritable}

  erase_loop-Progress :
      (left i : ℕ) (s : State) (offset : ℕ) (keys : List Bool)
      → IsReady s
      → IsWritable s
      → offset % 4096 ≡ 0
      → 4096 * (i + left) + offset ≤ capacity
      → let (status, t, _) = erase_loop f left i s offset keys in
        Progress (content s) (content t) (4096 * i + offset) left status
  unfolding erase_loop
  erase_loop-Progress zero i s offset keys ready writable aligned fits = record {
    done = 0;
    within_total = omega arith;
    content = sym (wiped-none _ _ _ refl);
    complete = λ _. refl;
  }
  erase_loop-Progress (suc left) i s offset keys ready writable aligned fits =
      elim (Bool-cases (uart_ctrlc keys).0) [
        | inl pressed ↦
            rw pressed
              (record { done = 1; within_total = omega arith; content = first; complete = λ e. cc })
        | inr quiet ↦ rw quiet (
            Progress-suc (4096 * i + offset) (4096 * (i + 1) + offset) left first (omega arith) (
              erase_loop-Progress left (i + 1) t offset (uart_ctrlc keys).1
                (laws.erase-IsReady s _ ready) (laws.erase-IsWritable s _ writable) aligned
                (omega arith)))
      ]
    where
      t : State
      t = flash_sector_erase s (u32 (4096 * i + offset))

      first : content t ≡ wiped (content s) (4096 * i + offset) 4096
      first =
          laws.erase-content s (u32 (4096 * i + offset)) ready writable (omega arith)
          ∙ ap (erased (content s)) (omega arith)
          ∙ erased-aligned (content s) (4096 * i + offset) (omega arith)

  -- `do_flash_erase` at an aligned offset and a length above 0, with all its sectors in the
  -- chip, erases from the offset on, sector by sector and nothing else, up to the end of the
  -- sector that holds the last byte, or to a sector's end before that if it fails.
  pub do_flash_erase-Progress :
      (s : State) (offset len : ℕ) (keys : List Bool)
      → offset % 4096 ≡ 0
      → 0 < len
      → 4096 * sectors_of len + offset ≤ capacity
      → let (status, t, _) = do_flash_erase f s offset len keys in
        Progress (content s) (content t) offset (sectors_of len) status
  do_flash_erase-Progress s offset len keys aligned some_bytes fits =
      rw (do_flash_erase-eq f s offset len keys aligned some_bytes) (
        Progress-change (laws.disable-content _ ∙ laws.init-content s) (omega arith) (
          erase_loop-Progress (sectors_of len) 0 _ offset keys
            (laws.disable-IsReady _ (laws.init-IsReady s))
            (laws.disable-IsWritable _ (laws.init-IsReady s)) aligned (omega arith)))

  pub do_flash_erase-IsReady :
      (s : State) (offset len : ℕ) (keys : List Bool)
      → offset % 4096 ≡ 0
      → 0 < len
      → IsReady (do_flash_erase f s offset len keys).1
  do_flash_erase-IsReady s offset len keys aligned some_bytes =
      rw (do_flash_erase-eq f s offset len keys aligned some_bytes) (
        erase_loop-keeps f IsReady laws.erase-IsReady (sectors_of len) 0 _ offset keys
          (laws.disable-IsReady _ (laws.init-IsReady s)))

  pub do_flash_erase-IsWritable :
      (s : State) (offset len : ℕ) (keys : List Bool)
      → offset % 4096 ≡ 0
      → 0 < len
      → IsWritable (do_flash_erase f s offset len keys).1
  do_flash_erase-IsWritable s offset len keys aligned some_bytes =
      rw (do_flash_erase-eq f s offset len keys aligned some_bytes) (
        erase_loop-keeps f IsWritable laws.erase-IsWritable (sectors_of len) 0 _ offset keys
          (laws.disable-IsWritable _ (laws.init-IsReady s)))
