-- ===== src/Boot/Cores.antt =====
-- `go_boot` and `core1_entry` of src/main.c: how the two cores of the chip meet before they jump.
use k210_guard_bootloader.Prelude.{◌≡◌, refl, subst, ◌⊎◌, inl, inr, Bool, true, false, not}

-- Core 0 is before `go_boot`, in the loop on `jump_flag`, past it, or in `sys_exit`.
pub data Core0 : Type 0 where
  checking spinning jumping exited : Core0

-- Core 1 is before `clint_ipi_clear` with its interrupt disabled, between that and
-- `clint_ipi_enable`, before `wfi` with the interrupt enabled, asleep in `wfi`, behind it and its
-- trap, in `go_boot` before the flag is set, or behind that.
pub data Core1 : Type 0 where
  starting cleared enabled waiting woken entering leaving : Core1

-- The cores, core 1's pending bit, and `jump_flag`
pub record Cores : Type 0 where
  pub core0 : Core0
  pub core1 : Core1
  pub ipi : Bool
  pub jump_flag : Bool

abbrev pub cores : Core0 → Core1 → Bool → Bool → Cores
cores c0 c1 i f = record { core0 = c0; core1 = c1; ipi = i; jump_flag = f }

-- One step of one core. With the interrupt enabled and pending, core 1 takes the trap of
-- `handle_irq_m_soft` before its next instruction, and the trap clears the pending bit; asleep in
-- `wfi`, it wakes for that, and comes back behind `wfi`.
pub data Step : Cores → Cores → Type 0 where
  clint_ipi_send :
      (c1 : Core1) (i f : Bool) → Step (cores checking c1 i f) (cores spinning c1 true f)
  sys_exit : (c1 : Core1) (i f : Bool) → Step (cores checking c1 i f) (cores exited c1 i f)
  see_flag : (c1 : Core1) (i : Bool) → Step (cores spinning c1 i true) (cores jumping c1 i true)
  clint_ipi_clear :
      (c0 : Core0) (i f : Bool) → Step (cores c0 starting i f) (cores c0 cleared false f)
  clint_ipi_enable : (c0 : Core0) (i f : Bool) → Step (cores c0 cleared i f) (cores c0 enabled i f)
  handle_irq_m_soft :
      (c0 : Core0) (f : Bool) → Step (cores c0 enabled true f) (cores c0 enabled false f)
  wfi : (c0 : Core0) (f : Bool) → Step (cores c0 enabled false f) (cores c0 waiting false f)
  wake : (c0 : Core0) (f : Bool) → Step (cores c0 waiting true f) (cores c0 woken false f)
  clint_ipi_unregister :
      (c0 : Core0) (i f : Bool) → Step (cores c0 woken i f) (cores c0 entering false f)
  set_flag : (c0 : Core0) (i f : Bool) → Step (cores c0 entering i f) (cores c0 leaving i true)

pub data Steps : Cores → Cores → Type 0 where
  stay : (s : Cores) → Steps s s
  next : (s t u : Cores) → Step s t → Steps t u → Steps s u

-- Both cores run, no interrupt is pending, and `jump_flag` is 0.
abbrev pub start : Cores
start = cores checking starting false false

-- What holds throughout: before core 0 has sent, core 1 sleeps at most; the flag is set exactly when
-- core 1 leaves; core 0 jumps behind that only.
unfoldable pub in_order : Core0 → Core1 → Bool → Bool → Bool
in_order checking starting false false = true
in_order checking cleared false false = true
in_order checking enabled false false = true
in_order checking waiting false false = true
in_order exited starting false false = true
in_order exited cleared false false = true
in_order exited enabled false false = true
in_order exited waiting false false = true
in_order spinning starting i f = not f
in_order spinning cleared i f = not f
in_order spinning enabled i f = not f
in_order spinning waiting i f = not f
in_order spinning woken i f = not f
in_order spinning entering i f = not f
in_order spinning leaving i f = f
in_order jumping leaving i f = f
in_order _ _ _ _ = false

IsInOrder : Cores → Type 0
IsInOrder s = in_order s.core0 s.core1 s.ipi s.jump_flag ≡ true

Step-IsInOrder : {s t : Cores} → Step s t → IsInOrder s → IsInOrder t
unfolding IsInOrder in_order
Step-IsInOrder (clint_ipi_send starting false false) h = refl
Step-IsInOrder (clint_ipi_send cleared false false) h = refl
Step-IsInOrder (clint_ipi_send enabled false false) h = refl
Step-IsInOrder (clint_ipi_send waiting false false) h = refl
Step-IsInOrder (sys_exit starting false false) h = refl
Step-IsInOrder (sys_exit cleared false false) h = refl
Step-IsInOrder (sys_exit enabled false false) h = refl
Step-IsInOrder (sys_exit waiting false false) h = refl
Step-IsInOrder (see_flag leaving i) h = refl
Step-IsInOrder (clint_ipi_clear checking false false) h = refl
Step-IsInOrder (clint_ipi_clear exited false false) h = refl
Step-IsInOrder (clint_ipi_clear spinning i f) h = h
Step-IsInOrder (clint_ipi_enable checking false false) h = refl
Step-IsInOrder (clint_ipi_enable exited false false) h = refl
Step-IsInOrder (clint_ipi_enable spinning i f) h = h
Step-IsInOrder (handle_irq_m_soft spinning f) h = h
Step-IsInOrder (wfi checking false) h = refl
Step-IsInOrder (wfi exited false) h = refl
Step-IsInOrder (wfi spinning f) h = h
Step-IsInOrder (wake spinning f) h = h
Step-IsInOrder (clint_ipi_unregister spinning i f) h = h
Step-IsInOrder (set_flag spinning i f) h = refl
Step-IsInOrder _ h = absurd (cc h)

Steps-IsInOrder : {s t : Cores} → Steps s t → IsInOrder s → IsInOrder t
Steps-IsInOrder (stay s) h = h
Steps-IsInOrder (next s t u step steps) h = Steps-IsInOrder steps (Step-IsInOrder step h)

start-IsInOrder : {t : Cores} → Steps start t → IsInOrder t
unfolding IsInOrder in_order
start-IsInOrder steps = Steps-IsInOrder steps refl

pub start-in_order :
    (c0 : Core0) (c1 : Core1) (i f : Bool)
    → Steps start (cores c0 c1 i f)
    → in_order c0 c1 i f ≡ true
unfolding IsInOrder
start-in_order c0 c1 i f steps = start-IsInOrder steps

leaves :
    (c0 : Core0) (i f : Bool)
    → in_order c0 leaving i f ≡ true
    → ((c0 ≡ spinning) ⊎ (c0 ≡ jumping)) × (f ≡ true)
unfolding in_order
leaves spinning i f h = (inl refl, h)
leaves jumping i f h = (inr refl, h)
leaves _ i f h = absurd (cc h)

-- In whatever order the cores run from the start, core 1 leaves for the image only when core 0
-- has decided to boot it.
pub core1-leaves :
    (t : Cores) → Steps start t → t.core1 ≡ leaving → (t.core0 ≡ spinning) ⊎ (t.core0 ≡ jumping)
core1-leaves t steps e =
    (leaves t.core0 t.ipi t.jump_flag (
      subst (λ c1. in_order t.core0 c1 t.ipi t.jump_flag ≡ true) e
        (start-in_order t.core0 t.core1 t.ipi t.jump_flag steps))).0

jumps : (c1 : Core1) (i f : Bool) → in_order jumping c1 i f ≡ true → c1 ≡ leaving
unfolding in_order
jumps leaving i f h = refl
jumps _ i f h = absurd (cc h)

-- In whatever order the cores run from the start, core 0 leaves for the image only when core 1
-- does.
pub core0-jumps : (t : Cores) → Steps start t → t.core0 ≡ jumping → t.core1 ≡ leaving
core0-jumps t steps e = jumps t.core1 t.ipi t.jump_flag (
    subst (λ c0. in_order c0 t.core1 t.ipi t.jump_flag ≡ true) e
      (start-in_order t.core0 t.core1 t.ipi t.jump_flag steps))
