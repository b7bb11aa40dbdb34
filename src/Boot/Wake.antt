-- ===== src/Boot/Wake.antt =====
-- `go_boot` and `core1_entry` of src/main.c: which interrupt of core 0 wakes core 1.
use k210_guard_bootloader.Prelude.{
  ◌≡◌, ◌≢◌, ◌↔◌, refl, subst, ◌⊎◌, inl, inr, Bool, true, false, not, ◌&&◌,
}
use k210_guard_bootloader.Boot.Cores.{
  Core0, checking, spinning, jumping, Core1, starting, cleared, enabled, waiting, woken, entering,
  leaving, Cores, cores, Step, clint_ipi_send, see_flag, clint_ipi_clear, clint_ipi_enable,
  handle_irq_m_soft, wfi, wake, clint_ipi_unregister, set_flag, Steps, stay, next, start, in_order,
  start-in_order,
}

-- With core 0 in the loop: core 1 has the interrupt pending in `wfi`, or is past that.
unfoldable pub on_the_way : Core0 → Core1 → Bool → Bool → Bool
on_the_way spinning waiting i f = not f && i
on_the_way spinning woken i f = not f
on_the_way spinning entering i f = not f
on_the_way spinning leaving i f = f
on_the_way jumping leaving i f = f
on_the_way _ _ _ _ = false

-- With core 0 in the loop: core 1 is before `wfi`, or in it with no interrupt pending.
unfoldable pub is_late : Core0 → Core1 → Bool → Bool → Bool
is_late spinning starting i f = not f
is_late spinning cleared i f = not f
is_late spinning enabled i f = not f
is_late spinning waiting i f = not f && not i
is_late _ _ _ _ = false

IsOnTheWay : Cores → Type 0
IsOnTheWay s = on_the_way s.core0 s.core1 s.ipi s.jump_flag ≡ true

IsLate : Cores → Type 0
IsLate s = is_late s.core0 s.core1 s.ipi s.jump_flag ≡ true

Step-IsOnTheWay : {s t : Cores} → Step s t → IsOnTheWay s → IsOnTheWay t
unfolding IsOnTheWay on_the_way
Step-IsOnTheWay (see_flag leaving i) h = refl
Step-IsOnTheWay (clint_ipi_clear spinning i f) h = absurd (cc h)
Step-IsOnTheWay (clint_ipi_enable spinning i f) h = absurd (cc h)
Step-IsOnTheWay (handle_irq_m_soft spinning f) h = absurd (cc h)
Step-IsOnTheWay (wfi spinning f) h = absurd (cc h)
Step-IsOnTheWay (wake spinning false) h = refl
Step-IsOnTheWay (clint_ipi_unregister spinning i false) h = refl
Step-IsOnTheWay (set_flag spinning i false) h = refl
Step-IsOnTheWay _ h = absurd (cc h)

Steps-IsOnTheWay : {s t : Cores} → Steps s t → IsOnTheWay s → IsOnTheWay t
Steps-IsOnTheWay (stay s) h = h
Steps-IsOnTheWay (next s t u step steps) h = Steps-IsOnTheWay steps (Step-IsOnTheWay step h)

Step-IsLate : {s t : Cores} → Step s t → IsLate s → IsLate t
unfolding IsLate is_late
Step-IsLate (see_flag starting i) h = absurd (cc h)
Step-IsLate (clint_ipi_clear spinning i false) h = refl
Step-IsLate (clint_ipi_enable spinning i false) h = refl
Step-IsLate (handle_irq_m_soft spinning false) h = refl
Step-IsLate (wfi spinning false) h = refl
Step-IsLate (wake spinning true) h = absurd (cc h)
Step-IsLate (wake spinning false) h = absurd (cc h)
Step-IsLate (clint_ipi_unregister spinning i f) h = absurd (cc h)
Step-IsLate (set_flag spinning i f) h = absurd (cc h)
Step-IsLate _ h = absurd (cc h)

Steps-IsLate : {s t : Cores} → Steps s t → IsLate s → IsLate t
Steps-IsLate (stay s) h = h
Steps-IsLate (next s t u step steps) h = Steps-IsLate steps (Step-IsLate step h)

-- Both cores have left for the image.
abbrev pub Left : Cores → Type 0
Left t = (t.core0 ≡ jumping) × (t.core1 ≡ leaving)

run_leaving : (i : Bool) → Steps (cores spinning leaving i true) (cores jumping leaving i true)
run_leaving i = next _ _ _ (see_flag leaving i) (stay _)

run_entering : (i f : Bool) → Steps (cores spinning entering i f) (cores jumping leaving i true)
run_entering i f = next _ _ _ (set_flag spinning i f) (run_leaving i)

run_woken : (i f : Bool) → Steps (cores spinning woken i f) (cores jumping leaving false true)
run_woken i f = next _ _ _ (clint_ipi_unregister spinning i f) (run_entering false f)

run_on :
    (c0 : Core0) (c1 : Core1) (i f : Bool)
    → on_the_way c0 c1 i f ≡ true
    → (v : Cores) × (Steps (cores c0 c1 i f) v × Left v)
unfolding on_the_way
run_on spinning waiting true false h = (
  cores jumping leaving false true,
  (next _ _ _ (wake spinning false) (run_woken false false), (refl, refl)),
)
run_on spinning woken i false h =
    (cores jumping leaving false true, (run_woken i false, (refl, refl)))
run_on spinning entering i false h =
    (cores jumping leaving i true, (run_entering i false, (refl, refl)))
run_on spinning leaving i true h = (cores jumping leaving i true, (run_leaving i, (refl, refl)))
run_on jumping leaving i true h = (cores jumping leaving i true, (stay _, (refl, refl)))
run_on spinning waiting false false h = absurd (cc h)
run_on _ _ _ _ h = absurd (cc h)

late-jumping : (c1 : Core1) (i f : Bool) → ¬ (is_late jumping c1 i f ≡ true)
unfolding is_late
late-jumping c1 i f h = absurd (cc h)

-- From wherever `t` leads, both can still leave.
abbrev pub CanLeave : Cores → Type 0
CanLeave s = (t : Cores) → Steps s t → (v : Cores) × (Steps t v × Left v)

-- What the interrupt of core 0 meets.
after_send :
    {u : Cores} (c1 : Core1) (i f : Bool)
    → Step (cores checking c1 i f) u
    → in_order checking c1 i f ≡ true
    → u.core0 ≡ spinning
    → ((c1 ≡ waiting) × IsOnTheWay u) ⊎ ((c1 ≢ waiting) × IsLate u)
unfolding IsOnTheWay on_the_way IsLate is_late in_order
after_send _ _ _ (clint_ipi_send starting false false) h e = inr (λ p. absurd (cc p), refl)
after_send _ _ _ (clint_ipi_send cleared false false) h e = inr (λ p. absurd (cc p), refl)
after_send _ _ _ (clint_ipi_send enabled false false) h e = inr (λ p. absurd (cc p), refl)
after_send _ _ _ (clint_ipi_send waiting false false) h e = inl (refl, refl)
after_send _ _ _ (clint_ipi_send starting _ _) h e = absurd (cc h)
after_send _ _ _ (clint_ipi_send cleared _ _) h e = absurd (cc h)
after_send _ _ _ (clint_ipi_send enabled _ _) h e = absurd (cc h)
after_send _ _ _ (clint_ipi_send waiting _ _) h e = absurd (cc h)
after_send _ _ _ (clint_ipi_send _ _ _) h e = absurd (cc h)
after_send _ _ _ _ h e = absurd (cc e)

late-Left : (t : Cores) → IsLate t → ¬ Left t
unfolding IsLate
late-Left t h left =
    late-jumping t.core1 t.ipi t.jump_flag
      (subst (λ c0. is_late c0 t.core1 t.ipi t.jump_flag ≡ true) left.0 h)

-- When core 0, in a state that is reached from the start, sends its interrupt and goes into the
-- loop on `jump_flag`: the two cores can both leave for the image, from wherever they get to
-- after that, exactly if core 1 is asleep in `wfi` at that moment.
pub cores-jump :
    (c1 : Core1) (i f : Bool) (u : Cores)
    → Steps start (cores checking c1 i f)
    → Step (cores checking c1 i f) u
    → u.core0 ≡ spinning
    → CanLeave u ↔ (c1 ≡ waiting)
unfolding IsOnTheWay
cores-jump c1 i f u steps step e =
    elim (after_send c1 i f step (start-in_order checking c1 i f steps) e) [
      | inl (asleep, way) ↦ (
        λ _. asleep,
        λ _ t run. run_on t.core0 t.core1 t.ipi t.jump_flag (Steps-IsOnTheWay run way),
      )
      | inr (other, late) ↦ (
        λ can.
            let (v, (run, left)) = can u (stay u) in
            absurd (late-Left v (Steps-IsLate run late) left),
        λ asleep. absurd (other asleep),
      )
    ]
