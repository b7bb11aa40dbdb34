-- ===== src/Prelude/Memory.antt =====
-- A memory as a function from addresses to bytes.
use Prim.Native.Nat.{ℕ, zero, suc, ◌+◌, ◌-◌, ◌≤◌, ◌<◌}
use mathlib.Core.Path.{◌≡◌, refl, sym, ap, ap₂, ◌∙◌, fun_ext}
use mathlib.Core.Logic.{◌⊎◌, inl, inr}
use mathlib.Core.Bool.{Bool, true, false, ◌&&◌}
use mathlib.Core.List.{List, [], ◌∷◌, ◌++◌}
use native.Mathlib.Omega.{arith}
use k210_guard_bootloader.Prelude.Tests.{ltb, leb, if◌then◌else◌, Bool-cases}
use k210_guard_bootloader.Prelude.Lists.{
  length, get_or, length-append, get_or-append, get_or-append_left,
}

abbrev pub Memory : Type 0
Memory = ℕ → ℕ

-- The `n` bytes from address `a` on.
unfoldable pub span : Memory → ℕ → ℕ → List ℕ
span m a zero = []
span m a (suc n) = m a ∷ span m (a + 1) n

abbrev pub within : ℕ → ℕ → ℕ → Bool
within a n x = leb a x && ltb x (a + n)

-- A copy of `xs` to address `a` on, as `memcpy` does.
unfoldable pub store : Memory → ℕ → List ℕ → Memory
store m a xs x = if within a (length xs) x then get_or xs (x - a) 0 else m x

pub length-span : (m : Memory) (a n : ℕ) → length (span m a n) ≡ n
unfolding span
length-span m a zero = refl
length-span m a (suc n) = ap suc (length-span m (a + 1) n)

pub span_cong :
    (m k : Memory) (a n : ℕ) → ((x : ℕ) → a ≤ x → x < a + n → m x ≡ k x) → span m a n ≡ span k a n
unfolding span
span_cong m k a zero h = refl
span_cong m k a (suc n) h =
    ap₂ ◌∷◌ (h a (omega arith) (omega arith))
      (span_cong m k (a + 1) n (λ x p q. h x (omega arith) (omega arith)))

pub span-add : (m : Memory) (a n k : ℕ) → span m a (n + k) ≡ span m a n ++ span m (a + n) k
unfolding span
span-add m a zero k = ap₂ (λ (x y : ℕ). span m x y) (omega arith) (omega arith)
span-add m a (suc n) k =
    ap (span m a) (add_suc n k)
    ∙ ap (λ t. m a ∷ t)
        (span-add m (a + 1) n k ∙ ap (λ (x : ℕ). span m (a + 1) n ++ span m x k) shift)
  where
    add_suc : (n k : ℕ) → suc n + k ≡ suc (n + k)
    add_suc n k = omega arith

    shift : a + 1 + n ≡ a + suc n
    shift = omega arith

pub get_or-span : (m : Memory) (a n i d : ℕ) → i < n → get_or (span m a n) i d ≡ m (a + i)
unfolding span
get_or-span m a zero i d h = absurd (omega arith)
get_or-span m a (suc n) zero d h = ap m (omega arith)
get_or-span m a (suc n) (suc i) d h = get_or-span m (a + 1) n i d (omega arith) ∙ ap m (omega arith)

-- A list that agrees with the memory at every index is the span.
pub span_of_get_or :
    (xs : List ℕ) (m : Memory) (a : ℕ)
    → ((i : ℕ) → i < length xs → m (a + i) ≡ get_or xs i 0)
    → span m a (length xs) ≡ xs
unfolding span
span_of_get_or [] m a h = refl
span_of_get_or (x ∷ xs) m a h =
    ap₂ ◌∷◌ (ap m (omega arith) ∙ h 0 (omega arith))
      (span_of_get_or xs m (a + 1) λ i p. ap m (shift i) ∙ h (suc i) (omega arith))
  where
    shift : (i : ℕ) → a + 1 + i ≡ a + suc i
    shift i = omega arith

store-at :
    (m : Memory) (a : ℕ) (xs : List ℕ) (i : ℕ)
    → i < length xs
    → store m a xs (a + i) ≡ get_or xs i 0
unfolding store
store-at m a xs i h = rw (inside, ap (λ (k : ℕ). get_or xs k 0) offset)
  where
    inside : within a (length xs) (a + i) ≡ true
    inside = ground arith

    offset : a + i - a ≡ i
    offset = omega arith

-- What was stored is read back.
pub span-store_self : (m : Memory) (a : ℕ) (xs : List ℕ) → span (store m a xs) a (length xs) ≡ xs
span-store_self m a xs = span_of_get_or xs (store m a xs) a (store-at m a xs)

-- A store changes nothing outside its range.
pub store-outside :
    (m : Memory) (a : ℕ) (xs : List ℕ) (x : ℕ)
    → within a (length xs) x ≡ false
    → store m a xs x ≡ m x
unfolding store
store-outside m a xs x h = rw h

pub span_of_zero : (m : Memory) (a n : ℕ) → n ≡ 0 → span m a n ≡ []
unfolding span
span_of_zero m a zero h = refl
span_of_zero m a (suc n) h = absurd (omega arith)

-- A span in two parts.
pub span_split :
    (m : Memory) (a n k : ℕ) → n ≤ k → span m a k ≡ span m a n ++ span m (a + n) (k - n)
span_split m a n k h = ap (span m a) whole ∙ span-add m a n (k - n)
  where
    whole : k ≡ n + (k - n)
    whole = omega arith

-- Two stores, one behind the other, are one.
pub store-append :
    (m : Memory) (a : ℕ) (xs ys : List ℕ)
    → store (store m a xs) (a + length xs) ys ≡ store m a (xs ++ ys)
unfolding store
store-append m a xs ys = fun_ext λ x. elim (Bool-cases (within a (length xs) x)) [
  | inl in_xs ↦ ground (arith, length-append xs ys, get_or-append_left xs ys (x - a) 0)
  | inr out ↦ ground (arith, length-append xs ys, get_or-append xs ys (x - (a + length xs)) 0)
]

pub store-nil : (m : Memory) (a : ℕ) → store m a [] ≡ m
unfolding store
store-nil m a = fun_ext λ x. ground arith

-- A store behind a span, or before it, leaves the span.
pub span-store_other :
    (m : Memory) (a : ℕ) (xs : List ℕ) (b n : ℕ)
    → (a + length xs ≤ b) ⊎ (b + n ≤ a)
    → span (store m a xs) b n ≡ span m b n
span-store_other m a xs b n h =
    span_cong (store m a xs) m b n λ x p q. store-outside m a xs x (ground arith)

-- A span of a span that was stored
pub span-store_prefix :
    (m k : Memory) (a b n j : ℕ) → span (store m a (span k b (n + j))) a n ≡ span k b n
span-store_prefix m k a b n j =
    ap (λ (bs : List ℕ). span (store m a bs) a n) (span-add k b n j)
    ∙ ap (λ (r : Memory). span r a n) (sym (store-append m a (span k b n) (span k (b + n) j)))
    ∙ span-store_other (store m a (span k b n)) (a + length (span k b n)) (span k (b + n) j) a n
        (inr (omega (arith, length-span k b n)))
    ∙ ap (span (store m a (span k b n)) a) (sym (length-span k b n))
    ∙ span-store_self m a (span k b n)

span_ext :
    (k m : Memory) (a b n : ℕ) → ((i : ℕ) → i < n → k (a + i) ≡ m (b + i)) → span k a n ≡ span m b n
unfolding span
span_ext k m a b zero h = refl
span_ext k m a b (suc n) h = ap₂ ◌∷◌ (ap k (omega arith) ∙ h 0 (omega arith) ∙ ap m (omega arith)) (
    span_ext k m (a + 1) (b + 1) n
      λ i p. ap k (shift a i) ∙ h (suc i) (omega arith) ∙ ap m (sym (shift b i)))
  where
    shift : (x i : ℕ) → x + 1 + i ≡ x + suc i
    shift x i = omega arith

module _ (k m : Memory) (to from total : ℕ) (e : span k to total ≡ span m from total) where
  pub span_point : (x : ℕ) → x < total → k (to + x) ≡ m (from + x)
  span_point x h =
      sym (get_or-span k to total x 0 h)
      ∙ ap (λ bs. get_or bs x 0) e
      ∙ get_or-span m from total x 0 h

  -- Parts of equal spans are equal.
  pub span_part : (i n : ℕ) → i + n ≤ total → span k (to + i) n ≡ span m (from + i) n
  span_part i n h =
      span_ext k m (to + i) (from + i) n
        λ j p. ap k (omega arith) ∙ span_point (i + j) (omega arith) ∙ ap m (omega arith)

-- To store what is there already changes nothing.
pub store-span : (m : Memory) (a n x : ℕ) → store m a (span m a n) x ≡ m x
unfolding store
store-span m a n x = elim (Bool-cases (within a n x)) [
  | inl inside ↦
      rw (ap (λ (k : ℕ). within a k x) (length-span m a n) ∙ inside)
        (get_or-span m a n (x - a) 0 (ground (arith, inside)) ∙ ap m (ground (arith, inside)))
  | inr outside ↦ rw (ap (λ (k : ℕ). within a k x) (length-span m a n) ∙ outside)
]
