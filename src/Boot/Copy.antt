-- ===== src/Boot/Copy.antt =====
-- `flash_image_backup` of src/main.c: the copy of an image from one partition to the other.
use k210_guard_bootloader.Prelude.{ℕ, ◌+◌, ◌*◌, ◌%◌, ◌≤◌, ◌≡◌, ap, ap₂, subst, ◌∙◌, List, arith}
use k210_guard_bootloader.Prelude.Lists.{length, take, take_all}
use k210_guard_bootloader.Prelude.Words.{u32, bytes_of32, word32, bytes_of32-word32}
use k210_guard_bootloader.Prelude.Memory.{Memory, span, store, span-store_self, length-span}
use k210_guard_bootloader.Flash.{
  success, flash_read_data, flash_write_data, sectors_of, do_flash_erase, do_flash_write,
}
use k210_guard_bootloader.Flash.Ops.{FlashOps, FlashLaws, capacity, programmed}
use k210_guard_bootloader.Flash.Content.{programmed-spans}
use k210_guard_bootloader.Flash.Read.{
  flash_read_data-content, flash_read_data-IsReady, flash_read_data-bytes,
}
use k210_guard_bootloader.Flash.Write.{
  flash_write_data-content, flash_write_data-IsReady, flash_write_data-IsWritable,
}
use k210_guard_bootloader.Flash.Program.{do_flash_write-content}
use k210_guard_bootloader.Flash.Erase.{
  NoKey, Progress, do_flash_erase-Progress, do_flash_erase-IsReady, do_flash_erase-IsWritable,
  do_flash_erase-success,
}
use k210_guard_bootloader.Boot.{CipherOps, Machine, flash_image_backup}
use k210_guard_bootloader.Boot.Image.{image_length}

pub sectors_of_bounds :
    (n size : ℕ)
    → size % 4096 ≡ 0
    → n ≤ size
    → (n ≤ 4096 * sectors_of n) × (4096 * sectors_of n ≤ size)
unfolding sectors_of
sectors_of_bounds n size aligned h = ground arith

module _ (f : FlashOps) (laws : FlashLaws f) where
  open laws use {content, IsReady, IsWritable}

  bytes_of_length :
      (s : FlashOps.State f) (a : ℕ)
      → bytes_of32 (image_length (content s) a) ≡ span (content s) (a + 1) 4
  unfolding image_length span
  bytes_of_length s a =
      bytes_of32-word32 _ _ _ _ (laws.content-lt s _) (laws.content-lt s _) (laws.content-lt s _)
        (laws.content-lt s _)

module _ (f : FlashOps) (laws : FlashLaws f) (c : CipherOps) (accelerator : ℕ → List ℕ → List ℕ)
    (s : Machine f c) (from to size : ℕ) where
  open laws use {content, IsReady, IsWritable}

  abbrev m : Memory
  m = content s.flash

  abbrev len : ℕ
  len = image_length m from

  -- What `flash_image_backup` finds: an image that fits, and two aligned partitions.
  pub record CanCopy : Type 0 where
    pub ready : IsReady s.flash
    pub fits : len + 37 ≤ size
    pub from_in : from + size ≤ capacity
    pub to_in : to + size ≤ capacity
    pub aligned : to % 4096 ≡ 0
    pub whole : size % 4096 ≡ 0

  module _ (h : CanCopy) where
    -- the state after the three reads
    abbrev t1 : FlashOps.State f
    t1 = (flash_read_data f s.flash from 1).1

    abbrev t2 : FlashOps.State f
    t2 = (flash_read_data f t1 (u32 (from + 1)) 4).1

    flag-eq : (flash_read_data f s.flash from 1).0 ≡ span m from 1
    flag-eq = flash_read_data-bytes f laws s.flash from 1 h.ready (omega (arith, h.fits, h.from_in))

    same1 : content t1 ≡ m
    same1 = flash_read_data-content f laws s.flash from 1

    ready1 : IsReady t1
    ready1 = flash_read_data-IsReady f laws s.flash from 1 h.ready

    same2 : content t2 ≡ m
    same2 = flash_read_data-content f laws t1 (u32 (from + 1)) 4 ∙ same1

    ready2 : IsReady t2
    ready2 = flash_read_data-IsReady f laws t1 (u32 (from + 1)) 4 ready1

    len-eq : word32 (flash_read_data f t1 (u32 (from + 1)) 4).0 ≡ len
    unfolding image_length
    len-eq = ap word32 (
        flash_read_data-bytes f laws t1 (u32 (from + 1)) 4 ready1 (omega (arith, h.fits, h.from_in))
        ∙ ap₂ (λ (k : Memory) (x : ℕ). span k x 4) same1 at)
      where
        at : u32 (from + 1) ≡ from + 1
        at = omega (arith, h.fits, h.from_in)

    -- the function after the reads of the flag and the length
    abbrev copy : List ℕ → ℕ → Machine f c
    copy flag codes_length =
        let n = u32 (codes_length + 32) in
        let (body, t3) = flash_read_data f t2 (u32 (from + 1 + 4)) n in
        let ram' = store s.ram 0 body in
        let (_, t4, keys') = do_flash_erase f t3 to (u32 (1 + 4 + codes_length + 32)) s.keys in
        let t5 = flash_write_data f t4 to flag 1 in
        let t6 = flash_write_data f t5 (u32 (to + 1)) (bytes_of32 codes_length) 4 in
        let t7 = do_flash_write f t6 (u32 (to + 1 + 4)) n (span ram' 0 n) in
        record s { flash = t7; ram = ram'; keys = keys' }

    backup-eq : flash_image_backup f c accelerator s from to ≡ copy (span m from 1) len
    unfolding flash_image_backup
    backup-eq = ap₂ copy flag-eq len-eq

    abbrev n : ℕ
    n = u32 (len + 32)

    abbrev body : List ℕ
    body = (flash_read_data f t2 (u32 (from + 1 + 4)) n).0

    abbrev t3 : FlashOps.State f
    t3 = (flash_read_data f t2 (u32 (from + 1 + 4)) n).1

    abbrev total : ℕ
    total = u32 (1 + 4 + len + 32)

    abbrev pub t4 : FlashOps.State f
    t4 = (do_flash_erase f t3 to total s.keys).1

    body-eq : body ≡ span m (from + 5) (len + 32)
    body-eq =
        flash_read_data-bytes f laws t2 (u32 (from + 1 + 4)) n ready2
          (omega (arith, h.fits, h.from_in))
        ∙ ap₂ (λ (x k : ℕ). span (content t2) x k) (omega (arith, h.fits, h.from_in))
            (omega (arith, h.fits, h.from_in))
        ∙ ap (λ (k : Memory). span k (from + 5) (len + 32)) same2

    same3 : content t3 ≡ m
    same3 = flash_read_data-content f laws t2 (u32 (from + 1 + 4)) n ∙ same2

    ready4 : IsReady t4
    ready4 =
        do_flash_erase-IsReady f laws t3 to total s.keys h.aligned
          (omega (arith, h.fits, h.from_in))

    writable4 : IsWritable t4
    writable4 =
        do_flash_erase-IsWritable f laws t3 to total s.keys h.aligned
          (omega (arith, h.fits, h.from_in))

    -- what is left of the function, with what was read
    abbrev t5 : FlashOps.State f
    t5 = flash_write_data f t4 to (span m from 1) 1

    abbrev t6 : FlashOps.State f
    t6 = flash_write_data f t5 (u32 (to + 1)) (bytes_of32 len) 4

    abbrev t7 : FlashOps.State f
    t7 = do_flash_write f t6 (u32 (to + 1 + 4)) n (span (store s.ram 0 body) 0 n)

    content5 : content t5 ≡ programmed (content t4) to (span m from 1)
    content5 =
        flash_write_data-content f laws t4 to (span m from 1) 1 ready4 writable4
          (omega (arith, length-span m from 1)) (omega (arith, h.fits, h.to_in))
        ∙ ap (programmed (content t4) to) (take_all 1 (span m from 1) (length-span m from 1))

    ready5 : IsReady t5
    ready5 = flash_write_data-IsReady f laws t4 to (span m from 1) 1 ready4

    writable5 : IsWritable t5
    writable5 = flash_write_data-IsWritable f laws t4 to (span m from 1) 1 writable4

    len_bytes : bytes_of32 len ≡ span m (from + 1) 4
    len_bytes = bytes_of_length f laws s.flash from

    content6 :
        content t6
        ≡ programmed (programmed (content t4) to (span m from 1)) (to + 1) (span m (from + 1) 4)
    content6 =
        flash_write_data-content f laws t5 (u32 (to + 1)) (bytes_of32 len) 4 ready5 writable5
          (omega (arith, four)) (omega (arith, h.fits, h.to_in))
        ∙ ap₂ (λ (x : ℕ) (bs : List ℕ). programmed (content t5) x (take 4 bs))
            (omega (arith, h.fits, h.to_in)) len_bytes
        ∙ ap₂ (λ (k : Memory) (bs : List ℕ). programmed k (to + 1) bs) content5
            (take_all 4 (span m (from + 1) 4) (length-span m (from + 1) 4))
      where
        four : length (bytes_of32 len) ≡ 4
        four = ap length len_bytes ∙ length-span m (from + 1) 4

    loaded_body : span (store s.ram 0 body) 0 n ≡ span m (from + 5) (len + 32)
    loaded_body =
        ap₂ (λ (bs : List ℕ) (k : ℕ). span (store s.ram 0 bs) 0 k) body-eq long
        ∙ span-store_self s.ram 0 (span m (from + 5) (len + 32))
      where
        long : n ≡ length (span m (from + 5) (len + 32))
        long = omega (arith, length-span m (from + 5) (len + 32), h.fits, h.from_in)

    content7 :
        content t7
        ≡ programmed
            (programmed (programmed (content t4) to (span m from 1)) (to + 1) (span m (from + 1) 4))
            (to + 5)
            (span m (from + 5) (len + 32))
    content7 =
        do_flash_write-content f laws t6 (u32 (to + 1 + 4)) n (span (store s.ram 0 body) 0 n)
          (flash_write_data-IsWritable f laws t5 (u32 (to + 1)) (bytes_of32 len) 4 writable5)
          (omega (arith, length-span (store s.ram 0 body) 0 n)) (omega (arith, h.fits, h.to_in))
        ∙ ap₂ (λ (x : ℕ) (bs : List ℕ). programmed (content t6) x bs)
            (omega (arith, h.fits, h.to_in))
            (take_all n (span (store s.ram 0 body) 0 n) (length-span (store s.ram 0 body) 0 n)
              ∙ loaded_body)
        ∙ ap (λ (k : Memory). programmed k (to + 5) (span m (from + 5) (len + 32))) content6

    -- Whether ^C stopped the erase or not, the whole image is programmed.
    pub content-t7 : content t7 ≡ programmed (content t4) to (span m from (len + 37))
    content-t7 =
        content7
        ∙ ap (λ (k : Memory). programmed k (to + 5) (span m (from + 5) (len + 32)))
            (programmed-spans (content t4) m to from 1 4)
        ∙ programmed-spans (content t4) m to from 5 (len + 32)
        ∙ ap (λ (k : ℕ). programmed (content t4) to (span m from k)) (omega arith)

    -- What the function leaves.
    pub backup-content :
        content (flash_image_backup f c accelerator s from to).flash
        ≡ programmed (content t4) to (span m from (len + 37))
    backup-content = ap (λ (t : Machine f c). content t.flash) backup-eq ∙ content-t7

    pub backup-ram :
        (flash_image_backup f c accelerator s from to).ram
        ≡ store s.ram 0 (span m (from + 5) (len + 32))
    backup-ram = ap (λ (t : Machine f c). t.ram) backup-eq ∙ ap (store s.ram 0) body-eq

    pub erased_part :
        Progress m (content t4) to (sectors_of (len + 37)) (do_flash_erase f t3 to total s.keys).0
    erased_part =
        subst
          (λ (k : Memory).
            Progress k (content t4) to (sectors_of (len + 37))
              (do_flash_erase f t3 to total s.keys).0)
          same3
          (subst
            (λ (k : ℕ).
              Progress (content t3) (content t4) to (sectors_of k)
                (do_flash_erase f t3 to total s.keys).0)
            all
            (do_flash_erase-Progress f laws t3 to total s.keys h.aligned (omega (arith, all)) (
              omega (
                arith,
                ap sectors_of all,
                h.to_in,
                sectors_of_bounds (len + 37) size h.whole h.fits,
              ))))
      where
        all : total ≡ len + 37
        all = omega (arith, h.fits, h.from_in)

    pub erase-success : NoKey s.keys → (do_flash_erase f t3 to total s.keys).0 ≡ success
    erase-success quiet =
        do_flash_erase-success f t3 to total s.keys h.aligned (omega (arith, h.fits, h.from_in))
          quiet
