-- ===== src/Kernel/Start.antt =====
-- The order of the start in kern/init/init.c, and how it ends without a device tree.
use lab.Base.{
  ℕ, ◌+◌, ◌-◌, ◌/◌, ◌<◌, ◌≡◌, ◌≢◌, refl, ◌⊎◌, inl, inr, Bool-cases, ◌==◌, ne→==, List, [], ◌∷◌,
  ◌++◌, length, All, u64, sub64, done, panicked, ◌>>=◌,
}
use lab.Strings.{Memory, memset}
use lab.Strings.Text.{Text}
use lab.Dtb
use lab.Dtb.{fdt32_to_cpu, load32, dtb_init, get_memory_base, get_memory_size}
use lab.Print.Format.{Args, Literals}
use lab.Print.Format.Pieces.{Piece, encode, IsValid, Fits}
use lab.Console.{cprintf}
use lab.Console.Output.{sent, cputs-sent, cprintf-Prints}
use lab.Pmm.{Manager, physical_memory_offset, page_init, pmm_init}
use lab.Kernel.{Image, Strings, print_kerninfo, kern_init}

-- A format at an address whose pieces and arguments `cprintf` can print in k rounds.
pub record Printable (m : Memory) (k fmt : ℕ) (args : Args) : Type 0 where
  pub pieces : List Piece
  pub valid : All IsValid pieces
  pub text : Text m fmt (encode pieces)
  pub slack : ℕ
  pub fits : Fits m slack pieces args
  pub fuel : slack + length (encode pieces) < k

-- The lines of `print_kerninfo` and the line before them.
pub record Lines (m : Memory) (k : ℕ) (str : Strings) (image : Image) : Type 0 where
  pub loading : List ℕ
  pub loading_text : Text m str.loading loading
  pub short : length loading < k
  pub symbols : Printable m k str.symbols (λ i. 0)
  pub entry : Printable m k str.entry_line (λ i. image.entry)
  pub etext : Printable m k str.etext_line (λ i. image.etext)
  pub edata : Printable m k str.edata_line (λ i. image.edata)
  pub end : Printable m k str.end_line (λ i. image.end)
  pub footprint : Printable m k str.footprint (λ i. (image.end - image.entry + 1023) / 1024)

module _ {F : Type 0} (sbi_call : ℕ → ℕ → ℕ → ℕ → F → ℕ × F) (lit : Literals) where
  cprintf-Printable :
      (m : Memory) (k fmt : ℕ) (args : Args) (t : F)
      → Printable m k fmt args
      → (r : ℕ × F) × (cprintf sbi_call lit k fmt args m t ≡ done r)
  cprintf-Printable m k fmt args t p =
      let (cs, run, _) =
        cprintf-Prints sbi_call lit m p.pieces p.slack k fmt args t p.valid p.text p.fits p.fuel in
      (_, run)

  module _ (str : Strings) (image : Image) where
    print_kerninfo-Lines :
        (k : ℕ) (m : Memory) (t : F)
        → Lines m k str image
        → (t' : F) × (print_kerninfo sbi_call lit str image k m t ≡ done t')
    unfolding print_kerninfo
    print_kerninfo-Lines k m t ls =
        let (r1, run1) = cprintf-Printable m k str.symbols (λ i. 0) t ls.symbols in
        let (r2, run2) = cprintf-Printable m k str.entry_line (λ i. image.entry) r1.1 ls.entry in
        let (r3, run3) = cprintf-Printable m k str.etext_line (λ i. image.etext) r2.1 ls.etext in
        let (r4, run4) = cprintf-Printable m k str.edata_line (λ i. image.edata) r3.1 ls.edata in
        let (r5, run5) = cprintf-Printable m k str.end_line (λ i. image.end) r4.1 ls.end in
        let (r6, run6) =
          cprintf-Printable m k str.footprint (λ i. (image.end - image.entry + 1023) / 1024) r5.1
            ls.footprint in
        (r6.1, rw run1 (rw run2 (rw run3 (rw run4 (rw run5 (rw run6 refl))))))

    -- When the kernel's lines can be printed and the search in the device tree ends, `kern_init` goes on
    -- to `pmm_init` with the memory range that was found.
    pub kern_init-run :
        {S : Type 0} (manager : Manager S) (k boot_dtb first : ℕ) (m : Memory) (t : F) (s : S)
        → let m1 = memset image.edata 0 (sub64 image.end image.edata) m in
          Lines m1 k str image
          → (d : Dtb.State)
          → (dtb_init str.memory_name str.reg_name k physical_memory_offset boot_dtb m1
                (record { memory_base = 0; memory_size = 0 })
              ≡ done d)
          → (t' : F) × (kern_init sbi_call lit str image manager k boot_dtb first m t s ≡ (
              pmm_init manager first image.end d.memory_base d.memory_size s >>= λ r.
              done (r.0, r.1, t')))
    unfolding kern_init get_memory_base get_memory_size
    kern_init-run manager k boot_dtb first m t s ls d found =
        let m1 = memset image.edata 0 (sub64 image.end image.edata) m in
        let put = cputs-sent sbi_call k str.loading m1 ls.loading t ls.loading_text ls.short in
        let (t2, run2) = print_kerninfo-Lines k m1 (sent sbi_call (ls.loading ++ 10 ∷ []) t) ls in
        (t2, rw found (rw put (rw run2 refl)))

    dtb_init-none :
        (k boot_dtb : ℕ) (m : Memory) (d : Dtb.State)
        → (boot_dtb ≡ 0)
          ⊎ (fdt32_to_cpu (load32 (u64 (boot_dtb + physical_memory_offset)) m) ≢ 0xD00DFEED)
        → dtb_init str.memory_name str.reg_name k physical_memory_offset boot_dtb m d ≡ done d
    unfolding dtb_init
    dtb_init-none k boot_dtb m d (inl e) = rw e refl
    dtb_init-none k boot_dtb m d (inr wrong) = elim (Bool-cases (boot_dtb == 0)) [
      | inl e ↦ rw e refl
      | inr e ↦
          rw
            (
              e,
              ne→== (fdt32_to_cpu (load32 (u64 (boot_dtb + physical_memory_offset)) m)) 0xD00DFEED
                  wrong,
            )
            refl
    ]

    -- Without a device tree, at address 0 or with another magic number, `kern_init` panics, whichever
    -- page manager it has: no memory is handed out. The kernel's own lines are formats that can be
    -- printed in k rounds.
    pub kern_init-panics :
        {S : Type 0} (manager : Manager S) (k boot_dtb first : ℕ) (m : Memory) (t : F) (s : S)
        → let m1 = memset image.edata 0 (sub64 image.end image.edata) m in
          Lines m1 k str image
          → (boot_dtb ≡ 0)
            ⊎ (fdt32_to_cpu (load32 (u64 (boot_dtb + physical_memory_offset)) m1) ≢ 0xD00DFEED)
          → kern_init sbi_call lit str image manager k boot_dtb first m t s ≡ panicked
    unfolding pmm_init page_init
    kern_init-panics manager k boot_dtb first m t s ls none =
        let m1 = memset image.edata 0 (sub64 image.end image.edata) m in
        let d : Dtb.State = record { memory_base = 0; memory_size = 0 } in
        let (t', run) =
          kern_init-run manager k boot_dtb first m t s ls d (dtb_init-none k boot_dtb m1 d none) in
        run
