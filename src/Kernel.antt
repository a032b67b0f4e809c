-- ===== src/Kernel.antt =====
-- kern/init/init.c: the start of the kernel, which calls the parts in their order. The firmware is a
-- parameter as in Console; the page manager has its state, with the page descriptors, apart from the
-- byte memory, and `first` is the number of the first descriptor. The loops on strings and formats take
-- as many rounds as their first argument says.
pub mod Start
mod Tests
use lab.Base.{ℕ, ◌+◌, ◌-◌, ◌/◌, ◌==◌, if◌then◌else◌, sub64, Run, done, ◌>>=◌}
use lab.Strings.{Memory, memset}
use lab.Dtb
use lab.Dtb.{dtb_init, get_memory_base, get_memory_size}
use lab.Print.Format.{Literals}
use lab.Console.{cputs, cprintf}
use lab.Frames.{Frames}
use lab.Pmm.{Manager, physical_memory_offset, pmm_init}

-- The addresses that the linker gives to the kernel's parts.
pub record Image : Type 0 where
  pub entry : ℕ
  pub etext : ℕ
  pub edata : ℕ
  pub end : ℕ

-- The addresses of the strings of `kern_init` and of `print_kerninfo`, in the order of their use, and
-- of the names that the search in the device tree compares with.
pub record Strings : Type 0 where
  pub loading : ℕ
  pub symbols : ℕ
  pub entry_line : ℕ
  pub etext_line : ℕ
  pub edata_line : ℕ
  pub end_line : ℕ
  pub footprint : ℕ
  pub memory_name : ℕ
  pub reg_name : ℕ

module _ {F : Type 0} (sbi_call : ℕ → ℕ → ℕ → ℕ → F → ℕ × F) (lit : Literals) (str : Strings)
    (image : Image) where
  -- The footprint is rounded up to KiB; the kernel ends behind its entry.
  unfoldable pub print_kerninfo : ℕ → Memory → F → Run F
  print_kerninfo k m s = do
    let print = λ (fmt arg : ℕ). cprintf sbi_call lit k fmt (λ i. arg) m
    (_, s1) ← print str.symbols 0 s
    (_, s2) ← print str.entry_line image.entry s1
    (_, s3) ← print str.etext_line image.etext s2
    (_, s4) ← print str.edata_line image.edata s3
    (_, s5) ← print str.end_line image.end s4
    (_, s6) ← print str.footprint ((image.end - image.entry + 1023) / 1024) s5
    done s6

  -- The bytes from `edata` on are cleared first, so that `memory_base` and `memory_size` are 0. What is
  -- left is the state in the loop at the end.
  unfoldable pub kern_init :
      {S : Type 0} → Manager S → ℕ → ℕ → ℕ → Memory → F → S → Run (Frames × S × F)
  unfolding print_kerninfo
  kern_init manager k boot_dtb first m t s = do
    let m1 = memset image.edata 0 (sub64 image.end image.edata) m
    d ←
        dtb_init str.memory_name str.reg_name k physical_memory_offset boot_dtb m1
          (record { memory_base = 0; memory_size = 0 })
    (_, t1) ← cputs sbi_call k str.loading m1 t
    t2 ← print_kerninfo k m1 t1
    (f, s1) ← pmm_init manager first image.end (get_memory_base d) (get_memory_size d) s
    done (f, s1, t2)
