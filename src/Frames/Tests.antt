-- ===== src/Frames/Tests.antt =====
-- The conversions at a machine with 3 MiB of memory, and tests of the rounding.
use lab.Base.{◌+◌, ◌-◌, ◌*◌, ◌≡◌, refl, done, arith}
use lab.Frames.{Frames, round_down, round_up, page2pa, pa2page}
use lab.Frames.Convert.{pa2page-page2pa}

abbrev three : Frames
three = record { pages = 16; npage = 0x80300; nbase = 0x80000; va_pa_offset = 0xFFFFFFFF40000000 }

round_down_test : round_down 8191 4096 ≡ 4096
unfolding round_down
round_down_test = refl

round_up_test : round_up 4097 4096 ≡ 8192
unfolding round_up
round_up_test = refl

pa2page-page2pa_example :
    (pa2page three (page2pa three 20) ≡ done 20) × (page2pa three 20 ≡ (20 - 16 + 0x80000) * 4096)
pa2page-page2pa_example =
    pa2page-page2pa three 20 (omega arith) (omega arith) (omega arith) (omega arith)
