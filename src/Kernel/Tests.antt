-- ===== src/Kernel/Tests.antt =====
-- The start of the kernel without a device tree, with the kernel's own lines in memory.
use lab.Base.{
  ℕ, ◌+◌, ◌-◌, ◌/◌, ◌≡◌, refl, inl, ltb, ◌==◌, if◌then◌else◌, false, true, List, [], ◌∷◌, panicked,
  arith,
}
use lab.Strings.{Memory, memset, store}
use lab.Strings.Text.{Text}
use lab.Print.Format.{Literals}
use lab.Print.Format.Pieces.{Field, Piece, text, signed, unsigned, hexadecimal, encode, Fits}
use lab.Buddy
use lab.Pmm.Managers.{buddy_pmm_manager}
use lab.Kernel.{Image, Strings, kern_init}
use lab.Kernel.Start.{Printable, Lines, kern_init-panics}

abbrev blank : Buddy.State
blank = record {
  links = λ x. record { prev = 0; next = 0 };
  order = λ p. 0;
  base = λ p. 0;
  reserved = λ p. false;
  nr_free = 0;
  max_order_inited = 0;
}

-- A firmware that counts its calls.
abbrev call : ℕ → ℕ → ℕ → ℕ → ℕ → ℕ × ℕ
call n a b c s = (0, s + 1)

-- The bytes of a list from an address on.
abbrev at_address : ℕ → List ℕ → Memory
at_address p [] = λ q. 0
at_address p (x ∷ xs) = λ q. if q == p then x else at_address (p + 1) xs q

abbrev plain_field : Field
plain_field = record { zeros = false; width = []; longs = 0 }

abbrev wide_field : Field
wide_field = record { zeros = true; width = 49 ∷ 54 ∷ []; longs = 1 }

abbrev image : Image
image = record {
  entry = 0xFFFFFFFFC0200000;
  etext = 0xFFFFFFFFC0204000;
  edata = 0xFFFFFFFFC0208000;
  end = 0xFFFFFFFFC0208002;
}

abbrev literals : Literals
literals = record {
  null_text = 500;
  error_format = 510;
  string_format = 520;
  error_string = λ e. 0;
}

abbrev strings : Strings
strings = record {
  loading = 1000;
  symbols = 1100;
  entry_line = 1200;
  etext_line = 1300;
  edata_line = 1400;
  end_line = 1500;
  footprint = 1600;
  memory_name = 2000;
  reg_name = 2010;
}

-- Memory, with ones where the kernel's data will be cleared.
abbrev memory : Memory
memory = λ q.
    if ltb q 1100
    then at_address 1000
        (40 ∷ 84 ∷ 72 ∷ 85 ∷ 46 ∷ 67 ∷ 83 ∷ 84 ∷ 41 ∷ 32 ∷ 111 ∷ 115 ∷ 32 ∷ 105 ∷ 115 ∷ 32 ∷ 108
          ∷ 111 ∷ 97 ∷ 100 ∷ 105 ∷ 110 ∷ 103 ∷ 32 ∷ 46 ∷ 46 ∷ 46 ∷ [])
        q
    else if ltb q 1200
    then at_address 1100
        (83 ∷ 112 ∷ 101 ∷ 99 ∷ 105 ∷ 97 ∷ 108 ∷ 32 ∷ 107 ∷ 101 ∷ 114 ∷ 110 ∷ 101 ∷ 108 ∷ 32 ∷ 115
          ∷ 121 ∷ 109 ∷ 98 ∷ 111 ∷ 108 ∷ 115 ∷ 58 ∷ 10 ∷ [])
        q
    else if ltb q 1300
    then at_address 1200
        (32 ∷ 32 ∷ 101 ∷ 110 ∷ 116 ∷ 114 ∷ 121 ∷ 32 ∷ 32 ∷ 48 ∷ 120 ∷ 37 ∷ 48 ∷ 49 ∷ 54 ∷ 108 ∷ 120
          ∷ 32 ∷ 40 ∷ 118 ∷ 105 ∷ 114 ∷ 116 ∷ 117 ∷ 97 ∷ 108 ∷ 41 ∷ 10 ∷ [])
        q
    else if ltb q 1400
    then at_address 1300
        (32 ∷ 32 ∷ 101 ∷ 116 ∷ 101 ∷ 120 ∷ 116 ∷ 32 ∷ 32 ∷ 48 ∷ 120 ∷ 37 ∷ 48 ∷ 49 ∷ 54 ∷ 108 ∷ 120
          ∷ 32 ∷ 40 ∷ 118 ∷ 105 ∷ 114 ∷ 116 ∷ 117 ∷ 97 ∷ 108 ∷ 41 ∷ 10 ∷ [])
        q
    else if ltb q 1500
    then at_address 1400
        (32 ∷ 32 ∷ 101 ∷ 100 ∷ 97 ∷ 116 ∷ 97 ∷ 32 ∷ 32 ∷ 48 ∷ 120 ∷ 37 ∷ 48 ∷ 49 ∷ 54 ∷ 108 ∷ 120
          ∷ 32 ∷ 40 ∷ 118 ∷ 105 ∷ 114 ∷ 116 ∷ 117 ∷ 97 ∷ 108 ∷ 41 ∷ 10 ∷ [])
        q
    else if ltb q 1600
    then at_address 1500
        (32 ∷ 32 ∷ 101 ∷ 110 ∷ 100 ∷ 32 ∷ 32 ∷ 32 ∷ 32 ∷ 48 ∷ 120 ∷ 37 ∷ 48 ∷ 49 ∷ 54 ∷ 108 ∷ 120
          ∷ 32 ∷ 40 ∷ 118 ∷ 105 ∷ 114 ∷ 116 ∷ 117 ∷ 97 ∷ 108 ∷ 41 ∷ 10 ∷ [])
        q
    else if ltb q 1700
    then at_address 1600
        (75 ∷ 101 ∷ 114 ∷ 110 ∷ 101 ∷ 108 ∷ 32 ∷ 101 ∷ 120 ∷ 101 ∷ 99 ∷ 117 ∷ 116 ∷ 97 ∷ 98 ∷ 108
          ∷ 101 ∷ 32 ∷ 109 ∷ 101 ∷ 109 ∷ 111 ∷ 114 ∷ 121 ∷ 32 ∷ 102 ∷ 111 ∷ 111 ∷ 116 ∷ 112 ∷ 114
          ∷ 105 ∷ 110 ∷ 116 ∷ 58 ∷ 32 ∷ 37 ∷ 100 ∷ 75 ∷ 66 ∷ 10 ∷ [])
        q
    else 1

abbrev cleared : Memory
cleared = memset 0xFFFFFFFFC0208000 0 2 memory

loading-Text : Text cleared 1000 (
    40 ∷ 84 ∷ 72 ∷ 85 ∷ 46 ∷ 67 ∷ 83 ∷ 84 ∷ 41 ∷ 32 ∷ 111 ∷ 115 ∷ 32 ∷ 105 ∷ 115 ∷ 32 ∷ 108 ∷ 111
    ∷ 97 ∷ 100 ∷ 105 ∷ 110 ∷ 103 ∷ 32 ∷ 46 ∷ 46 ∷ 46 ∷ [])
unfolding memset store
loading-Text = omega arith

abbrev symbols_pieces : List Piece
symbols_pieces =
    text 83
    ∷ text 112
    ∷ text 101
    ∷ text 99
    ∷ text 105
    ∷ text 97
    ∷ text 108
    ∷ text 32
    ∷ text 107
    ∷ text 101
    ∷ text 114
    ∷ text 110
    ∷ text 101
    ∷ text 108
    ∷ text 32
    ∷ text 115
    ∷ text 121
    ∷ text 109
    ∷ text 98
    ∷ text 111
    ∷ text 108
    ∷ text 115
    ∷ text 58
    ∷ text 10
    ∷ []

symbols-Text : Text cleared 1100 (encode symbols_pieces)
unfolding encode memset store
symbols-Text = omega arith

symbols-Printable : Printable cleared 100 1100 (λ i. 0)
unfolding encode Fits
symbols-Printable = record {
  pieces = symbols_pieces;
  valid = omega arith;
  text = symbols-Text;
  slack = 10;
  fits = tt;
  fuel = omega arith;
}

abbrev entry_pieces : List Piece
entry_pieces =
    text 32
    ∷ text 32
    ∷ text 101
    ∷ text 110
    ∷ text 116
    ∷ text 114
    ∷ text 121
    ∷ text 32
    ∷ text 32
    ∷ text 48
    ∷ text 120
    ∷ unsigned wide_field hexadecimal
    ∷ text 32
    ∷ text 40
    ∷ text 118
    ∷ text 105
    ∷ text 114
    ∷ text 116
    ∷ text 117
    ∷ text 97
    ∷ text 108
    ∷ text 41
    ∷ text 10
    ∷ []

entry-Text : Text cleared 1200 (encode entry_pieces)
unfolding encode memset store
entry-Text = omega arith

entry-Printable : Printable cleared 100 1200 (λ i. image.entry)
unfolding encode Fits
entry-Printable = record {
  pieces = entry_pieces;
  valid = omega arith;
  text = entry-Text;
  slack = 10;
  fits = tt;
  fuel = omega arith;
}

abbrev etext_pieces : List Piece
etext_pieces =
    text 32
    ∷ text 32
    ∷ text 101
    ∷ text 116
    ∷ text 101
    ∷ text 120
    ∷ text 116
    ∷ text 32
    ∷ text 32
    ∷ text 48
    ∷ text 120
    ∷ unsigned wide_field hexadecimal
    ∷ text 32
    ∷ text 40
    ∷ text 118
    ∷ text 105
    ∷ text 114
    ∷ text 116
    ∷ text 117
    ∷ text 97
    ∷ text 108
    ∷ text 41
    ∷ text 10
    ∷ []

etext-Text : Text cleared 1300 (encode etext_pieces)
unfolding encode memset store
etext-Text = omega arith

etext-Printable : Printable cleared 100 1300 (λ i. image.etext)
unfolding encode Fits
etext-Printable = record {
  pieces = etext_pieces;
  valid = omega arith;
  text = etext-Text;
  slack = 10;
  fits = tt;
  fuel = omega arith;
}

abbrev edata_pieces : List Piece
edata_pieces =
    text 32
    ∷ text 32
    ∷ text 101
    ∷ text 100
    ∷ text 97
    ∷ text 116
    ∷ text 97
    ∷ text 32
    ∷ text 32
    ∷ text 48
    ∷ text 120
    ∷ unsigned wide_field hexadecimal
    ∷ text 32
    ∷ text 40
    ∷ text 118
    ∷ text 105
    ∷ text 114
    ∷ text 116
    ∷ text 117
    ∷ text 97
    ∷ text 108
    ∷ text 41
    ∷ text 10
    ∷ []

edata-Text : Text cleared 1400 (encode edata_pieces)
unfolding encode memset store
edata-Text = omega arith

edata-Printable : Printable cleared 100 1400 (λ i. image.edata)
unfolding encode Fits
edata-Printable = record {
  pieces = edata_pieces;
  valid = omega arith;
  text = edata-Text;
  slack = 10;
  fits = tt;
  fuel = omega arith;
}

abbrev end_pieces : List Piece
end_pieces =
    text 32
    ∷ text 32
    ∷ text 101
    ∷ text 110
    ∷ text 100
    ∷ text 32
    ∷ text 32
    ∷ text 32
    ∷ text 32
    ∷ text 48
    ∷ text 120
    ∷ unsigned wide_field hexadecimal
    ∷ text 32
    ∷ text 40
    ∷ text 118
    ∷ text 105
    ∷ text 114
    ∷ text 116
    ∷ text 117
    ∷ text 97
    ∷ text 108
    ∷ text 41
    ∷ text 10
    ∷ []

end-Text : Text cleared 1500 (encode end_pieces)
unfolding encode memset store
end-Text = omega arith

end-Printable : Printable cleared 100 1500 (λ i. image.end)
unfolding encode Fits
end-Printable = record {
  pieces = end_pieces;
  valid = omega arith;
  text = end-Text;
  slack = 10;
  fits = tt;
  fuel = omega arith;
}

abbrev footprint_pieces : List Piece
footprint_pieces =
    text 75
    ∷ text 101
    ∷ text 114
    ∷ text 110
    ∷ text 101
    ∷ text 108
    ∷ text 32
    ∷ text 101
    ∷ text 120
    ∷ text 101
    ∷ text 99
    ∷ text 117
    ∷ text 116
    ∷ text 97
    ∷ text 98
    ∷ text 108
    ∷ text 101
    ∷ text 32
    ∷ text 109
    ∷ text 101
    ∷ text 109
    ∷ text 111
    ∷ text 114
    ∷ text 121
    ∷ text 32
    ∷ text 102
    ∷ text 111
    ∷ text 111
    ∷ text 116
    ∷ text 112
    ∷ text 114
    ∷ text 105
    ∷ text 110
    ∷ text 116
    ∷ text 58
    ∷ text 32
    ∷ signed plain_field
    ∷ text 75
    ∷ text 66
    ∷ text 10
    ∷ []

footprint-Text : Text cleared 1600 (encode footprint_pieces)
unfolding encode memset store
footprint-Text = omega arith

footprint-Printable : Printable cleared 100 1600 (λ i. ((image.end - image.entry + 1023) / 1024))
unfolding encode Fits
footprint-Printable = record {
  pieces = footprint_pieces;
  valid = omega arith;
  text = footprint-Text;
  slack = 10;
  fits = tt;
  fuel = omega arith;
}

kernel-Lines : Lines cleared 100 strings image
kernel-Lines = record {
  loading =
      40 ∷ 84 ∷ 72 ∷ 85 ∷ 46 ∷ 67 ∷ 83 ∷ 84 ∷ 41 ∷ 32 ∷ 111 ∷ 115 ∷ 32 ∷ 105 ∷ 115 ∷ 32 ∷ 108 ∷ 111
      ∷ 97 ∷ 100 ∷ 105 ∷ 110 ∷ 103 ∷ 32 ∷ 46 ∷ 46 ∷ 46 ∷ [];
  loading_text = loading-Text;
  short = omega arith;
  symbols = symbols-Printable;
  entry = entry-Printable;
  etext = etext-Printable;
  edata = edata-Printable;
  end = end-Printable;
  footprint = footprint-Printable;
}

kern_init-panics_example :
    kern_init call literals strings image buddy_pmm_manager 100 0 16 memory 0 blank ≡ panicked
kern_init-panics_example =
    kern_init-panics call literals strings image buddy_pmm_manager 100 0 16 memory 0 blank
      kernel-Lines (inl refl)
