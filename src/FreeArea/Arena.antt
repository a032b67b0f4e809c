-- ===== src/FreeArea/Arena.antt =====
-- A small memory for the tests: pages 1 and 2 are free, so are 5, 6 and 7, and so are 9 and 10; the
-- other pages are allocated, but those from 20 to 23, which are reserved.
use lab.Base.{ℕ, refl, Bool, true, false, ◌&&◌, List, [], ◌∷◌, ltb, leb, ◌==◌, if◌then◌else◌, arith}
use lab.LinkList.{Entry}
use lab.FreeArea.{Page, State}
use lab.FreeArea.Blocks.{Block, block}
use lab.FreeArea.Spec.{Separated}
use lab.FreeArea.Holds.{Holds}

abbrev pub page : Bool → Bool → ℕ → Page
page reserved head property = record {
  ref = 0;
  reserved = reserved;
  head = head;
  property = property;
}

abbrev pub entry : ℕ → ℕ → Entry
entry prev next = record { prev = prev; next = next }

abbrev pub arena : State
arena = record {
  pages = λ q.
      if q == 1
      then page false true 2
      else if q == 5
      then page false true 3
      else if q == 9
      then page false true 2
      else if leb 20 q && ltb q 24
      then page true false 0
      else page false false 0;
  links = λ q.
      if q == 0
      then entry 9 1
      else if q == 1
      then entry 0 5
      else if q == 5
      then entry 1 9
      else if q == 9
      then entry 5 0
      else entry 0 0;
  nr_free = 7;
}

abbrev pub arena_blocks : List Block
arena_blocks = block 1 2 ∷ block 5 3 ∷ block 9 2 ∷ []

pub arena-Holds : Holds arena arena_blocks
arena-Holds = record {
  ring = record { distinct = omega arith; links = omega arith };
  ordered = omega arith;
  free = (
    record { size = refl; head = refl; usable = refl; inner = λ q lo hi. ground arith },
    (
      record { size = refl; head = refl; usable = refl; inner = λ q lo hi. ground arith },
      (record { size = refl; head = refl; usable = refl; inner = λ q lo hi. ground arith }, tt),
    ),
  );
  count = refl;
  small = omega arith;
}

-- The same memory with pages 3 and 4 reserved.
abbrev pub reserved_arena : State
reserved_arena = record arena {
  pages = λ q.
      if q == 3 then page true false 0 else if q == 4 then page true false 0 else arena.pages q;
}

pub reserved-Holds : Holds reserved_arena arena_blocks
reserved-Holds = record {
  ring = arena-Holds.ring;
  ordered = arena-Holds.ordered;
  free = (
    record { size = refl; head = refl; usable = refl; inner = λ q lo hi. ground arith },
    (
      record { size = refl; head = refl; usable = refl; inner = λ q lo hi. ground arith },
      (record { size = refl; head = refl; usable = refl; inner = λ q lo hi. ground arith }, tt),
    ),
  );
  count = refl;
  small = omega arith;
}

pub arena-Separated : Separated 0 arena_blocks
arena-Separated = omega arith
