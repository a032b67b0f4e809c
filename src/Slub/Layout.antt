-- ===== src/Slub/Layout.antt =====
-- Where the objects of a slab page lie.
use lab.Base.{ℕ, zero, suc, ◌+◌, ◌*◌, ◌^◌, ◌≤◌, ◌<◌, arith}
use lab.Slub.{aligned, objects_in, header_size, page_size}

-- Object j of a page lies behind the header and ends within the page.
pub record Inside (sp size j : ℕ) : Type 0 where
  pub after_header : sp + header_size ≤ aligned sp size + j * size
  pub in_page : aligned sp size + (j + 1) * size ≤ sp + page_size

-- In a page of one of the nine classes below 4096 bytes, which begins at a multiple of 4096, every
-- object lies between the header and the end of the page.
pub objects-Inside :
    (i p j : ℕ) → i < 9 → j < objects_in (8 * 2 ^ i) → Inside (p * 4096) (8 * 2 ^ i) j
unfolding objects_in aligned
objects-Inside zero p j h lt = record { after_header = omega arith; in_page = omega arith }
objects-Inside (suc zero) p j h lt = record { after_header = omega arith; in_page = omega arith }
objects-Inside (suc (suc zero)) p j h lt = record {
  after_header = omega arith;
  in_page = omega arith;
}
objects-Inside (suc (suc (suc zero))) p j h lt = record {
  after_header = omega arith;
  in_page = omega arith;
}
objects-Inside (suc (suc (suc (suc zero)))) p j h lt = record {
  after_header = omega arith;
  in_page = omega arith;
}
objects-Inside (suc (suc (suc (suc (suc zero))))) p j h lt = record {
  after_header = omega arith;
  in_page = omega arith;
}
objects-Inside (suc (suc (suc (suc (suc (suc zero)))))) p j h lt = record {
  after_header = omega arith;
  in_page = omega arith;
}
objects-Inside (suc (suc (suc (suc (suc (suc (suc zero))))))) p j h lt = record {
  after_header = omega arith;
  in_page = omega arith;
}
objects-Inside (suc (suc (suc (suc (suc (suc (suc (suc zero)))))))) p j h lt = record {
  after_header = omega arith;
  in_page = omega arith;
}
objects-Inside (suc (suc (suc (suc (suc (suc (suc (suc (suc i))))))))) p j h lt =
    absurd (omega arith)
