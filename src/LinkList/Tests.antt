-- ===== src/LinkList/Tests.antt =====
-- The laws of the list operations at a list of one entry.
use lab.Base.{ℕ, ◌<◌, ◌≢◌, [], ◌∷◌, arith}
use lab.LinkList.{Store, list_init, list_add, list_del}
use lab.LinkList.Ring.{Ring}
use lab.LinkList.Laws.{list_init-Ring, list_add-Ring, list_del-Ring}

abbrev blank : Store
blank = λ x. record { prev = 9; next = 9 }

other : (n : ℕ) → 4 < n → n ≢ 0
other n h e = absurd (omega arith)

abbrev one : Store
one = list_add 0 5 (list_init 0 blank)

one-Ring : Ring one 0 (5 ∷ [])
one-Ring =
    list_add-Ring (list_init 0 blank) 5 0 [] [] (other 5 (omega arith), tt) (list_init-Ring blank 0)

list_del-Ring_example : Ring (list_del 5 one) 0 []
list_del-Ring_example = list_del-Ring one 5 0 [] [] one-Ring
