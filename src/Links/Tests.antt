-- ===== src/Links/Tests.antt =====
-- A list with head 1 and the items 2 and 3.
use pixy.Base.{refl, [], ◌∷◌}
use pixy.Links.{Links, initialize, insert_back, remove}
use pixy.Links.Ring.{IsRing}
use pixy.Links.Insert.{initialize-IsRing, insert_back-IsRing}
use pixy.Links.Remove.{remove-IsRing}

abbrev blank : Links
blank = record { prev = λ p. 0; next = λ p. 0 }

abbrev one_item : Links
one_item = insert_back 1 2 (initialize 1 blank)

one_item-IsRing : IsRing one_item 1 (2 ∷ [])
one_item-IsRing = insert_back-IsRing (initialize 1 blank) 1 2 [] (initialize-IsRing blank 1) refl

two_items-IsRing : IsRing (insert_back 1 3 one_item) 1 (2 ∷ 3 ∷ [])
two_items-IsRing = insert_back-IsRing one_item 1 3 (2 ∷ []) one_item-IsRing refl

remove-IsRing_example : IsRing (remove 2 (insert_back 1 3 one_item)) 1 (3 ∷ [])
remove-IsRing_example = remove-IsRing (insert_back 1 3 one_item) 1 2 [] (3 ∷ []) two_items-IsRing
