-- ===== src/Links.antt =====
-- Source/List.h: the intrusive, circular, doubly linked list. The store is the pair of link fields of
-- every `struct ListItem`, indexed by the item's address; a list head is an item like the others.
-- The functions write the links in the order of the source, re-reading a field where the source
-- does. Non-null arguments are asserted there, and are not modelled.
pub mod Ring
pub mod Insert
pub mod Remove
pub mod Sort
pub mod Sorted
pub mod Partition
pub mod Quicksort
pub mod SortTests
pub mod Tests
use pixy.Base.{ℕ, Bool, ◌==◌, if◌then◌else◌}

pub record Links : Type 0 where
  pub prev : ℕ → ℕ
  pub next : ℕ → ℕ

abbrev pub update : (ℕ → ℕ) → ℕ → ℕ → ℕ → ℕ
update f p v q = if p == q then v else f q

-- `p->prev = v`
abbrev pub set_prev : ℕ → ℕ → Links → Links
set_prev p v s = record s { prev = update s.prev p v }

-- `p->next = v`
abbrev pub set_next : ℕ → ℕ → Links → Links
set_next p v s = record s { next = update s.next p v }

-- List_Initialize
pub initialize : ℕ → Links → Links
initialize head s = set_next head head (set_prev head head s)

-- __ListItem_Insert
pub insert : ℕ → ℕ → ℕ → Links → Links
insert self prev next s =
    let linked_before = set_next prev self (set_prev self prev s) in
    set_prev next self (set_next self next linked_before)

pub insert_back : ℕ → ℕ → Links → Links
unfolding insert
insert_back head back s = insert back (s.prev head) head s

pub insert_front : ℕ → ℕ → Links → Links
unfolding insert
insert_front head front s = insert front head (s.next head) s

pub is_empty : ℕ → Links → Bool
is_empty head s = s.prev head == head

pub insert_before : ℕ → ℕ → Links → Links
unfolding insert
insert_before self other s = insert self (s.prev other) other s

pub insert_after : ℕ → ℕ → Links → Links
unfolding insert
insert_after self other s = insert self other (s.next other) s

-- ListItem_Replace: `other` takes the place of `self`
pub replace : ℕ → ℕ → Links → Links
unfolding insert
replace self other s = insert other (s.prev self) (s.next self) s

-- ListItem_Remove: the second statement reads the links again, after the first write
pub remove : ℕ → Links → Links
remove self s =
    let t = set_next (s.prev self) (s.next self) s in set_prev (t.next self) (t.prev self) t

pub get_prev : ℕ → Links → ℕ
get_prev self s = s.prev self

pub get_next : ℕ → Links → ℕ
get_next self s = s.next self
