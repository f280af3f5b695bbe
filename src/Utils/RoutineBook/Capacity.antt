-- ===== src/Utils/RoutineBook/Capacity.antt =====
-- What the book of routines promises (pkg/utils/book.go).
use goteth.Common.{
  ℕ, suc, ◌+◌, ◌≤◌, ◌≡◌, ◌⊎◌, inl, inr, refl, sym, true, false, some, List, [], ◌∷◌, if◌then◌else◌,
  elem, length, Distinct, Bool-cases, arith,
}
use mathlib.Core.Path.{subst}
use goteth.Utils.RoutineBook.{
  RoutineBook, new_routine_book, remove, receive, set_page, free_page, check_page_active,
  num_free_pages, Step, receives, sets, frees, Steps, none_yet, and_then,
}

-- The free spaces, the routines that acquire and the pages fit into the size.
pub record WithinSize (r : RoutineBook) : Type 0 where
  pub capacity : r.free + length r.taken + length r.pages ≤ r.size
  pub distinct : Distinct r.pages

length-remove :
    (key : ℕ) (xs : List ℕ) → elem key xs ≡ true → suc (length (remove key xs)) ≡ length xs
unfolding remove
length-remove key [] h = absurd (cc)
length-remove key (x ∷ xs) h = ground (arith, length-remove key xs, h)

elem-remove : (key y : ℕ) (xs : List ℕ) → elem y xs ≡ false → elem y (remove key xs) ≡ false
unfolding remove
elem-remove key y [] h = h
elem-remove key y (x ∷ xs) h = ground (arith, elem-remove key y xs, h)

Distinct-remove : (key : ℕ) (xs : List ℕ) → Distinct xs → Distinct (remove key xs)
unfolding remove
Distinct-remove key [] d = d
Distinct-remove key (x ∷ xs) d =
    ground (arith, d.0, d.1, Distinct-remove key xs d.1, elem-remove key x xs d.0)

remove_gone : (key : ℕ) (xs : List ℕ) → Distinct xs → elem key (remove key xs) ≡ false
unfolding remove
remove_gone key [] d = refl
remove_gone key (x ∷ xs) d = ground (arith, d.0, remove_gone key xs d.1)

-- What the three operations change, and how much they need.
receive-parts :
    (r t : RoutineBook) (key : ℕ)
    → receive r key ≡ some t
    → (suc t.free ≡ r.free) × (t.taken ≡ key ∷ r.taken) × (t.pages ≡ r.pages) × (t.size ≡ r.size)
unfolding receive
receive-parts r t key h = ground (arith, h)

set_page-parts :
    (r t : RoutineBook) (key : ℕ)
    → set_page r key ≡ some t
    → (elem key r.taken ≡ true)
      × (t.free ≡ r.free)
      × (t.taken ≡ remove key r.taken)
      × (t.size ≡ r.size)
      × (((elem key r.pages ≡ true) × (t.pages ≡ r.pages))
          ⊎ ((elem key r.pages ≡ false) × (t.pages ≡ key ∷ r.pages)))
unfolding set_page
set_page-parts r t key h = ground (arith, h)

free_page-parts :
    (r t : RoutineBook) (key : ℕ)
    → free_page r key ≡ some t
    → ((elem key r.pages ≡ false) × (t ≡ r))
      ⊎ ((elem key r.pages ≡ true)
          × (t.free ≡ suc r.free)
          × (t.taken ≡ r.taken)
          × (t.size ≡ r.size)
          × (t.pages ≡ remove key r.pages))
unfolding free_page
free_page-parts r t key h = ground (arith, h)

receive-WithinSize :
    (r t : RoutineBook) (key : ℕ) → WithinSize r → receive r key ≡ some t → WithinSize t
receive-WithinSize r t key w h =
    let (less, more, same, size) = receive-parts r t key h in
    record {
      capacity = ground (arith, w.capacity, less, more, same, size);
      distinct = subst Distinct (sym same) w.distinct;
    }

set_page-WithinSize :
    (r t : RoutineBook) (key : ℕ) → WithinSize r → set_page r key ≡ some t → WithinSize t
set_page-WithinSize r t key w h =
    let (held, free, taken, size, pages) = set_page-parts r t key h in
    record {
      capacity =
          ground (arith, w.capacity, free, taken, size, pages, length-remove key r.taken held);
      distinct = elim pages [
        | inl (_, same) ↦ subst Distinct (sym same) w.distinct
        | inr (absent, more) ↦ subst Distinct (sym more) (absent, w.distinct)
      ];
    }

free_page-WithinSize :
    (r t : RoutineBook) (key : ℕ) → WithinSize r → free_page r key ≡ some t → WithinSize t
free_page-WithinSize r t key w h = elim (free_page-parts r t key h) [
  | inl (_, same) ↦ subst WithinSize (sym same) w
  | inr (present, free, taken, size, pages) ↦ record {
    capacity =
        ground (arith, w.capacity, free, taken, size, pages, length-remove key r.pages present);
    distinct = subst Distinct (sym pages) (Distinct-remove key r.pages w.distinct);
  }
]

Step-WithinSize : (r t : RoutineBook) → WithinSize r → Step r t → WithinSize t
Step-WithinSize r t w (receives key h) = receive-WithinSize r t key w h
Step-WithinSize r t w (sets key h) = set_page-WithinSize r t key w h
Step-WithinSize r t w (frees key h) = free_page-WithinSize r t key w h

-- Whatever steps the routines make from a new book, in whatever order, the routines that acquire and
-- the active pages never exceed the size, and no key is booked twice.
pub Steps-WithinSize : (size : ℕ) (t : RoutineBook) → Steps (new_routine_book size) t → WithinSize t
unfolding new_routine_book
Steps-WithinSize size t none_yet = record { capacity = omega arith; distinct = tt }
Steps-WithinSize size t (and_then {s = s} steps step) =
    Step-WithinSize s t (Steps-WithinSize size s steps) step

-- In a book that steps from a new one reach, freeing a page never blocks, whatever the key: an active
-- page is deleted, which makes room in the channel for one more, and any other key changes nothing.
pub free_page-never_blocks :
    (size key : ℕ) (r : RoutineBook)
    → Steps (new_routine_book size) r
    → (t : RoutineBook) × (free_page r key ≡ some t)
      × (check_page_active t key ≡ false)
      × (num_free_pages t
          ≡ (if check_page_active r key then num_free_pages r + 1 else num_free_pages r))
unfolding free_page check_page_active num_free_pages
free_page-never_blocks size key r steps =
    let w = Steps-WithinSize size r steps in
    elim (Bool-cases (elem key r.pages)) [
      | inl present ↦
          let fewer = length-remove key r.pages present in
          (
            record r { free = suc r.free; pages = remove key r.pages },
            ground (arith, present, w.capacity, fewer),
            remove_gone key r.pages w.distinct,
            ground (arith, present, w.capacity, fewer),
          )
      | inr absent ↦ (r, ground (arith, absent), absent, ground (arith, absent))
    ]
