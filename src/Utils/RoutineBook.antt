-- ===== src/Utils/RoutineBook.antt =====
-- pkg/utils/book.go: the book that limits how many routines run at a time. Each step below is atomic
-- in the source: a receive or a send on the channel of free spaces, or a section under the mutex.
-- `Acquire` is two steps, the receive and then `Set`; other routines may run in between.
pub mod Capacity
use goteth.Common.{
  ℕ, suc, ◌-◌, ◌≡◌, Bool, true, false, not, Option, none, some, List, [], ◌∷◌, ◌==◌, ltb,
  if◌then◌else◌, elem, length,
}

-- `free` counts what the channel holds, `taken` the keys of the routines between the two steps of
-- `Acquire`, and `pages` the keys of the map, all of whose values are "active".
pub record RoutineBook : Type 0 where
  pub size : ℕ
  pub free : ℕ
  pub taken : List ℕ
  pub pages : List ℕ

unfoldable pub new_routine_book : ℕ → RoutineBook
new_routine_book size = record { size = size; free = size; taken = []; pages = [] }

unfoldable pub remove : ℕ → List ℕ → List ℕ
remove key [] = []
remove key (x ∷ xs) = if key == x then xs else x ∷ remove key xs

-- The receive of `Acquire`; `none` where it blocks.
unfoldable pub receive : RoutineBook → ℕ → Option RoutineBook
receive r key =
    if ltb 0 r.free then some (record r { free = r.free - 1; taken = key ∷ r.taken }) else none

-- `Set` of `Acquire`, by a routine that has received; `none` where there is none.
unfoldable pub set_page : RoutineBook → ℕ → Option RoutineBook
unfolding remove
set_page r key =
    if elem key r.taken
    then some (record r {
      taken = remove key r.taken;
      pages = if elem key r.pages then r.pages else key ∷ r.pages;
    })
    else none

-- The send blocks, under the mutex, where the channel is full: `none`.
unfoldable pub free_page : RoutineBook → ℕ → Option RoutineBook
unfolding remove
free_page r key =
    if elem key r.pages
    then (if ltb r.free r.size
        then some (record r { free = suc r.free; pages = remove key r.pages })
        else none)
    else some r

unfoldable pub check_page_active : RoutineBook → ℕ → Bool
check_page_active r key = elem key r.pages

unfoldable pub active_pages : RoutineBook → ℕ
active_pages r = length r.pages

-- An `int` in the source; `-` stops at 0.
unfoldable pub num_free_pages : RoutineBook → ℕ
num_free_pages r = r.size - length r.pages

-- The steps that the routines can make.
pub data Step (r t : RoutineBook) : Type 0 where
  receives : (key : ℕ) → receive r key ≡ some t → Step r t
  sets : (key : ℕ) → set_page r key ≡ some t → Step r t
  frees : (key : ℕ) → free_page r key ≡ some t → Step r t

pub data Steps (r : RoutineBook) : RoutineBook → Type 0 where
  none_yet : Steps r r
  and_then : {s t : RoutineBook} → Steps r s → Step s t → Steps r t
