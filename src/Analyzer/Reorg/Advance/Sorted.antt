-- ===== src/Analyzer/Reorg/Advance/Sorted.antt =====
-- The order in which `AdvanceFinalized` goes through the epochs (pkg/analyzer/reorg.go).
use goteth.Common.{
  ℕ, ◌-◌, ◌<◌, ◌≡◌, refl, sym, ap, ◌∙◌, Bool, true, false, ◌&&◌, ◌||◌, List, [], ◌∷◌, ◌++◌, ◌==◌,
  leb, elem, loop, arith, Bool-cases, inl, inr,
}
use goteth.Analyzer.Reorg.Advance.{insert_key, sort_keys, needs_reprocess, mark_changed}

-- Every key is a lower bound of the ones behind it.
abbrev pub is_sorted : List ℕ → Bool
is_sorted [] = true
is_sorted (x ∷ []) = true
is_sorted (x ∷ y ∷ ys) = leb x y && is_sorted (y ∷ ys)

insert_key-is_sorted :
    (key : ℕ) (xs : List ℕ) → is_sorted xs ≡ true → is_sorted (insert_key key xs) ≡ true
unfolding insert_key
insert_key-is_sorted key [] h = refl
insert_key-is_sorted key (x ∷ []) h = ground (arith)
insert_key-is_sorted key (x ∷ y ∷ ys) h = ground (arith, h, insert_key-is_sorted key (y ∷ ys))

elem-insert_key : (j key : ℕ) (xs : List ℕ) → elem j (insert_key key xs) ≡ ((j == key) || elem j xs)
unfolding insert_key
elem-insert_key j key [] = ground arith
elem-insert_key j key (x ∷ xs) = ground (arith, elem-insert_key j key xs)

elem-sort_keys : (j : ℕ) (xs : List ℕ) → elem j (sort_keys xs) ≡ elem j xs
unfolding sort_keys
elem-sort_keys j [] = refl
elem-sort_keys j (x ∷ xs) = ground (arith, elem-insert_key j x (sort_keys xs), elem-sort_keys j xs)

sort_keys-is_sorted : (xs : List ℕ) → is_sorted (sort_keys xs) ≡ true
unfolding sort_keys
sort_keys-is_sorted [] = refl
sort_keys-is_sorted (x ∷ xs) = insert_key-is_sorted x (sort_keys xs) (sort_keys-is_sorted xs)

-- The epochs that are marked after some epochs were checked, where `changed` tells which of them have a
-- block that changed.
abbrev pub marked : (ℕ → Bool) → List ℕ → List ℕ
marked changed epochs = loop (λ acc epoch. mark_changed (changed epoch) epoch acc) [] epochs

shift :
    (changed : ℕ → Bool) (j x : ℕ) (acc xs : List ℕ)
    → changed x ≡ true
    → ((elem j xs && changed j) || elem j (x ∷ acc))
      ≡ ((elem j (x ∷ xs) && changed j) || elem j acc)
shift changed j x acc xs b = ground (arith, b)

skip :
    (changed : ℕ → Bool) (j x : ℕ) (acc xs : List ℕ)
    → changed x ≡ false
    → ((elem j xs && changed j) || elem j acc) ≡ ((elem j (x ∷ xs) && changed j) || elem j acc)
skip changed j x acc xs b = ground (arith, b)

elem-loop_mark :
    (changed : ℕ → Bool) (j : ℕ) (acc xs : List ℕ)
    → elem j (loop (λ acc epoch. mark_changed (changed epoch) epoch acc) acc xs)
      ≡ ((elem j xs && changed j) || elem j acc)
elem-loop_mark changed j acc [] = refl
elem-loop_mark changed j acc (x ∷ xs) = elim (Bool-cases (changed x)) [
  | inl b ↦ rw b (elem-loop_mark changed j (x ∷ acc) xs ∙ shift changed j x acc xs b)
  | inr b ↦ rw b (elem-loop_mark changed j acc xs ∙ skip changed j x acc xs b)
]

-- Keys below a sorted list are not in it.
below_sorted : (j x : ℕ) (xs : List ℕ) → is_sorted (x ∷ xs) ≡ true → j < x → elem j (x ∷ xs) ≡ false
below_sorted j x [] h l = ground arith
below_sorted j x (y ∷ ys) h l = ground (arith, h, below_sorted j y ys)

elem_append_below :
    (j e : ℕ) (pre post : List ℕ)
    → is_sorted (e ∷ post) ≡ true
    → j < e
    → elem j (pre ++ e ∷ post) ≡ elem j pre
elem_append_below j e [] post h l = below_sorted j e post h l
elem_append_below j e (x ∷ pre) post h l = ground (arith, elem_append_below j e pre post h l)

sorted_behind :
    (e : ℕ) (pre post : List ℕ) → is_sorted (pre ++ e ∷ post) ≡ true → is_sorted (e ∷ post) ≡ true
sorted_behind e [] post h = h
sorted_behind e (x ∷ []) post h = ground (arith, h)
sorted_behind e (x ∷ y ∷ pre) post h = sorted_behind e (y ∷ pre) post (ground (arith, h))

marked_before :
    (keys pre post : List ℕ) (epoch : ℕ) (changed : ℕ → Bool) (j : ℕ)
    → sort_keys keys ≡ pre ++ epoch ∷ post
    → j < epoch
    → elem j (marked changed (pre ++ epoch ∷ [])) ≡ (elem j keys && changed j)
marked_before keys pre post epoch changed j e l =
    let sorted = sorted_behind epoch pre post (ap is_sorted (sym e) ∙ sort_keys-is_sorted keys) in
    ground (
      arith,
      elem-loop_mark changed j [] (pre ++ epoch ∷ []),
      elem_append_below j epoch pre [] refl l,
      elem_append_below j epoch pre post sorted l,
      sym (ap (elem j) e) ∙ elem-sort_keys j keys,
    )

-- The epochs are gone through in ascending order, each of the cache. When an epoch is reached, those
-- before it are marked already: its metrics are written again exactly if its own state root or one of
-- its blocks changed, or a block changed in one of the two epochs before it that the cache holds.
pub needs_reprocess_sorted :
    (keys pre post : List ℕ) (epoch : ℕ) (changed : ℕ → Bool) (root_changed : Bool)
    → sort_keys keys ≡ pre ++ epoch ∷ post
    → needs_reprocess root_changed (changed epoch) (marked changed (pre ++ epoch ∷ [])) epoch ≡ (
        root_changed
        || changed epoch
        || (leb 1 epoch && (elem (epoch - 1) keys && changed (epoch - 1)))
        || (leb 2 epoch && (elem (epoch - 2) keys && changed (epoch - 2))))
unfolding needs_reprocess
needs_reprocess_sorted keys pre post epoch changed root_changed e = ground (
  arith,
  marked_before keys pre post epoch changed (epoch - 1) e,
  marked_before keys pre post epoch changed (epoch - 2) e,
)
