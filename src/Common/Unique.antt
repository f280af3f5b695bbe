-- ===== src/Common/Unique.antt =====
-- Lists without repetition, and how many numbers of an interval such a list can hold.
use Prim.Native.Nat.{ℕ, zero, suc, ◌+◌, ◌≤◌, ◌<◌}
use mathlib.Core.Path.{◌≡◌, refl}
use mathlib.Core.List.{List, [], ◌∷◌, ◌++◌}
use mathlib.Core.Bool.{Bool, true, false}
use mathlib.Core.Logic.{inl, inr}
use native.Mathlib.Omega.{arith}
use goteth.Common.Tests.{◌==◌, ==_refl, if◌then◌else◌, Bool-cases}
use goteth.Common.Lists.{length, elem, elem-append}

-- No number stands twice in the list.
abbrev pub Distinct : List ℕ → Type 0
Distinct [] = Unit {0}
Distinct (x ∷ xs) = (elem x xs ≡ false) × Distinct xs

pub Distinct-append :
    (xs : List ℕ) (a : ℕ) → Distinct xs → elem a xs ≡ false → Distinct (xs ++ a ∷ [])
Distinct-append [] a d h = (refl, tt)
Distinct-append (x ∷ xs) a d h =
    (ground (arith, elem-append x xs (a ∷ [])), Distinct-append xs a d.1 (ground arith))

abbrev pub Within : ℕ → ℕ → List ℕ → Type 0
Within lo hi xs = (x : ℕ) → elem x xs ≡ true → (lo ≤ x) × (x < hi)

abbrev without : ℕ → List ℕ → List ℕ
without v [] = []
without v (x ∷ xs) = if x == v then without v xs else x ∷ without v xs

elem-without :
    (v x : ℕ) (xs : List ℕ) → elem x (without v xs) ≡ (if x == v then false else elem x xs)
elem-without v x [] = ground arith
elem-without v x (y ∷ ys) = ground (arith, elem-without v x ys)

without_absent : (v : ℕ) (xs : List ℕ) → elem v xs ≡ false → without v xs ≡ xs
without_absent v [] h = refl
without_absent v (x ∷ xs) h =
    let rest : elem v xs ≡ false = ground (arith, h) in ground (arith, h, without_absent v xs rest)

Distinct-keep :
    (v x : ℕ) (xs : List ℕ) (same : Bool)
    → (x == v) ≡ same
    → elem x xs ≡ false
    → Distinct (without v xs)
    → Distinct (if same then without v xs else x ∷ without v xs)
Distinct-keep v x xs true e h d = d
Distinct-keep v x xs false e h d = (ground (arith, elem-without v x xs, e, h), d)

Distinct-without : (v : ℕ) (xs : List ℕ) → Distinct xs → Distinct (without v xs)
Distinct-without v [] d = tt
Distinct-without v (x ∷ xs) d = Distinct-keep v x xs (x == v) refl d.0 (Distinct-without v xs d.1)

length-without : (v : ℕ) (xs : List ℕ) → Distinct xs → length xs ≤ suc (length (without v xs))
length-without v [] d = omega arith
length-without v (x ∷ xs) d =
    let le = length-without v xs d.1 in ground (arith, le, d.0, without_absent v xs)

-- A list without repetition within an interval is at most as long as the interval.
pub length-Within : (lo n : ℕ) (xs : List ℕ) → Distinct xs → Within lo (lo + n) xs → length xs ≤ n
length-Within lo zero [] d within = omega arith
length-Within lo zero (x ∷ xs) d within =
    absurd (omega (arith, within x (ground (arith, ==_refl x))))
length-Within lo (suc n) xs d within =
    let inside : Within lo (lo + n) (without (lo + n) xs) =
      λ x h. ground (arith, elem-without (lo + n) x xs, within x) in
    omega (
      arith,
      length-without (lo + n) xs d,
      length-Within lo n (without (lo + n) xs) (Distinct-without (lo + n) xs d) inside,
    )

-- A list without repetition that is as long as the interval it is within holds all its numbers.
pub elem_full :
    (lo n : ℕ) (xs : List ℕ)
    → Distinct xs
    → Within lo (lo + n) xs
    → n ≤ length xs
    → (x : ℕ) → lo ≤ x
    → x < lo + n
    → elem x xs ≡ true
elem_full lo n xs d within full x low high = elim (Bool-cases (elem x xs)) [
  | inl found ↦ found
  | inr absent ↦ absurd (
      omega
        (arith, full, length-Within lo n (x ∷ xs) (absent, d) (λ y h. ground (arith, within y))))
]
