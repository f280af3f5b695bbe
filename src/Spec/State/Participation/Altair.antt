-- ===== src/Spec/State/Participation/Altair.antt =====
-- What `ProcessAltairAttestations` marks and sums (pkg/spec/state.go).
use goteth.Common.{
  ℕ, zero, suc, ◌≡◌, ◌<◌, refl, ◌∙◌, Bool, true, false, ◌&&◌, ◌||◌, Option, none, some, List, [],
  ◌∷◌, ◌==◌, ltb, if◌then◌else◌, get_elem?, set, add64, ◌>>=◌, >>=-eq-some, some_inj, arith,
}
use mathlib.Core.Path.{subst}
use goteth.Spec.Validator.{Validator}
use goteth.Spec.State.{AgnosticState}
use goteth.Spec.State.Participation.{
  has_flag, mark_flag, process_item, process_items, process_altair_attestations,
}

module _ {A : Type 0} where
  get_elem?-set :
      (xs : List A) (i j : ℕ) (v : A) {a : A}
      → get_elem? xs i ≡ some a
      → get_elem? (set xs i v) j ≡ (if j == i then some v else get_elem? xs j)
  get_elem?-set [] i j v h = absurd (cc)
  get_elem?-set (x ∷ xs) zero zero v h = ground arith
  get_elem?-set (x ∷ xs) zero (suc j) v h = ground arith
  get_elem?-set (x ∷ xs) (suc i) zero v h = ground arith
  get_elem?-set (x ∷ xs) (suc i) (suc j) v h = ground (arith, get_elem?-set xs i j v h)

-- The flag `g` of the validator `j`.
abbrev pub correct_at : AgnosticState → ℕ → ℕ → Option Bool
correct_at s g j = get_elem? s.prev_epoch_correct_flags g >>= λ row. get_elem? row j

abbrev pub effective_at : List Validator → ℕ → ℕ
effective_at validators i = elim (get_elem? validators i) [
  | none ↦ 0
  | some v ↦ v.effective_balance
]

-- What one item does.
record ItemDone (f : ℕ) (s : AgnosticState) (i item : ℕ) (t : AgnosticState) : Type 0 where
  same_validators : t.validators ≡ s.validators
  balances :
      (g : ℕ)
      → get_elem? t.attesting_balance g ≡ (
          get_elem? s.attesting_balance g >>= (λ b.
            some (if g == f && has_flag f item then add64 b (effective_at s.validators i) else b)))
  flags :
      (g j : ℕ)
      → correct_at t g j
        ≡ (if g == f && j == i && has_flag f item then some true else correct_at s g j)

module _ (f i item : ℕ) (s : AgnosticState) where
  kept-ItemDone : has_flag f item ≡ false → ItemDone f s i item s
  kept-ItemDone absent = record {
    same_validators = refl;
    balances = λ g. ground (arith, absent);
    flags = λ g j. ground (arith, absent);
  }

  abbrev marked : List Bool → ℕ → Validator → AgnosticState
  marked row balance v = record s {
    prev_epoch_correct_flags = set s.prev_epoch_correct_flags f (set row i true);
    attesting_balance = set s.attesting_balance f (add64 balance v.effective_balance);
  }

  marked-ItemDone :
      (row : List Bool) (old : Bool) (balance : ℕ) (v : Validator)
      → has_flag f item ≡ true
      → get_elem? s.prev_epoch_correct_flags f ≡ some row
      → get_elem? row i ≡ some old
      → get_elem? s.attesting_balance f ≡ some balance
      → get_elem? s.validators i ≡ some v
      → ItemDone f s i item (marked row balance v)
  marked-ItemDone row old balance v present r o b val = record {
    same_validators = refl;
    balances = λ g. ground (
      arith,
      present,
      b,
      val,
      get_elem?-set s.attesting_balance f g (add64 balance v.effective_balance) b,
    );
    flags = λ g j. ground (
      arith,
      present,
      r,
      get_elem?-set s.prev_epoch_correct_flags f g (set row i true) r,
      get_elem?-set row i j true o,
    );
  }

  process_item-ItemDone :
      (t : AgnosticState) (flagged : Bool)
      → has_flag f item ≡ flagged
      → process_item f s i item ≡ some t
      → ItemDone f s i item t
  unfolding process_item mark_flag
  process_item-ItemDone t true present h =
      let write : mark_flag f s i ≡ some t = ground (arith, present, h) in
      let (row, r, h1) = >>=-eq-some (get_elem? s.prev_epoch_correct_flags f) _ write in
      let (old, o, h2) = >>=-eq-some (get_elem? row i) _ h1 in
      let (balance, b, h3) = >>=-eq-some (get_elem? s.attesting_balance f) _ h2 in
      let (v, val, h4) = >>=-eq-some (get_elem? s.validators i) _ h3 in
      subst (ItemDone f s i item) (some_inj h4)
        (marked-ItemDone row old balance v present r o b val)
  process_item-ItemDone t false absent h =
      subst (ItemDone f s i item) (some_inj (ground (arith, absent, h))) (kept-ItemDone absent)

-- `acc` and the effective balances of the validators whose item has the flag.
abbrev pub flagged_sum : ℕ → List Validator → ℕ → List ℕ → ℕ → ℕ
flagged_sum f validators i [] acc = acc
flagged_sum f validators i (item ∷ items) acc =
    flagged_sum f validators (suc i) items
      (if has_flag f item then add64 acc (effective_at validators i) else acc)

-- Whether the item of the validator `j` has the flag.
abbrev pub has_at : ℕ → ℕ → List ℕ → ℕ → Bool
has_at f i [] j = false
has_at f i (item ∷ items) j = j == i && has_flag f item || has_at f (suc i) items j

record ItemsDone (f i : ℕ) (items : List ℕ) (s t : AgnosticState) : Type 0 where
  same_validators : t.validators ≡ s.validators
  balances :
      (g : ℕ)
      → get_elem? t.attesting_balance g ≡ (
          get_elem? s.attesting_balance g
          >>= (λ b. some (if g == f then flagged_sum f s.validators i items b else b)))
  flags :
      (g j : ℕ)
      → correct_at t g j ≡ (if g == f && has_at f i items j then some true else correct_at s g j)

more-ItemsDone :
    (f i item : ℕ) (items : List ℕ) (s u t : AgnosticState)
    → ItemDone f s i item u
    → ItemsDone f (suc i) items u t
    → ItemsDone f i (item ∷ items) s t
more-ItemsDone f i item items s u t one rest = record {
  same_validators = rest.same_validators ∙ one.same_validators;
  balances = λ g. ground (arith, rest.balances g, one.balances g, one.same_validators);
  flags = λ g j. ground (arith, rest.flags g j, one.flags g j);
}

process_items-ItemsDone :
    (f i : ℕ) (items : List ℕ) (s t : AgnosticState)
    → process_items f i items s ≡ some t
    → ItemsDone f i items s t
unfolding process_items
process_items-ItemsDone f i [] s t h =
    subst (ItemsDone f i [] s) (some_inj h)
      (record { same_validators = refl; balances = λ g. ground arith; flags = λ g j. ground arith })
process_items-ItemsDone f i (item ∷ items) s t h =
    let (u, first, rest) = >>=-eq-some (process_item f s i item) _ h in
    more-ItemsDone f i item items s u t
      (process_item-ItemDone f i item s u (has_flag f item) refl first)
      (process_items-ItemsDone f (suc i) items u t rest)

-- What the participation of the previous epoch leaves in the state.
pub record IsMarked (s : AgnosticState) (participation : List ℕ) (t : AgnosticState) : Type 0 where
  pub balances :
      (g : ℕ)
      → g < 3
      → get_elem? t.attesting_balance g ≡ (
          get_elem? s.attesting_balance g
          >>= (λ b. some (flagged_sum g s.validators 0 participation b)))
  pub flags :
      (g j : ℕ)
      → correct_at t g j
        ≡ (if ltb g 3 && has_at g 0 participation j then some true else correct_at s g j)

-- Where no index is out of bounds, each of the three attesting balances grows by the effective
-- balances of the validators whose participation has its flag, modulo 2 ^ 64, and exactly the flags
-- of these validators become correct.
pub process_altair_attestations-IsMarked :
    (s t : AgnosticState) (participation : List ℕ)
    → process_altair_attestations s participation ≡ some t
    → IsMarked s participation t
unfolding process_altair_attestations
process_altair_attestations-IsMarked s t participation h =
    let (u, first, h1) = >>=-eq-some (process_items 0 0 participation s) _ h in
    let (v, second, third) = >>=-eq-some (process_items 1 0 participation u) _ h1 in
    let a = process_items-ItemsDone 0 0 participation s u first in
    let b = process_items-ItemsDone 1 0 participation u v second in
    let c = process_items-ItemsDone 2 0 participation v t third in
    record {
      balances = λ g low. ground (
        arith,
        low,
        a.balances g,
        b.balances g,
        c.balances g,
        a.same_validators,
        b.same_validators,
      );
      flags = λ g j. ground (arith, a.flags g j, b.flags g j, c.flags g j);
    }
