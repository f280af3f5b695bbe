-- ===== src/Metrics/Electra/Consolidation/LookUp.antt =====
-- What the search for the two keys of a request finds (pkg/spec/metrics/state_electra.go).
use mathlib.Core.List.{append_assoc, append-nil}
use goteth.Common.{
  ℕ, zero, suc, ◌≡◌, Bool, true, false, Option, none, some, List, [], ◌∷◌, ◌++◌, ◌==◌, ◌||◌, length,
  get_elem?, get_elem?-append, length-append, if◌then◌else◌, arith, refl,
}
use goteth.Spec.Validator.{Validator}
use goteth.Spec.Block.{ConsolidationRequestMessage}
use goteth.Metrics.Electra.Consolidation.{PubkeyLookup, look_at, look_up}

abbrev pub has_key : ℕ → List Validator → Bool
has_key key [] = false
has_key key (v ∷ vs) = v.public_key == key || has_key key vs

-- The answer of a search for a key among validators: one with the key, at its index, or no answer
-- because none has it.
abbrev pub IsSource : ℕ → List Validator → Option (ℕ × Validator) → Type 0
IsSource key vs none = has_key key vs ≡ false
IsSource key vs (some (i, v)) = (get_elem? vs i ≡ some v) × (v.public_key ≡ key)

abbrev pub IsTarget : ℕ → List Validator → Option Validator → Type 0
IsTarget key vs none = has_key key vs ≡ false
IsTarget key vs (some v) = (v.public_key ≡ key) × (has_key key vs ≡ true)

has_key-append :
    (key : ℕ) (vs : List Validator) (v : Validator)
    → has_key key (vs ++ v ∷ []) ≡ (has_key key vs || v.public_key == key)
has_key-append key [] v = ground arith
has_key-append key (x ∷ vs) v = ground (arith, has_key-append key vs v)

get_elem?-append_left :
    (vs : List Validator) (i : ℕ) (w v : Validator)
    → get_elem? vs i ≡ some v
    → get_elem? (vs ++ w ∷ []) i ≡ some v
get_elem?-append_left [] i w v e = absurd (cc)
get_elem?-append_left (x ∷ vs) zero w v e = e
get_elem?-append_left (x ∷ vs) (suc i) w v e = get_elem?-append_left vs i w v e

IsSource-step :
    (key : ℕ) (vs : List Validator) (w : Validator) (o : Option (ℕ × Validator))
    → IsSource key vs o
    → IsSource key (vs ++ w ∷ []) (if w.public_key == key then some (length vs, w) else o)
IsSource-step key vs w none h = ground (arith, has_key-append key vs w, get_elem?-append vs w [])
IsSource-step key vs w (some (i, v)) h =
    ground (arith, get_elem?-append_left vs i w v h.0, get_elem?-append vs w [])

IsTarget-step :
    (key : ℕ) (vs : List Validator) (w : Validator) (o : Option Validator)
    → IsTarget key vs o
    → IsTarget key (vs ++ w ∷ []) (if w.public_key == key then some w else o)
IsTarget-step key vs w none h = ground (arith, has_key-append key vs w)
IsTarget-step key vs w (some v) h = ground (arith, has_key-append key vs w)

module _ (request : ConsolidationRequestMessage) where
  length-snoc :
      (before : List Validator) (v : Validator) → length (before ++ v ∷ []) ≡ suc (length before)
  length-snoc before v = omega (arith, length-append before (v ∷ []))

  abbrev Finds : List Validator → PubkeyLookup → Type 0
  Finds vs found =
      IsSource request.source_pubkey vs found.source
      × IsTarget request.target_pubkey vs found.target

  look_up-Finds :
      (before rest : List Validator) (found : PubkeyLookup)
      → Finds before found
      → Finds (before ++ rest) (look_up request (length before) rest found)
  unfolding look_up look_at
  look_up-Finds before [] found h = rw (append-nil before) h
  look_up-Finds before (v ∷ rest) found h =
      rw (append_assoc before (v ∷ []) rest, length-snoc before v) at
        (look_up-Finds (before ++ v ∷ []) rest (look_at request (length before) v found) (
          IsSource-step request.source_pubkey before v found.source h.0,
          IsTarget-step request.target_pubkey before v found.target h.1,
        ))

-- The loop over the validators finds, for either key of the request, a validator with that key, the
-- source with its index, and finds none only if no validator has the key.
pub look_up_finds :
    (request : ConsolidationRequestMessage) (validators : List Validator)
    → let found = look_up request 0 validators (record { source = none; target = none }) in
      IsSource request.source_pubkey validators found.source
      × IsTarget request.target_pubkey validators found.target
look_up_finds request validators = look_up-Finds request [] validators _ (refl, refl)
