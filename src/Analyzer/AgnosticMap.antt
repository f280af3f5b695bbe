-- ===== src/Analyzer/AgnosticMap.antt =====
-- pkg/analyzer/utils.go: the map of blocks or states by slot or epoch, with the routines that wait for
-- a key. Each operation below runs under the mutex; `Wait` leaves it before it blocks.
pub mod Waiting
use goteth.Common.{
  ℕ, ◌≡◌, Bool, true, false, not, ◌&&◌, ◌||◌, Option, none, some, List, [], ◌∷◌, ◌++◌, ◌==◌,
  if◌then◌else◌, elem, map,
}

-- `subs` pairs a key with a routine that waits for it, `gone` holds the routines whose context ended,
-- and `received` what was sent to a routine.
pub record AgnosticMap (A : Type 0) : Type 0 where
  pub entries : List (ℕ × A)
  pub subs : List (ℕ × ℕ)
  pub gone : List ℕ
  pub received : List (ℕ × A)

-- The routines that wait for the key, in the order in which they came.
unfoldable pub waiting : ℕ → List (ℕ × ℕ) → List ℕ
waiting key [] = []
waiting key (s ∷ ss) = if key == s.0 then s.1 ∷ waiting key ss else waiting key ss

unfoldable pub forget : ℕ → List (ℕ × ℕ) → List (ℕ × ℕ)
forget key [] = []
forget key (s ∷ ss) = if key == s.0 then forget key ss else s ∷ forget key ss

abbrev pub is_nil : List ℕ → Bool
is_nil [] = true
is_nil (_ ∷ _) = false

abbrev pub any_gone : List ℕ → List ℕ → Bool
any_gone gone [] = false
any_gone gone (w ∷ ws) = elem w gone || any_gone gone ws

module _ {A : Type 0} where
  unfoldable pub new_agnostic_map : AgnosticMap A
  new_agnostic_map = record { entries = []; subs = []; gone = []; received = [] }

  unfoldable pub find : ℕ → List (ℕ × A) → Option A
  find key [] = none
  find key (e ∷ es) = if key == e.0 then some e.1 else find key es

  unfoldable pub put : ℕ → A → List (ℕ × A) → List (ℕ × A)
  put key value [] = (key, value) ∷ []
  put key value (e ∷ es) = if key == e.0 then (key, value) ∷ es else e ∷ put key value es

  unfoldable pub remove_key : ℕ → List (ℕ × A) → List (ℕ × A)
  remove_key key [] = []
  remove_key key (e ∷ es) = if key == e.0 then remove_key key es else e ∷ remove_key key es

  unfoldable pub keys : List (ℕ × A) → List ℕ
  keys [] = []
  keys (e ∷ es) = e.0 ∷ keys es

  -- The channels have no buffer: a send to a routine that is gone blocks for ever, `none`.
  unfoldable pub set_key : AgnosticMap A → ℕ → A → Option (AgnosticMap A)
  set_key m key value =
      if any_gone m.gone (waiting key m.subs)
      then none
      else some (record m {
        entries = put key value m.entries;
        subs = forget key m.subs;
        received = m.received ++ map (λ w. (w, value)) (waiting key m.subs);
      })

  -- The value, where there is one; the routine `w` subscribes otherwise.
  unfoldable pub wait : AgnosticMap A → ℕ → ℕ → AgnosticMap A × Option A
  wait m key w = elim (find key m.entries) [
    | some value ↦ (m, some value)
    | none ↦ (record m { subs = m.subs ++ (key, w) ∷ [] }, none)
  ]

  -- The context of a waiting routine ends: it returns, and its channel stays.
  unfoldable pub cancel : AgnosticMap A → ℕ → AgnosticMap A
  cancel m w = record m { gone = w ∷ m.gone }

  unfoldable pub available : AgnosticMap A → ℕ → Bool
  available m key = elim (find key m.entries) [ none ↦ false | some _ ↦ true ]

  unfoldable pub delete : AgnosticMap A → ℕ → AgnosticMap A
  delete m key =
      if available m key && is_nil (waiting key m.subs)
      then (record m { entries = remove_key key m.entries })
      else m

  unfoldable pub get_key_list : AgnosticMap A → List ℕ
  get_key_list m = keys m.entries
