-- ===== src/Analyzer/AgnosticMap/Waiting.antt =====
-- Waiting for a key of the map, and setting it (pkg/analyzer/utils.go).
use goteth.Common.{
  ℕ, ◌≡◌, refl, sym, ap, ◌∙◌, Bool, true, false, ◌&&◌, Option, none, some, List, [], ◌∷◌, ◌++◌,
  ◌==◌, if◌then◌else◌, elem, map, arith, ==_refl, some_inj,
}
use mathlib.Core.Path.{subst}
use goteth.Analyzer.AgnosticMap.{
  AgnosticMap, new_agnostic_map, find, put, remove_key, waiting, forget, is_nil, any_gone, set_key,
  wait, cancel, available, delete,
}

waiting-forget :
    (key j : ℕ) (ss : List (ℕ × ℕ))
    → waiting j (forget key ss) ≡ (if j == key then [] else waiting j ss)
unfolding waiting forget
waiting-forget key j [] = ground arith
waiting-forget key j (s ∷ ss) = ground (arith, waiting-forget key j ss)

waiting-append :
    (key j w : ℕ) (ss : List (ℕ × ℕ))
    → waiting j (ss ++ (key, w) ∷ []) ≡ (if j == key then waiting j ss ++ w ∷ [] else waiting j ss)
unfolding waiting
waiting-append key j w [] = ground arith
waiting-append key j w (s ∷ ss) = ground (arith, waiting-append key j w ss)

any_gone-append :
    (gone ws : List ℕ) (w : ℕ) → elem w gone ≡ true → any_gone gone (ws ++ w ∷ []) ≡ true
any_gone-append gone [] w h = ground (arith, h)
any_gone-append gone (x ∷ ws) w h = ground (arith, any_gone-append gone ws w h)

some_of_if : {B : Type 0} (b : Bool) (x t : B) → (if b then none else some x) ≡ some t → x ≡ t
some_of_if true x t h = absurd (cc)
some_of_if false x t h = some_inj h

if_cases :
    {B : Type 0} (P : B → Type 0) (b : Bool) (x y : B)
    → (b ≡ true → P x)
    → P y
    → P (if b then x else y)
if_cases P true x y h k = h refl
if_cases P false x y h k = k

module _ {A : Type 0} where
  -- No routine waits for a key that the map holds.
  pub record WaitValid (m : AgnosticMap A) : Type 0 where
    pub absent : (key : ℕ) → is_nil (waiting key m.subs) ≡ false → find key m.entries ≡ none

  pub find-put :
      (key j : ℕ) (v : A) (es : List (ℕ × A))
      → find j (put key v es) ≡ (if j == key then some v else find j es)
  unfolding find put
  find-put key j v [] = ground arith
  find-put key j v (e ∷ es) = ground (arith, find-put key j v es)

  pub find-remove_key :
      (key j : ℕ) (es : List (ℕ × A))
      → find j (remove_key key es) ≡ (if j == key then none else find j es)
  unfolding find remove_key
  find-remove_key key j [] = ground arith
  find-remove_key key j (e ∷ es) = ground (arith, find-remove_key key j es)

  pub set_key-cases :
      (m t : AgnosticMap A) (key : ℕ) (v : A)
      → set_key m key v ≡ some t
      → t ≡ (record m {
        entries = put key v m.entries;
        subs = forget key m.subs;
        received = m.received ++ map (λ w. (w, v)) (waiting key m.subs);
      })
  unfolding set_key
  set_key-cases m t key v h = sym (some_of_if (any_gone m.gone (waiting key m.subs)) _ t h)

  set_key-WaitValid :
      (m t : AgnosticMap A) (key : ℕ) (v : A) → WaitValid m → set_key m key v ≡ some t → WaitValid t
  set_key-WaitValid m t key v valid h = subst WaitValid (sym (set_key-cases m t key v h)) (record {
    absent = λ j some_wait.
        ground (
          arith,
          find-put key j v m.entries,
          waiting-forget key j m.subs,
          valid.absent j,
          some_wait,
        );
  })

  waiting_too :
      (m : AgnosticMap A) (key w : ℕ)
      → WaitValid m
      → find key m.entries ≡ none
      → WaitValid (record m { subs = m.subs ++ (key, w) ∷ [] })
  waiting_too m key w valid free = record {
    absent = λ j some_wait.
        ground (arith, waiting-append key j w m.subs, valid.absent j, some_wait, free);
  }

  abbrev waited : AgnosticMap A → ℕ → ℕ → Option A → AgnosticMap A × Option A
  waited m key w (some value) = (m, some value)
  waited m key w none = (record m { subs = m.subs ++ (key, w) ∷ [] }, none)

  wait-waited : (m : AgnosticMap A) (key w : ℕ) → wait m key w ≡ waited m key w (find key m.entries)
  unfolding wait
  wait-waited m key w = refl

  wait_on :
      (m : AgnosticMap A) (key w : ℕ) (found : Option A)
      → WaitValid m
      → find key m.entries ≡ found
      → WaitValid (waited m key w found).0
  wait_on m key w none valid e = waiting_too m key w valid e
  wait_on m key w (some v) valid e = valid

  wait-WaitValid : (m : AgnosticMap A) (key w : ℕ) → WaitValid m → WaitValid (wait m key w).0
  wait-WaitValid m key w valid =
      subst (λ x. WaitValid x.0) (sym (wait-waited m key w))
        (wait_on m key w (find key m.entries) valid refl)

  cancel-WaitValid : (m : AgnosticMap A) (w : ℕ) → WaitValid m → WaitValid (cancel m w)
  unfolding cancel
  cancel-WaitValid m w valid = record { absent = valid.absent }

  pub delete-WaitValid : (m : AgnosticMap A) (key : ℕ) → WaitValid m → WaitValid (delete m key)
  unfolding delete
  delete-WaitValid m key valid =
      if_cases WaitValid (available m key && is_nil (waiting key m.subs)) _ m
        (λ _. record {
          absent = λ j some_wait.
              ground (arith, find-remove_key key j m.entries, valid.absent j some_wait);
        })
        valid

  -- What the routines do to the map, in any order.
  pub data Reaches : AgnosticMap A → Type 0 where
    fresh : Reaches new_agnostic_map
    sets :
        {m t : AgnosticMap A} (key : ℕ) (v : A) → Reaches m → set_key m key v ≡ some t → Reaches t
    waits : {m : AgnosticMap A} (key w : ℕ) → Reaches m → Reaches (wait m key w).0
    cancels : {m : AgnosticMap A} (w : ℕ) → Reaches m → Reaches (cancel m w)
    deletes : {m : AgnosticMap A} (key : ℕ) → Reaches m → Reaches (delete m key)

  -- In every map that the operations reach, in whatever order, no routine waits for a key that the map
  -- holds: no value is missed.
  pub Reaches-WaitValid : (m : AgnosticMap A) → Reaches m → WaitValid m
  unfolding new_agnostic_map waiting find
  Reaches-WaitValid m fresh = record { absent = λ key h. refl }
  Reaches-WaitValid m (sets {m = before} key v r h) =
      set_key-WaitValid before m key v (Reaches-WaitValid before r) h
  Reaches-WaitValid m (waits {m = before} key w r) =
      wait-WaitValid before key w (Reaches-WaitValid before r)
  Reaches-WaitValid m (cancels {m = before} w r) =
      cancel-WaitValid before w (Reaches-WaitValid before r)
  Reaches-WaitValid m (deletes {m = before} key r) =
      delete-WaitValid before key (Reaches-WaitValid before r)

  -- Where setting a key does not block, every routine that waited for it has received the value and
  -- none waits any more; the key holds the value, and the other keys what they held.
  pub set_key-sets :
      (m t : AgnosticMap A) (key : ℕ) (v : A)
      → set_key m key v ≡ some t
      → (t.received ≡ m.received ++ map (λ w. (w, v)) (waiting key m.subs))
        × (waiting key t.subs ≡ [])
        × ((j : ℕ) → find j t.entries ≡ (if j == key then some v else find j m.entries))
  set_key-sets m t key v h =
      let e = set_key-cases m t key v h in
      (
        ap (λ x. x.received) e,
        ap (λ x. waiting key x.subs) e ∙ (waiting-forget key key m.subs ∙ ground arith),
        λ j. ap (λ x. find j x.entries) e ∙ find-put key j v m.entries,
      )

  -- A routine that gives up while it waits for a key leaves its channel behind: setting the key then
  -- blocks for ever.
  pub set_key-cancel :
      (m : AgnosticMap A) (key w : ℕ) (v : A)
      → available m key ≡ false
      → set_key (cancel (wait m key w).0 w) key v ≡ none
  unfolding set_key cancel wait available
  set_key-cancel m key w v free = ground (
    arith,
    free,
    waiting-append key key w m.subs,
    any_gone-append (w ∷ m.gone) (waiting key m.subs) w (ground (arith, ==_refl w)),
  )
