-- ===== src/Analyzer/ChainCache/Head.antt =====
-- The head of the cache (pkg/analyzer/chain_cache.go).
use goteth.Common.{
  ℕ, ◌≤◌, ◌<◌, ◌≡◌, inl, inr, refl, sym, ap, ◌∙◌, true, false, none, some, List, [], ◌∷◌, ◌==◌,
  elem, ◌||◌, >>=-eq-some, some_inj, Bool-cases, arith, ==_refl,
}
use mathlib.Core.Path.{subst}
use goteth.Spec.Block.{AgnosticBlock}
use goteth.Analyzer.AgnosticMap.{AgnosticMap, put, keys, set_key, get_key_list}
use goteth.Analyzer.AgnosticMap.Waiting.{set_key-cases}
use goteth.Analyzer.ChainCache.{ChainCache, any_from, set_block, move_head, add_new_block}

-- The head is a block of the highest slot that the cache holds.
pub data IsHead (s : ChainCache) : Type 0 where
  nothing : s.head_block ≡ none → get_key_list s.block_history ≡ [] → IsHead s
  highest :
      (b : AgnosticBlock)
      → s.head_block ≡ some b
      → elem b.slot (get_key_list s.block_history) ≡ true
      → ((key : ℕ) → elem key (get_key_list s.block_history) ≡ true → key ≤ b.slot)
      → IsHead s

elem-put :
    (key j : ℕ) (v : AgnosticBlock) (es : List (ℕ × AgnosticBlock))
    → elem j (keys (put key v es)) ≡ (j == key || elem j (keys es))
unfolding keys put
elem-put key j v [] = ground arith
elem-put key j v (e ∷ es) = ground (arith, elem-put key j v es)

any_from-above :
    (slot : ℕ) (ks : List ℕ)
    → any_from slot ks ≡ false
    → (key : ℕ) → elem key ks ≡ true
    → key < slot
any_from-above slot [] h key k = absurd (cc)
any_from-above slot (x ∷ ks) h key k =
    let rest : any_from slot ks ≡ false = ground (arith, h) in
    ground (arith, h, k, any_from-above slot ks rest key)

any_from-below :
    (slot top : ℕ) (ks : List ℕ)
    → any_from slot ks ≡ true
    → ((key : ℕ) → elem key ks ≡ true → key ≤ top)
    → slot ≤ top
any_from-below slot top [] h below = absurd (cc)
any_from-below slot top (x ∷ ks) h below =
    let rest : any_from slot ks ≡ true → slot ≤ top =
      λ k. any_from-below slot top ks k (λ key e. below key (ground (arith, e))) in
    ground (arith, h, rest, below x)

set_key-elem :
    (m t : AgnosticMap AgnosticBlock) (key j : ℕ) (v : AgnosticBlock)
    → set_key m key v ≡ some t
    → elem j (get_key_list t) ≡ (j == key || elem j (get_key_list m))
unfolding get_key_list
set_key-elem m t key j v h =
    subst (λ x. elem j (keys x.entries) ≡ (j == key || elem j (keys m.entries)))
      (sym (set_key-cases m t key v h)) (elem-put key j v m.entries)

module _ (s : ChainCache) (block : AgnosticBlock) (history : AgnosticMap AgnosticBlock)
    (set : set_key s.block_history block.slot block ≡ some history) where
  now :
      (j : ℕ)
      → elem j (get_key_list history) ≡ (j == block.slot || elem j (get_key_list s.block_history))
  now j = set_key-elem s.block_history history block.slot j block set

  new-IsHead :
      any_from block.slot (get_key_list s.block_history) ≡ false
      → IsHead (record s { block_history = history; head_block = some block })
  new-IsHead above = highest block refl (ground (arith, now block.slot)) (λ key h.
      ground
        (arith, now key, h, any_from-above block.slot (get_key_list s.block_history) above key))

  old-IsHead :
      any_from block.slot (get_key_list s.block_history) ≡ true
      → IsHead s
      → IsHead (record s { block_history = history })
  old-IsHead below (nothing e empty) = absurd (ground (arith, below, empty))
  old-IsHead below (highest b e held top) =
      let le = any_from-below block.slot b.slot (get_key_list s.block_history) below top in
      highest b e (ground (arith, now b.slot, held))
        (λ key h. ground (arith, now key, h, top key, le))

-- A new block, where setting it does not block and no other routine runs between the three steps, leaves
-- the head a block of the highest slot that the cache holds, whether blocks arrive in order or not.
pub add_new_block-IsHead :
    (s t : ChainCache) (block : AgnosticBlock)
    → IsHead s
    → add_new_block s block ≡ some t
    → IsHead t
unfolding add_new_block set_block move_head
add_new_block-IsHead s t block head h =
    let (u, f, made) =
      >>=-eq-some (set_block s block) (λ u. some (move_head (get_key_list s.block_history) block u))
        h in
    let (history, set, new) =
      >>=-eq-some (set_key s.block_history block.slot block)
        (λ history. some (record s { block_history = history })) f in
    elim (Bool-cases (any_from block.slot (get_key_list s.block_history))) [
      | inl below ↦
          subst IsHead (some_inj (ground (arith, below, new, made)))
            (old-IsHead s block history set below head)
      | inr above ↦
          subst IsHead (some_inj (ground (arith, above, new, made)))
            (new-IsHead s block history set above)
    ]

any_from-none :
    (slot : ℕ) (ks : List ℕ)
    → ((key : ℕ) → elem key ks ≡ true → key < slot)
    → any_from slot ks ≡ false
any_from-none slot [] h = refl
any_from-none slot (x ∷ ks) h =
    ground (arith, h x, any_from-none slot ks (λ key e. h key (ground (arith, e))), ==_refl x)

set_block-history :
    (s u : ChainCache) (block : AgnosticBlock)
    → set_block s block ≡ some u
    → (history : AgnosticMap AgnosticBlock) × (set_key s.block_history block.slot block
        ≡ some history)
      × (record s { block_history = history } ≡ u)
unfolding set_block
set_block-history s u block f =
    let (history, set, new) =
      >>=-eq-some (set_key s.block_history block.slot block)
        (λ history. some (record s { block_history = history })) f in
    (history, set, some_inj new)

set_block-elem :
    (s u : ChainCache) (block : AgnosticBlock) (j : ℕ)
    → set_block s block ≡ some u
    → elem j (get_key_list u.block_history)
      ≡ (j == block.slot || elem j (get_key_list s.block_history))
set_block-elem s u block j f =
    let (history, set, same) = set_block-history s u block f in
    ap (λ (c : ChainCache). elem j (get_key_list c.block_history)) (sym same)
    ∙ set_key-elem s.block_history history block.slot j block set

-- Two routines add blocks above every block of the cache. The one with the lower slot reads the keys and
-- sets its block, then the other one runs from its first step to its last, then the first one moves the
-- head: the head goes from the higher block, which the cache still holds, back to the lower one.
pub move_head-overtaken :
    (s u t : ChainCache) (low high : AgnosticBlock)
    → low.slot < high.slot
    → any_from low.slot (get_key_list s.block_history) ≡ false
    → set_block s low ≡ some u
    → add_new_block u high ≡ some t
    → let w = move_head (get_key_list s.block_history) low t in
      (t.head_block ≡ some high)
      × (w.head_block ≡ some low)
      × (elem high.slot (get_key_list w.block_history) ≡ true)
unfolding add_new_block move_head
move_head-overtaken s u t low high l above f g =
    let (x, k, made) =
      >>=-eq-some (set_block u high) (λ x. some (move_head (get_key_list u.block_history) high x))
        g in
    let free = any_from-none high.slot (get_key_list u.block_history) (λ key e. ground (
      arith,
      e,
      l,
      set_block-elem s u low key f,
      any_from-above low.slot (get_key_list s.block_history) above key,
    )) in
    let last : record x { head_block = some high } ≡ t = some_inj (ground (arith, free, made)) in
    let held : elem high.slot (get_key_list x.block_history) ≡ true =
      ground (arith, set_block-elem u x high high.slot k, ==_refl high.slot) in
    let kept : elem high.slot (get_key_list t.block_history) ≡ true =
      ap (λ (c : ChainCache). elem high.slot (get_key_list c.block_history)) (sym last) ∙ held in
    (ap (λ (c : ChainCache). c.head_block) (sym last), rw above refl, rw above kept)
