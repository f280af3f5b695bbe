-- ===== src/Analyzer/ChainCache/Clean.antt =====
-- What `CleanUpTo` deletes and what it keeps (pkg/analyzer/chain_cache.go).
use goteth.Common.{
  ℕ, ◌≡◌, refl, sym, Bool, true, false, not, ◌&&◌, ◌||◌, Option, none, some, List, [], ◌∷◌, ◌==◌,
  leb, if◌then◌else◌, elem, mul64, loop, arith,
}
use mathlib.Core.Path.{subst}
use goteth.Analyzer.AgnosticMap.{
  AgnosticMap, find, delete, available, waiting, get_key_list, is_nil,
}
use goteth.Analyzer.AgnosticMap.Waiting.{WaitValid, find-remove_key, delete-WaitValid}
use goteth.Analyzer.ChainCache.{ChainCache, slots_of, clean_epoch, clean_up_to}

some≢none : {A : Type 0} {a : A} → some a ≡ none → ⊥
some≢none e = cc

module _ {A : Type 0} where
  delete-cases :
      (m : AgnosticMap A) (key j : ℕ) (held : Option A) (idle : Bool)
      → find key m.entries ≡ held
      → is_nil (waiting key m.subs) ≡ idle
      → (idle ≡ false → held ≡ none)
      → find j (delete m key).entries ≡ (if j == key then none else find j m.entries)
  unfolding delete available
  delete-cases m key j none idle e i h = ground (arith, e, i)
  delete-cases m key j (some v) true e i h = ground (arith, e, i, find-remove_key key j m.entries)
  delete-cases m key j (some v) false e i h = absurd (some≢none (h refl))

  find-delete :
      (m : AgnosticMap A) (key j : ℕ)
      → WaitValid m
      → find j (delete m key).entries ≡ (if j == key then none else find j m.entries)
  find-delete m key j valid =
      delete-cases m key j (find key m.entries) (is_nil (waiting key m.subs)) refl refl
        (valid.absent key)

  find-deletes :
      (ks : List ℕ) (m : AgnosticMap A) (j : ℕ)
      → WaitValid m
      → find j (loop delete m ks).entries ≡ (if elem j ks then none else find j m.entries)
  find-deletes [] m j valid = refl
  find-deletes (k ∷ ks) m j valid =
      ground (
        arith,
        find-delete m k j valid,
        find-deletes ks (delete m k) j (delete-WaitValid m k valid),
      )

  deletes-WaitValid : (ks : List ℕ) (m : AgnosticMap A) → WaitValid m → WaitValid (loop delete m ks)
  deletes-WaitValid [] m valid = valid
  deletes-WaitValid (k ∷ ks) m valid =
      deletes-WaitValid ks (delete m k) (delete-WaitValid m k valid)

-- The epoch starts before the slot.
abbrev pub is_old : ℕ → ℕ → Bool
is_old max_slot epoch = not (leb max_slot (mul64 epoch 32))

-- An old epoch of the list has the slot.
abbrev pub in_old : ℕ → ℕ → List ℕ → Bool
in_old max_slot slot [] = false
in_old max_slot slot (e ∷ es) =
    is_old max_slot e && elem slot (slots_of e) || in_old max_slot slot es

-- What is left of the cache `s` when the epochs `es` were looked at.
pub record IsCleaned (max_slot : ℕ) (es : List ℕ) (s t : ChainCache) : Type 0 where
  pub states :
      (epoch : ℕ)
      → find epoch t.state_history.entries ≡ (
          if elem epoch es && is_old max_slot epoch
          then none
          else find epoch s.state_history.entries)
  pub blocks :
      (slot : ℕ)
      → find slot t.block_history.entries
        ≡ (if in_old max_slot slot es then none else find slot s.block_history.entries)

record HistoriesValid (s : ChainCache) : Type 0 where
  pub states_valid : WaitValid s.state_history
  pub blocks_valid : WaitValid s.block_history

abbrev without_epoch : ChainCache → ℕ → ChainCache
without_epoch s e = record s {
  state_history = delete s.state_history e;
  block_history = loop delete s.block_history (slots_of e);
}

module _ (max_slot : ℕ) where
  clean_epoch-kept :
      (s : ChainCache) (e : ℕ) → is_old max_slot e ≡ false → clean_epoch max_slot s e ≡ s
  unfolding clean_epoch
  clean_epoch-kept s e h = ground (arith, h)

  clean_epoch-old :
      (s : ChainCache) (e : ℕ)
      → is_old max_slot e ≡ true
      → clean_epoch max_slot s e ≡ without_epoch s e
  unfolding clean_epoch
  clean_epoch-old s e h = ground (arith, h)

  without_epoch-HistoriesValid :
      (s : ChainCache) (e : ℕ) → HistoriesValid s → HistoriesValid (without_epoch s e)
  without_epoch-HistoriesValid s e valid = record {
    states_valid = delete-WaitValid s.state_history e valid.states_valid;
    blocks_valid = deletes-WaitValid (slots_of e) s.block_history valid.blocks_valid;
  }

  kept-IsCleaned :
      (es : List ℕ) (s t : ChainCache) (e : ℕ)
      → is_old max_slot e ≡ false
      → IsCleaned max_slot es s t
      → IsCleaned max_slot (e ∷ es) s t
  kept-IsCleaned es s t e young c = record {
    states = λ epoch. ground (arith, c.states epoch, young);
    blocks = λ slot. ground (arith, c.blocks slot, young);
  }

  old-IsCleaned :
      (es : List ℕ) (s t : ChainCache) (e : ℕ)
      → HistoriesValid s
      → is_old max_slot e ≡ true
      → IsCleaned max_slot es (without_epoch s e) t
      → IsCleaned max_slot (e ∷ es) s t
  old-IsCleaned es s t e valid old c = record {
    states = λ epoch.
        ground (arith, c.states epoch, old, find-delete s.state_history e epoch valid.states_valid);
    blocks = λ slot. ground (
      arith,
      c.blocks slot,
      old,
      find-deletes (slots_of e) s.block_history slot valid.blocks_valid,
    );
  }

  clean-step :
      (es : List ℕ) (s : ChainCache) (e : ℕ) (old : Bool)
      → is_old max_slot e ≡ old
      → HistoriesValid s
      → ((t : ChainCache)
          → HistoriesValid t
          → IsCleaned max_slot es t (loop (clean_epoch max_slot) t es))
      → IsCleaned max_slot (e ∷ es) s (loop (clean_epoch max_slot) s (e ∷ es))
  clean-step es s e true o valid rest =
      subst (λ x. IsCleaned max_slot (e ∷ es) s (loop (clean_epoch max_slot) x es))
        (sym (clean_epoch-old s e o))
        (old-IsCleaned es s _ e valid o
          (rest (without_epoch s e) (without_epoch-HistoriesValid s e valid)))
  clean-step es s e false o valid rest =
      subst (λ x. IsCleaned max_slot (e ∷ es) s (loop (clean_epoch max_slot) x es))
        (sym (clean_epoch-kept s e o)) (kept-IsCleaned es s _ e o (rest s valid))

  clean-IsCleaned :
      (es : List ℕ) (s : ChainCache)
      → HistoriesValid s
      → IsCleaned max_slot es s (loop (clean_epoch max_slot) s es)
  clean-IsCleaned [] s valid = record { states = λ epoch. refl; blocks = λ slot. refl }
  clean-IsCleaned (e ∷ es) s valid =
      clean-step es s e (is_old max_slot e) refl valid (clean-IsCleaned es)

-- On valid maps, `CleanUpTo` deletes exactly the states of the epochs that start before the slot, and
-- exactly the blocks of the slots of those of these epochs that have a state in the cache.
pub clean_up_to-IsCleaned :
    (s : ChainCache) (max_slot : ℕ)
    → WaitValid s.state_history
    → WaitValid s.block_history
    → IsCleaned max_slot (get_key_list s.state_history) s (clean_up_to s max_slot)
unfolding clean_up_to
clean_up_to-IsCleaned s max_slot states blocks =
    clean-IsCleaned max_slot (get_key_list s.state_history) s
      (record { states_valid = states; blocks_valid = blocks })
