-- ===== src/Analyzer/Reorg/Ensured/Kept.antt =====
-- The states of the cache while blocks and states are downloaded (pkg/analyzer/download.go).
use goteth.Common.{
  ℕ, ◌≡◌, refl, sym, ap, ◌∙◌, Bool, true, false, ◌||◌, Option, none, some, List, ◌==◌, ==_refl, ◌⊎◌,
  ◌>>=◌, >>=-eq-some, some_inj, arith, loop?, loop?_inv, Bool-cases, inl, inr,
}
use mathlib.Core.Path.{subst}
use goteth.Spec.Block.{AgnosticBlock}
use goteth.Spec.State.{AgnosticState}
use goteth.Spec.State.Blocks.{add_blocks}
use goteth.Analyzer.AgnosticMap.{AgnosticMap, get_key_list, set_key, available, waiting, any_gone}
use goteth.Analyzer.AgnosticMap.Waiting.{find-put}
use goteth.Analyzer.ChainCache.{
  ChainCache, collect, slots_of, add_new_state, add_new_block, set_block, move_head,
}
use goteth.Analyzer.Services.{ChainAnalyzer, Services}
use goteth.Analyzer.States.Transition.{shut_down}
use goteth.Analyzer.Download.{download_block, add_block, add_state, with_cache, with_blocks}

abbrev pub has_state : ChainAnalyzer → ℕ → Bool
has_state s epoch = available s.download_cache.state_history epoch

-- A step that keeps the states of the cache, the switches and the first slot, and never takes the end
-- of the context back.
pub record Grows (s t : ChainAnalyzer) : Type 0 where
  pub switches : t.metrics ≡ s.metrics
  pub first : t.init_slot ≡ s.init_slot
  pub ended_stays : t.cancelled ≡ false → s.cancelled ≡ false
  pub states_stay : (epoch : ℕ) → has_state s epoch ≡ true → has_state t epoch ≡ true

pub Grows-refl : (s : ChainAnalyzer) → Grows s s
Grows-refl s = record {
  switches = refl;
  first = refl;
  ended_stays = λ h. h;
  states_stay = λ epoch h. h;
}

pub Grows-trans : (s t u : ChainAnalyzer) → Grows s t → Grows t u → Grows s u
Grows-trans s t u g h = record {
  switches = h.switches ∙ g.switches;
  first = h.first ∙ g.first;
  ended_stays = λ e. g.ended_stays (h.ended_stays e);
  states_stay = λ epoch e. h.states_stay epoch (g.states_stay epoch e);
}

pub loop?-Grows :
    (f : ChainAnalyzer → ℕ → Option ChainAnalyzer)
    → ((s t : ChainAnalyzer) (x : ℕ) → f s x ≡ some t → Grows s t)
    → (s t : ChainAnalyzer) (xs : List ℕ) → loop? f s xs ≡ some t
    → Grows s t
loop?-Grows f h s t xs e =
    loop?_inv (Grows s) f (λ u x w g d. Grows-trans s u w g (h u w x d)) s xs t (Grows-refl s) e

set_key-available :
    {A : Type 0} (m n : AgnosticMap A) (key j : ℕ) (value : A)
    → set_key m key value ≡ some n
    → available n j ≡ (j == key || available m j)
unfolding set_key available
set_key-available m n key j value e = elim (Bool-cases (any_gone m.gone (waiting key m.subs))) [
  | inl b ↦ ground (arith, b, e)
  | inr b ↦ ground (arith, b, e, find-put key j value m.entries)
]

add_new_state-available :
    (c d : ChainCache) (state : AgnosticState) (j : ℕ)
    → add_new_state c state ≡ some d
    → available d.state_history j ≡ (j == state.epoch || available c.state_history j)
unfolding add_new_state
add_new_state-available c d state j e =
    let (blocks, _, f) =
      >>=-eq-some (collect c.block_history (slots_of state.epoch))
        (λ blocks. add_blocks state blocks >>= λ filled.
          set_key c.state_history state.epoch filled >>= λ history.
          some (record c { state_history = history }))
        e in
    let (filled, _, g) =
      >>=-eq-some (add_blocks state blocks)
        (λ filled. set_key c.state_history state.epoch filled >>= λ history.
          some (record c { state_history = history }))
        f in
    let (history, h, k) =
      >>=-eq-some (set_key c.state_history state.epoch filled)
        (λ history. some (record c { state_history = history })) g in
    ap (λ x. available x.state_history j) (sym (some_inj k))
    ∙ set_key-available c.state_history history state.epoch j filled h

add_new_block-states :
    (c d : ChainCache) (block : AgnosticBlock)
    → add_new_block c block ≡ some d
    → d.state_history ≡ c.state_history
unfolding add_new_block set_block move_head
add_new_block-states c d block e =
    let (t, h, k) =
      >>=-eq-some (set_block c block) (λ t. some (move_head (get_key_list c.block_history) block t))
        e in
    let (history, m, n) =
      >>=-eq-some (set_key c.block_history block.slot block)
        (λ history. some (record c { block_history = history })) h in
    ground (arith, k, n)

-- A cache that replaces that of the analyzer keeps its states.
with_cache-Grows :
    (s t : ChainAnalyzer) (cache : Option ChainCache)
    → ((c : ChainCache)
        → cache ≡ some c
        → (epoch : ℕ) → has_state s epoch ≡ true
        → available c.state_history epoch ≡ true)
    → with_cache s cache ≡ some t
    → Grows s t
with_cache-Grows s t none h e = absurd (cc)
with_cache-Grows s t (some c) h e =
    subst (Grows s) (some_inj e)
      (record { switches = refl; first = refl; ended_stays = λ d. d; states_stay = h c refl })

shut_down-Grows : (s : ChainAnalyzer) → Grows s (shut_down s)
unfolding shut_down
shut_down-Grows s = record {
  switches = refl;
  first = refl;
  ended_stays = λ e. absurd (cc);
  states_stay = λ epoch h. h;
}

add_block-Grows :
    (s t : ChainAnalyzer) (answer : Option AgnosticBlock) → add_block s answer ≡ some t → Grows s t
add_block-Grows s t none e = subst (Grows s) (some_inj e) (shut_down-Grows s)
add_block-Grows s t (some block) e =
    with_cache-Grows s t (add_new_block s.download_cache block)
      (λ c d epoch h.
        ap (λ x. available x epoch) (add_new_block-states s.download_cache c block d) ∙ h)
      e

pub download_block-Grows :
    (v : Services) (s t : ChainAnalyzer) (slot : ℕ) → download_block v s slot ≡ some t → Grows s t
unfolding download_block
download_block-Grows v s t slot e = elim (Bool-cases s.metrics.block) [
  | inl b ↦ add_block-Grows s t (v.request_beacon_block slot) (ground (arith, b, e))
  | inr b ↦ subst (Grows s) (some_inj (ground (arith, b, e))) (Grows-refl s)
]

with_blocks-cases :
    (s t : ChainAnalyzer) (blocks : Option (List AgnosticBlock)) (o : Option ChainAnalyzer)
    → with_blocks s blocks o ≡ some t
    → (o ≡ some t) ⊎ ((s ≡ t) × (s.cancelled ≡ true))
with_blocks-cases s t none o e = ground (arith, e)
with_blocks-cases s t (some _) o e = inl e

-- A state that came in is in the cache, unless the context has ended.
pub add_state-Grows :
    (s t : ChainAnalyzer) (answer : Option AgnosticState) → add_state s answer ≡ some t → Grows s t
add_state-Grows s t none e = subst (Grows s) (some_inj e) (shut_down-Grows s)
add_state-Grows s t (some state) e =
    elim (with_blocks-cases s t (collect s.download_cache.block_history (slots_of state.epoch))
      (with_cache s (add_new_state s.download_cache state)) e) [
        | inl d ↦
            with_cache-Grows s t (add_new_state s.download_cache state)
              (λ c f epoch h.
                ground (arith, h, add_new_state-available s.download_cache c state epoch f))
              d
        | inr d ↦ subst (Grows s) d.0 (Grows-refl s)
      ]

pub add_state-available :
    (s t : ChainAnalyzer) (answer : Option AgnosticState) (epoch : ℕ)
    → ((state : AgnosticState) → answer ≡ some state → state.epoch ≡ epoch)
    → add_state s answer ≡ some t
    → t.cancelled ≡ false
    → has_state t epoch ≡ true
unfolding shut_down
add_state-available s t none epoch h e l = absurd (ground (arith, e, l))
add_state-available s t (some state) epoch h e l =
    elim (with_blocks-cases s t (collect s.download_cache.block_history (slots_of state.epoch))
      (with_cache s (add_new_state s.download_cache state)) e) [
        | inl d ↦
            let (c, f, k) =
              >>=-eq-some (add_new_state s.download_cache state)
                (λ c. some (record s { download_cache = c })) d in
            ap (λ x. has_state x epoch) (sym (some_inj k))
            ∙ ground (
              arith,
              h state refl,
              ==_refl epoch,
              add_new_state-available s.download_cache c state epoch f,
            )
        | inr d ↦ absurd (ground (arith, d, l))
      ]
