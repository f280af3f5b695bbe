-- ===== src/Analyzer/Reorg/Ensured.antt =====
-- The states that `ensureDependencyStates` leaves in the cache (pkg/analyzer/reorg.go).
pub mod Kept
use goteth.Common.{
  ℕ, zero, suc, ==_iff, Option-cases, ◌+◌, ◌*◌, ◌/◌, ◌-◌, ◌<◌, ◌≤◌, ◌≡◌, refl, sym, ap, ◌∙◌, Bool,
  true, false, ◌||◌, Option, none, some, List, [], ◌∷◌, ◌==◌, ==_refl, ◌⊎◌, ltb, leb, elem,
  if◌then◌else◌, ◌>>=◌, >>=-eq-some, some_inj, arith, loop?, loop?_inv, Bool-cases, inl, inr,
  u64_mod, add64, sub64, mul64,
}
use mathlib.Core.Path.{subst}
use goteth.Spec.Block.{AgnosticBlock}
use goteth.Spec.State.{AgnosticState}
use goteth.Spec.State.Blocks.{add_blocks}
use goteth.Analyzer.AgnosticMap.{
  AgnosticMap, get_key_list, find, put, set_key, available, waiting, any_gone,
}
use goteth.Analyzer.AgnosticMap.Waiting.{find-put}
use goteth.Analyzer.ChainCache.{
  ChainCache, collect, slots_of, add_new_state, add_new_block, any_from,
}
use goteth.Analyzer.Services.{ChainAnalyzer, Services, DbMetrics}
use goteth.Analyzer.States.Transition.{shut_down}
use goteth.Analyzer.Download.{
  download_block, download_state, add_block, add_state, with_cache, state_by, attempts,
  take_epoch_boundary_state_root,
}
use goteth.Analyzer.Reorg.{dependencies, ensure_block, ensure_state, ensure_dependency_states}
use goteth.Analyzer.Reorg.Ensured.Kept.{
  has_state, Grows, Grows-refl, Grows-trans, loop?-Grows, download_block-Grows, add_state-Grows,
  add_state-available,
}

-- The node answers with the state of the slot that it is asked for, also by its root.
pub record AnswersSlots (v : Services) : Type 0 where
  pub by_slot :
      (slot : ℕ) (state : AgnosticState)
      → v.request_beacon_state slot ≡ some state
      → state.epoch ≡ slot / 32
  pub by_root :
      (attempt slot root : ℕ) (state : AgnosticState)
      → v.request_beacon_state_by_root attempt slot root ≡ some state
      → state.epoch ≡ slot / 32

module _ (v : Services) (answers : AnswersSlots v) where
  attempts-epoch :
      (slot root attempt left : ℕ) (state : AgnosticState)
      → attempts v slot root attempt left ≡ some state
      → state.epoch ≡ slot / 32
  unfolding attempts
  attempts-epoch slot root attempt zero state e = absurd (cc)
  attempts-epoch slot root attempt (suc left) state e =
      elim (Option-cases (v.request_beacon_state_by_root attempt slot root)) [
        | inl h ↦ attempts-epoch slot root (suc attempt) left state (ground (arith, h, e))
        | inr (found, h) ↦
            ap (λ x. x.epoch) {x = state} {y = found} (ground (arith, h, e))
            ∙ answers.by_root attempt slot root found h
      ]

  state_by-epoch :
      (slot : ℕ) (root : Option ℕ) (state : AgnosticState)
      → state_by v slot root ≡ some state
      → state.epoch ≡ slot / 32
  state_by-epoch slot none state e = answers.by_slot slot state e
  state_by-epoch slot (some root) state e = attempts-epoch slot root 0 3 state e

  download_state-Grows :
      (s t : ChainAnalyzer) (slot : ℕ) → download_state v s slot ≡ some t → Grows s t
  unfolding download_state take_epoch_boundary_state_root
  download_state-Grows s t slot e =
      let (u, root) = take_epoch_boundary_state_root s slot in
      let same : Grows s u = record {
        switches = refl;
        first = refl;
        ended_stays = λ d. d;
        states_stay = λ epoch h. h;
      } in
      elim (Bool-cases s.metrics.epoch) [
        | inl b ↦
            Grows-trans s u t same
              (add_state-Grows u t (state_by v slot root) (ground (arith, b, e)))
        | inr b ↦ subst (Grows s) (some_inj (ground (arith, b, e))) (Grows-refl s)
      ]

  download_state-available :
      (s t : ChainAnalyzer) (slot : ℕ)
      → s.metrics.epoch ≡ true
      → download_state v s slot ≡ some t
      → t.cancelled ≡ false
      → has_state t (slot / 32) ≡ true
  unfolding download_state
  download_state-available s t slot b e l =
      let (u, root) = take_epoch_boundary_state_root s slot in
      add_state-available u t (state_by v slot root) (slot / 32) (state_by-epoch slot root)
        (ground (arith, b, e)) l

  ensure_block-Grows : (s t : ChainAnalyzer) (slot : ℕ) → ensure_block v s slot ≡ some t → Grows s t
  unfolding ensure_block
  ensure_block-Grows s t slot e =
      elim (Bool-cases (available s.download_cache.block_history slot)) [
        | inl b ↦ subst (Grows s) (some_inj (ground (arith, b, e))) (Grows-refl s)
        | inr b ↦ download_block-Grows v s t slot (ground (arith, b, e))
      ]

  -- What an epoch that is ensured comes to.
  data Ensured (s t : ChainAnalyzer) (dep : ℕ) : Type 0 where
    early : dep < s.init_slot / 32 → s ≡ t → Ensured s t dep
    there : has_state s dep ≡ true → s ≡ t → Ensured s t dep
    asked :
        {u : ChainAnalyzer}
        → Grows s u
        → download_state v u (sub64 (mul64 (add64 dep 1) 32) 1) ≡ some t
        → Ensured s t dep

  ensure_state-Ensured :
      (s t : ChainAnalyzer) (dep : ℕ) → ensure_state v s dep ≡ some t → Ensured s t dep
  unfolding ensure_state
  ensure_state-Ensured s t dep e = elim (Bool-cases (ltb dep (s.init_slot / 32))) [
    | inl b ↦ early (ground (arith, b)) (some_inj (ground (arith, b, e)))
    | inr b ↦ elim (Bool-cases (has_state s dep)) [
      | inl c ↦ there c (some_inj (ground (arith, b, c, e)))
      | inr c ↦
          let (u, f, k) =
            >>=-eq-some (loop? (ensure_block v) s (slots_of dep))
              (λ u. download_state v u (sub64 (mul64 (add64 dep 1) 32) 1)) {b = t}
              (ground (arith, b, c, e)) in
          asked {u = u} (loop?-Grows (ensure_block v) ensure_block-Grows s u (slots_of dep) f) k
    ]
  ]

  ensure_state-Grows : (s t : ChainAnalyzer) (dep : ℕ) → ensure_state v s dep ≡ some t → Grows s t
  ensure_state-Grows s t dep e = elim (ensure_state-Ensured s t dep e) [
    | early _ d ↦ subst (Grows s) d (Grows-refl s)
    | there _ d ↦ subst (Grows s) d (Grows-refl s)
    | asked {u = u} g d ↦ Grows-trans s u t g (download_state-Grows u t _ d)
  ]

  last_slot_epoch :
      (dep : ℕ) → dep * 32 + 32 < u64_mod → sub64 (mul64 (add64 dep 1) 32) 1 / 32 ≡ dep
  unfolding sub64 mul64 add64
  last_slot_epoch dep h = ground arith

  ensure_state-available :
      (s t : ChainAnalyzer) (dep : ℕ)
      → s.metrics.epoch ≡ true
      → s.init_slot / 32 ≤ dep
      → dep * 32 + 32 < u64_mod
      → ensure_state v s dep ≡ some t
      → t.cancelled ≡ false
      → has_state t dep ≡ true
  ensure_state-available s t dep b first h e l = elim (ensure_state-Ensured s t dep e) [
    | early m d ↦ absurd (omega arith)
    | there m d ↦ ap (λ x. has_state x dep) (sym d) ∙ m
    | asked {u = u} g d ↦
        ap (has_state t) (sym (last_slot_epoch dep h))
        ∙ download_state-available u t _ (ap (λ x. x.epoch) g.switches ∙ b) d l
  ]

  all_ensured :
      (s t : ChainAnalyzer) (deps : List ℕ) (dep : ℕ)
      → s.metrics.epoch ≡ true
      → s.init_slot / 32 ≤ dep
      → dep * 32 + 32 < u64_mod
      → loop? (ensure_state v) s deps ≡ some t
      → t.cancelled ≡ false
      → elem dep deps ≡ true
      → has_state t dep ≡ true
  all_ensured s t [] dep b first h e l m = absurd (cc)
  all_ensured s t (x ∷ xs) dep b first h e l m =
      let (u, f, k) = >>=-eq-some (ensure_state v s x) (λ u. loop? (ensure_state v) u xs) e in
      let later = loop?-Grows (ensure_state v) ensure_state-Grows u t xs k in
      let g = ensure_state-Grows s u x f in
      elim (Bool-cases (dep == x)) [
        | inl c ↦ later.states_stay dep (
            ensure_state-available s u dep b first h
              (ap (λ y. ensure_state v s y) ((==_iff dep x).0 c) ∙ f) (later.ended_stays l))
        | inr c ↦
            all_ensured u t xs dep (ap (λ y. y.epoch) g.switches ∙ b)
              (subst (λ i. i / 32 ≤ dep) (sym g.first) first) h k l (ground (arith, c, m))
      ]

  -- When `ensureDependencyStates` returns and the context has not ended, the states of the epoch and of
  -- the two before it are in the cache, from the epoch of the first slot on, provided that the node
  -- answers with the states of the slots that it is asked for.
  pub ensure_dependency_states-available :
      (s t : ChainAnalyzer) (epoch dep : ℕ)
      → s.metrics.epoch ≡ true
      → epoch * 32 + 32 < u64_mod
      → ensure_dependency_states v s epoch ≡ some t
      → t.cancelled ≡ false
      → (dep ≡ epoch) ⊎ ((dep + 1 ≡ epoch) ⊎ (dep + 2 ≡ epoch))
      → s.init_slot / 32 ≤ dep
      → available t.download_cache.state_history dep ≡ true
  unfolding ensure_dependency_states dependencies
  ensure_dependency_states-available s t epoch dep b h e l m first =
      all_ensured s t (dependencies epoch) dep b first (omega (arith, m)) e l (ground (arith, m))
