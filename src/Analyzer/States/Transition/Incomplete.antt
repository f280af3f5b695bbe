-- ===== src/Analyzer/States/Transition/Incomplete.antt =====
-- The transitions to the first two epochs, whose first state is never downloaded
-- (pkg/analyzer/process_state.go).
use goteth.Common.{
  ℕ, ◌+◌, ◌/◌, ◌<◌, ◌≡◌, refl, sym, ap, ◌∙◌, false, Option, none, some, ◌>>=◌, >>=-eq-some,
  some_inj, arith, Bool-cases, inl, inr,
}
use mathlib.Core.Path.{subst}
use goteth.Spec.State.{AgnosticState}
use goteth.Metrics.{StateMetricsBase}
use goteth.Analyzer.Services.{ChainAnalyzer, Services, StateMetrics, epoch_page}
use goteth.Analyzer.Services.Waits.{
  Waited, got, ended, wait_state, acquire, release, wait_until_inactive,
}
use goteth.Analyzer.States.Transition.{
  empty_state, empty_state_root, wait_back, with_state, wait_previous, process_states,
  process_bundle, process_state_transition_metrics, share_states, is_complete, shut_down,
}

-- The metrics of every fork keep the root of the previous state that they are given.
abbrev pub KeepsRoot : Services → Type 0
KeepsRoot v =
    (n c p : AgnosticState) (bundle : StateMetrics)
    → v.state_metrics_by_fork_version n c p ≡ some bundle
    → bundle.metrics_base.prev_state.state_root ≡ p.state_root

release-calls : (s t : ChainAnalyzer) (key : ℕ) → release s key ≡ some t → t.calls ≡ s.calls
unfolding release
release-calls s t key e = ground (arith, e)

acquire-calls :
    (s t : ChainAnalyzer) (key : ℕ)
    → acquire s key ≡ some t
    → (t.calls ≡ s.calls) × (t.init_slot ≡ s.init_slot)
unfolding acquire
acquire-calls s t key e = ground (arith, e)

share_states-calls :
    (s : ChainAnalyzer) (epoch : ℕ) (base : StateMetricsBase)
    → (share_states s epoch base).calls ≡ s.calls
unfolding share_states
share_states-calls s epoch base = ground (arith)

wait_previous-same : (s t : ChainAnalyzer) (epoch : ℕ) → wait_previous s epoch ≡ some t → s ≡ t
unfolding wait_until_inactive
wait_previous-same s t epoch e = ground (arith, e)

without_root : (base : StateMetricsBase) → base.prev_state.state_root ≡ 0 → is_complete base ≡ false
unfolding empty_state_root
without_root base h = ground (arith, h)

-- The state two epochs before is the empty one.
wait_back-empty :
    (s : ChainAnalyzer) (epoch : ℕ)
    → epoch < s.init_slot / 32 + 2
    → wait_back s epoch 2 ≡ some (got empty_state)
unfolding wait_back
wait_back-empty s epoch h = ground (arith, h)

module _ (v : Services) (keeps : KeepsRoot v) where
  process_bundle-calls :
      (s t : ChainAnalyzer) (epoch : ℕ) (n c : AgnosticState) (bundle : Option StateMetrics)
      → v.state_metrics_by_fork_version n c empty_state ≡ bundle
      → process_bundle v s epoch bundle ≡ some t
      → t.calls ≡ s.calls
  unfolding process_bundle shut_down empty_state
  process_bundle-calls s t epoch n c none a e =
      let (u, g, k) = >>=-eq-some (release s (epoch_page epoch)) (λ u. some (shut_down u)) e in
      ap (λ x. x.calls) (sym (some_inj k)) ∙ release-calls s u (epoch_page epoch) g
  process_bundle-calls s t epoch n c (some bundle) a e =
      let u = share_states s epoch bundle.metrics_base in
      let part = without_root bundle.metrics_base (keeps n c empty_state bundle a) in
      release-calls u t (epoch_page epoch) (ground (arith, part, e))
      ∙ share_states-calls s epoch bundle.metrics_base

  with_state-calls :
      (s t : ChainAnalyzer) (epoch : ℕ) (w : Option (Waited AgnosticState))
      (k : AgnosticState → Option ChainAnalyzer)
      → ((state : AgnosticState) → k state ≡ some t → t.calls ≡ s.calls)
      → with_state s epoch w k ≡ some t
      → t.calls ≡ s.calls
  with_state-calls s t epoch none k h e = absurd (cc)
  with_state-calls s t epoch (some ended) k h e = release-calls s t (epoch_page epoch) e
  with_state-calls s t epoch (some (got state)) k h e = h state e

  process_states-calls :
      (s t : ChainAnalyzer) (epoch : ℕ)
      → epoch < s.init_slot / 32 + 2
      → process_states v s epoch ≡ some t
      → t.calls ≡ s.calls
  unfolding process_states
  process_states-calls s t epoch h e =
      let rest : AgnosticState → Option ChainAnalyzer = λ p.
        with_state s epoch (wait_back s epoch 1) λ c.
          with_state s epoch (wait_state s epoch)
            λ n. process_bundle v s epoch (v.state_metrics_by_fork_version n c p) in
      let f : rest empty_state ≡ some t =
        sym (ap (λ w. with_state s epoch w rest) (wait_back-empty s epoch h)) ∙ e in
      with_state-calls s t epoch (wait_back s epoch 1) _
        (λ c. with_state-calls s t epoch (wait_state s epoch) _ (λ n.
          process_bundle-calls s t epoch n c (v.state_metrics_by_fork_version n c empty_state)
            refl))
        f

-- The transition to an epoch before the first one, to the first one or to the one after it writes
-- nothing, on every path on which it returns: the state two epochs before is not waited for, and an
-- empty state stands in its place; provided that the metrics keep the root of the previous state.
pub process_state_transition_metrics-early :
    (v : Services) (s t : ChainAnalyzer) (epoch : ℕ)
    → KeepsRoot v
    → epoch < s.init_slot / 32 + 2
    → process_state_transition_metrics v s epoch ≡ some t
    → t.calls ≡ s.calls
unfolding process_state_transition_metrics
process_state_transition_metrics-early v s t epoch keeps h e = elim (Bool-cases s.metrics.epoch) [
  | inr off ↦ ground (arith, off, e)
  | inl on ↦
      let (u, f, k) =
        >>=-eq-some (acquire s (epoch_page epoch))
          (λ u. wait_previous u epoch >>= λ w. process_states v w epoch) {b = t}
          (ground (arith, on, e)) in
      let (w, g, l) = >>=-eq-some (wait_previous u epoch) (λ w. process_states v w epoch) k in
      let same = wait_previous-same u w epoch g in
      let (calls, first) = acquire-calls s u (epoch_page epoch) f in
      process_states-calls v keeps w t epoch
        (subst (λ x. epoch < x / 32 + 2) (sym first ∙ ap (λ x. x.init_slot) same) h) l
      ∙ (ap (λ x. x.calls) (sym same) ∙ calls)
]
