-- ===== src/Analyzer/States/Transition/Frees.antt =====
-- What `ProcessStateTransitionMetrics` leaves in the book of routines, and what it writes while a state
-- is missing (pkg/analyzer/process_state.go).
use goteth.Common.{
  ℕ, ◌-◌, ◌≡◌, sym, ap, ◌∙◌, Option, none, some, ◌>>=◌, >>=-eq-some, some_inj, arith, Bool-cases,
  inl, inr,
}
use goteth.Spec.State.{AgnosticState}
use goteth.Metrics.{StateMetricsBase}
use goteth.Utils.RoutineBook.{RoutineBook, free_page}
use goteth.Analyzer.Services.{ChainAnalyzer, Services, StateMetrics, epoch_page}
use goteth.Analyzer.Services.Waits.{Waited, got, ended, wait_state, release}
use goteth.Analyzer.Blocks.Process.Book.{HasRoom, acquire_returns}
use goteth.Analyzer.States.Transition.{
  with_state, wait_previous, wait_back, process_states, process_bundle, process_complete,
  process_state_transition_metrics, share_states, is_complete, shut_down,
}
use goteth.Analyzer.States.Transition.Book.{process_complete-book, wait_until_inactive-book}

module _ (v : Services) where
  pub share_states-book :
      (s : ChainAnalyzer) (epoch : ℕ) (base : StateMetricsBase)
      → (share_states s epoch base).processer_book ≡ s.processer_book
  unfolding share_states
  share_states-book s epoch base = ground (arith)

  release-frees :
      (b : RoutineBook) (s t : ChainAnalyzer) (key : ℕ)
      → free_page s.processer_book key ≡ some b
      → release s key ≡ some t
      → t.processer_book ≡ b
  unfolding release
  release-frees b s t key f e = ground (arith, f, e)

  process_bundle-frees :
      (b : RoutineBook) (s t : ChainAnalyzer) (epoch : ℕ) (bundle : Option StateMetrics)
      → free_page s.processer_book (epoch_page epoch) ≡ some b
      → process_bundle v s epoch bundle ≡ some t
      → t.processer_book ≡ b
  unfolding process_bundle shut_down
  process_bundle-frees b s t epoch none f e =
      let (u, g, k) = >>=-eq-some (release s (epoch_page epoch)) (λ u. some (shut_down u)) e in
      ap (λ x. x.processer_book) (sym (some_inj k)) ∙ release-frees b s u (epoch_page epoch) f g
  process_bundle-frees b s t epoch (some bundle) f e =
      let u = share_states s epoch bundle.metrics_base in
      let same = share_states-book s epoch bundle.metrics_base in
      elim (Bool-cases (is_complete bundle.metrics_base)) [
        | inl c ↦
            let (w, g, k) =
              >>=-eq-some (process_complete v u bundle) (λ w. release w (epoch_page epoch))
                (ground (arith, c, e)) in
            release-frees b w t (epoch_page epoch)
              (ap (λ x. free_page x (epoch_page epoch))
                  (process_complete-book v u w bundle g ∙ same)
                ∙ f)
              k
        | inr c ↦
            release-frees b u t (epoch_page epoch)
              (ap (λ x. free_page x (epoch_page epoch)) same ∙ f) (ground (arith, c, e))
      ]

  with_state-frees :
      (b : RoutineBook) (s t : ChainAnalyzer) (epoch : ℕ) (w : Option (Waited AgnosticState))
      (k : AgnosticState → Option ChainAnalyzer)
      → free_page s.processer_book (epoch_page epoch) ≡ some b
      → ((state : AgnosticState) → k state ≡ some t → t.processer_book ≡ b)
      → with_state s epoch w k ≡ some t
      → t.processer_book ≡ b
  with_state-frees b s t epoch none k f h e = absurd (cc)
  with_state-frees b s t epoch (some ended) k f h e = release-frees b s t (epoch_page epoch) f e
  with_state-frees b s t epoch (some (got state)) k f h e = h state e

  process_states-frees :
      (b : RoutineBook) (s t : ChainAnalyzer) (epoch : ℕ)
      → free_page s.processer_book (epoch_page epoch) ≡ some b
      → process_states v s epoch ≡ some t
      → t.processer_book ≡ b
  unfolding process_states
  process_states-frees b s t epoch f e =
      with_state-frees b s t epoch (wait_back s epoch 2) _ f
        (λ p. with_state-frees b s t epoch (wait_back s epoch 1) _ f (λ c.
          with_state-frees b s t epoch (wait_state s epoch) _ f
            (λ n. process_bundle-frees b s t epoch (v.state_metrics_by_fork_version n c p) f)))
        e

  wait_previous-book :
      (s t : ChainAnalyzer) (epoch : ℕ)
      → wait_previous s epoch ≡ some t
      → t.processer_book ≡ s.processer_book
  wait_previous-book s t epoch e =
      ground (arith, e, wait_until_inactive-book s t (epoch_page (epoch - 1)))

  after_previous-frees :
      (b : RoutineBook) (s t : ChainAnalyzer) (epoch : ℕ)
      → free_page s.processer_book (epoch_page epoch) ≡ some b
      → (wait_previous s epoch >>= λ u. process_states v u epoch) ≡ some t
      → t.processer_book ≡ b
  after_previous-frees b s t epoch f e =
      let (u, g, k) = >>=-eq-some (wait_previous s epoch) (λ u. process_states v u epoch) e in
      process_states-frees b u t epoch
        (ap (λ x. free_page x (epoch_page epoch)) (wait_previous-book s u epoch g) ∙ f) k

-- On every path on which it returns (the metrics are off, the context ends during one of the waits, the
-- fork is unknown, a state is missing, everything is written) the transition leaves the book of
-- routines as it found it: the page of the epoch is freed.
pub process_state_transition_metrics-frees :
    (v : Services) (s t : ChainAnalyzer) (epoch : ℕ)
    → HasRoom s.processer_book (epoch_page epoch)
    → process_state_transition_metrics v s epoch ≡ some t
    → t.processer_book ≡ s.processer_book
unfolding process_state_transition_metrics
process_state_transition_metrics-frees v s t epoch h e = elim (Bool-cases s.metrics.epoch) [
  | inl b ↦
      let (booked, f, g) = acquire_returns s (epoch_page epoch) h in
      after_previous-frees v s.processer_book (record s { processer_book = booked }) t epoch g
        (ground (arith, b, e, f))
  | inr b ↦ ground (arith, b, e)
]
