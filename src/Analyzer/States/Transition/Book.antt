-- ===== src/Analyzer/States/Transition/Book.antt =====
-- The page of `ProcessStateTransitionMetrics` in the book of routines (pkg/analyzer/process_state.go).
use goteth.Common.{
  ℕ, ◌≡◌, refl, sym, ap, ◌∙◌, Option, none, some, List, [], ◌∷◌, ◌>>=◌, >>=-eq-some, some_inj,
  arith,
}
use goteth.Spec.Block.{AgnosticBlock}
use goteth.Spec.Rewards.{ValidatorRewards}
use goteth.Analyzer.Aggregation.{aggregate_epoch}
use goteth.Relay.Bids.{RelayBidsPerSlot}
use goteth.Metrics.{StateMetricsBase}
use goteth.Analyzer.Services.{
  ChainAnalyzer, Services, StateMetrics, BlockReward, ValidatorLastStatus, Call, slot_page, write,
  persist_block_rewards, persist_validator_rewards, insert_pool_summary, persist_duties,
}
use goteth.Analyzer.Services.Waits.{wait_until_inactive}
use goteth.Analyzer.Blocks.{share_block}
use goteth.Analyzer.Blocks.Process.{recover_block_receipts}
use goteth.Analyzer.States.{
  write_rows, write_or_die, process_slashings, store_deposits_processed,
  store_consolidations_processed, store_withdrawal_requests, store_consolidation_requests,
  store_deposit_requests, process_epoch_metrics, process_pool_metrics, process_epoch_duties,
  process_val_last_status, epoch_duties, last_statuses, replace_statuses,
}
use goteth.Analyzer.States.Rewards.{process_epoch_val_rewards, persist_rewards, collect_rewards}
use goteth.Analyzer.States.BlockRewards.{
  block_rewards, process_block_rewards, get_single_block_rewards,
}
use goteth.Analyzer.States.Transition.{process_complete, process_val_rewards, store_all}

write_or_die-book :
    (v : Services) (s t : ChainAnalyzer) (call : Call)
    → write_or_die v s call ≡ some t
    → t.processer_book ≡ s.processer_book
unfolding write_or_die
write_or_die-book v s t call e = ground (arith, e)

pub wait_until_inactive-book :
    (s t : ChainAnalyzer) (key : ℕ)
    → wait_until_inactive s key ≡ some t
    → t.processer_book ≡ s.processer_book
unfolding wait_until_inactive
wait_until_inactive-book s t key e = ground (arith, e)

write_rows-book :
    {A : Type 0} (persist : List A → Call) (s : ChainAnalyzer) (rows : List A)
    → (write_rows persist s rows).processer_book ≡ s.processer_book
unfolding write_rows
write_rows-book persist s [] = refl
write_rows-book persist s (r ∷ rows) = refl

store_all-book :
    (s : ChainAnalyzer) (base : StateMetricsBase)
    → (store_all s base).processer_book ≡ s.processer_book
unfolding store_all store_consolidations_processed store_deposit_requests store_withdrawal_requests
    store_consolidation_requests store_deposits_processed process_slashings
store_all-book s base = simp (write_rows-book)

replaced-book :
    (s t : ChainAnalyzer) (epoch : ℕ) (m : Option (List ValidatorLastStatus))
    → (m >>= λ statuses. some (replace_statuses s epoch statuses)) ≡ some t
    → t.processer_book ≡ s.processer_book
replaced-book s t epoch none e = absurd (cc)
replaced-book s t epoch (some []) e = ap (λ x. x.processer_book) (sym (some_inj e))
replaced-book s t epoch (some (x ∷ xs)) e = ap (λ x. x.processer_book) (sym (some_inj e))

process_val_last_status-book :
    (s t : ChainAnalyzer) (base : StateMetricsBase)
    → process_val_last_status s base ≡ some t
    → t.processer_book ≡ s.processer_book
unfolding process_val_last_status
process_val_last_status-book s t base e = ground (
  arith,
  e,
  replaced-book s t base.next_state.epoch
      (last_statuses base.next_state 0 base.next_state.validators),
)

block_rewards-book :
    (v : Services) (s : ChainAnalyzer) (bids : Option RelayBidsPerSlot)
    (blocks : List AgnosticBlock) (done : ChainAnalyzer × List BlockReward)
    → block_rewards v s bids blocks ≡ some done
    → done.0.processer_book ≡ s.processer_book
unfolding block_rewards share_block
block_rewards-book v s bids [] done e = ap (λ d. d.0.processer_book) (sym (some_inj e))
block_rewards-book v s bids (block ∷ blocks) done e =
    let (t, f, k) =
      >>=-eq-some (wait_until_inactive s (slot_page block.slot))
        (λ t.
          block_rewards v (share_block t (recover_block_receipts v t block)) bids blocks >>= λ rest.
          some (rest.0, get_single_block_rewards (recover_block_receipts v t block) bids ∷ rest.1))
        e in
    let b = recover_block_receipts v t block in
    let (rest, g, l) =
      >>=-eq-some (block_rewards v (share_block t b) bids blocks)
        (λ rest. some (rest.0, get_single_block_rewards b bids ∷ rest.1)) k in
    ap (λ d. d.0.processer_book) (sym (some_inj l))
    ∙ (block_rewards-book v (share_block t b) bids blocks rest g
        ∙ wait_until_inactive-book s t (slot_page block.slot) f)

module _ (v : Services) where
  process_block_rewards-book :
      (s t : ChainAnalyzer) (base : StateMetricsBase)
      → process_block_rewards v s base ≡ some t
      → t.processer_book ≡ s.processer_book
  unfolding process_block_rewards
  process_block_rewards-book s t base e =
      let bids = v.get_delivered_bids base.current_state.slot 32 in
      let (done, f, k) =
        >>=-eq-some (block_rewards v s bids base.current_state.blocks)
          (λ done. some (write done.0 (persist_block_rewards done.1))) e in
      ap (λ x. x.processer_book) (sym (some_inj k))
      ∙ block_rewards-book v s bids base.current_state.blocks done f

  persist_rewards-book :
      (s t : ChainAnalyzer) (rs : List ValidatorRewards)
      → persist_rewards v s rs ≡ some t
      → t.processer_book ≡ s.processer_book
  persist_rewards-book s t [] e = ap (λ x. x.processer_book) (sym (some_inj e))
  persist_rewards-book s t (r ∷ rs) e =
      write_or_die-book v s t (persist_validator_rewards (r ∷ rs)) e

  process_epoch_val_rewards-book :
      (s t : ChainAnalyzer) (bundle : StateMetrics)
      → process_epoch_val_rewards v s bundle ≡ some t
      → t.processer_book ≡ s.processer_book
  unfolding process_epoch_val_rewards
  process_epoch_val_rewards-book s t bundle e =
      let rs = collect_rewards bundle 0 bundle.metrics_base.next_state.validators in
      let (u, f, k) =
        >>=-eq-some (persist_rewards v s rs)
          (λ u. some (record u {
            aggregator = aggregate_epoch u.aggregator bundle.metrics_base.next_state.epoch rs;
          }))
          e in
      ap (λ x. x.processer_book) (sym (some_inj k)) ∙ persist_rewards-book s u rs f

  process_val_rewards-book :
      (s t : ChainAnalyzer) (bundle : StateMetrics)
      → process_val_rewards v s bundle ≡ some t
      → t.processer_book ≡ s.processer_book
  process_val_rewards-book s t bundle e =
      ground (arith, e, process_epoch_val_rewards-book s t bundle)

  pub process_complete-book :
      (s t : ChainAnalyzer) (bundle : StateMetrics)
      → process_complete v s bundle ≡ some t
      → t.processer_book ≡ s.processer_book
  unfolding process_complete process_epoch_duties process_epoch_metrics process_pool_metrics
  process_complete-book s t bundle e =
      let base = bundle.metrics_base in
      let (a, ea, ka) =
        >>=-eq-some (process_epoch_duties v s base)
          (λ a. process_val_last_status a base >>= λ b.
            process_block_rewards v (process_epoch_metrics b base) base >>= λ c.
            process_val_rewards v c bundle >>= λ d.
            process_pool_metrics v (store_all d base) base.prev_state.epoch)
          e in
      let (b, eb, kb) =
        >>=-eq-some (process_val_last_status a base)
          (λ b. process_block_rewards v (process_epoch_metrics b base) base >>= λ c.
            process_val_rewards v c bundle >>= λ d.
            process_pool_metrics v (store_all d base) base.prev_state.epoch)
          ka in
      let (c, ec, kc) =
        >>=-eq-some (process_block_rewards v (process_epoch_metrics b base) base)
          (λ c. process_val_rewards v c bundle >>= λ d.
            process_pool_metrics v (store_all d base) base.prev_state.epoch)
          kb in
      let (d, ed, kd) =
        >>=-eq-some (process_val_rewards v c bundle)
          (λ d. process_pool_metrics v (store_all d base) base.prev_state.epoch) kc in
      write_or_die-book v (store_all d base) t (insert_pool_summary base.prev_state.epoch) kd
      ∙ (store_all-book d base
          ∙ (process_val_rewards-book c d bundle ed
              ∙ (process_block_rewards-book (process_epoch_metrics b base) c base ec
                  ∙ (process_val_last_status-book a b base eb
                      ∙ write_or_die-book v s a (persist_duties (epoch_duties base.next_state))
                          ea))))
