-- ===== src/Metrics/Electra/Bundle/Reprocessing.antt =====
-- Processing the same states again (pkg/spec/metrics/state_electra.go).
use goteth.Common.{
  ℕ, suc, ◌≡◌, refl, sym, ap, ◌∙◌, Bool, true, false, Option, none, some, List, [], ◌∷◌, ◌++◌,
  add64, ltb, if◌then◌else◌, ◌>>=◌, >>=-eq-some, some_inj, arith,
}
use mathlib.Core.Path.{subst}
use goteth.Spec.Validator.{Validator}
use goteth.Spec.State.{AgnosticState, GweiMap, bump, PendingConsolidation}
use goteth.Metrics.{StateMetricsBase}
use goteth.Metrics.Electra.Pending.{
  Verdict, skip, stop, move, verdict, process_pending_from, process_pending_consolidations,
  processed, consolidate_rewards_from, process_consolidations_for_reward_calculation,
  restructure_from, process_excess_active_balance_restructuring,
}
use goteth.Metrics.Electra.Deposits.{
  process_pending_deposits, process_deposits_for_reward_calculation,
}
use goteth.Metrics.Electra.Bundle.{clear_maps, replay_balances, pre_process_balances}

either-clear :
    (b : Bool) (s : AgnosticState) (out : GweiMap)
    → clear_maps (if b then (record s { consolidated_out_amounts = out }) else s) ≡ clear_maps s
unfolding clear_maps
either-clear true s out = refl
either-clear false s out = refl

one-clear :
    (a : Bool) (o : Option ℕ) (least : ℕ) (out : ℕ → GweiMap) (s u : AgnosticState)
    → (if a
        then o >>= (λ b.
          some (if ltb least b then (record s { consolidated_out_amounts = out b }) else s))
        else some s)
      ≡ some u
    → clear_maps u ≡ clear_maps s
one-clear false o least out s u h = ap clear_maps (sym (some_inj h))
one-clear true none least out s u h = absurd (cc)
one-clear true (some b) least out s u h =
    ap clear_maps (sym (some_inj h)) ∙ either-clear (ltb least b) s (out b)

restructure_from-clear :
    (i : ℕ) (cs ns : List Validator) (s t : AgnosticState)
    → restructure_from i cs ns s ≡ some t
    → clear_maps t ≡ clear_maps s
unfolding restructure_from clear_maps
restructure_from-clear i [] ns s t h = ap clear_maps (sym (some_inj h))
restructure_from-clear i (c ∷ cs) [] s t h = ap clear_maps (sym (some_inj h))
restructure_from-clear i (c ∷ cs) (n ∷ ns) s t h =
    let (u, first, rest) = >>=-eq-some _ (restructure_from (suc i) cs ns) h in
    restructure_from-clear (suc i) cs ns u t rest ∙ one-clear _ _ _ _ s u first

verdict-clear :
    (e : ℕ) (c : PendingConsolidation) (cs : List PendingConsolidation) (s t : AgnosticState)
    (v : Verdict)
    → verdict s e c ≡ some v
    → consolidate_rewards_from e (c ∷ cs) s ≡ some t
    → ((u : AgnosticState) → consolidate_rewards_from e cs u ≡ some t → clear_maps t ≡ clear_maps u)
    → clear_maps t ≡ clear_maps s
unfolding consolidate_rewards_from clear_maps
verdict-clear e c cs s t skip found h ih = ih s (ground (arith, found, h))
verdict-clear e c cs s t stop found h ih =
    let done : s ≡ t = ground (arith, found, h) in ap clear_maps (sym done)
verdict-clear e c cs s t (move amount) found h ih =
    let moved : AgnosticState = record s {
      consolidated_amounts = bump s.consolidated_amounts c.target_index amount;
      consolidated_out_amounts = bump s.consolidated_out_amounts c.source_index amount;
    } in
    let rest : consolidate_rewards_from e cs moved ≡ some t = ground (arith, found, h) in
    ih moved rest

consolidate_rewards_from-clear :
    (e : ℕ) (cs : List PendingConsolidation) (s t : AgnosticState)
    → consolidate_rewards_from e cs s ≡ some t
    → clear_maps t ≡ clear_maps s
unfolding consolidate_rewards_from
consolidate_rewards_from-clear e [] s t h = ap clear_maps (sym (some_inj h))
consolidate_rewards_from-clear e (c ∷ cs) s t h =
    let (v, found, _) = >>=-eq-some (verdict s e c) _ h in
    verdict-clear e c cs s t v found h (λ u. consolidate_rewards_from-clear e cs u t)

-- What the replays leave alone in the current state: all but the three maps.
replay_balances-clear :
    (current next t : AgnosticState)
    → replay_balances current next ≡ some t
    → clear_maps t ≡ clear_maps current
unfolding replay_balances clear_maps process_excess_active_balance_restructuring
    process_consolidations_for_reward_calculation process_deposits_for_reward_calculation
replay_balances-clear current next t h =
    let (s, first, h1) =
      >>=-eq-some (process_excess_active_balance_restructuring (clear_maps current) next) _ h in
    let (u, second, third) = >>=-eq-some (process_consolidations_for_reward_calculation s) _ h1 in
    ap clear_maps (sym (some_inj third))
    ∙ (consolidate_rewards_from-clear _ s.pending_consolidations s u second
        ∙ restructure_from-clear 0 current.validators next.validators (clear_maps current) s first)

-- Of the next state, the replays read the validators and the finalized epoch only.
replay_balances-reads :
    (current next next' : AgnosticState)
    → next.validators ≡ next'.validators
    → next.current_finalized_checkpoint ≡ next'.current_finalized_checkpoint
    → replay_balances current next ≡ replay_balances current next'
unfolding replay_balances process_excess_active_balance_restructuring
    process_deposits_for_reward_calculation
replay_balances-reads current next next' v c =
    ap (λ vs. replay_balances current (record next { validators = vs })) v
    ∙ ap
        (λ k.
          replay_balances current
            (record next { validators = next'.validators; current_finalized_checkpoint = k }))
        c

-- Of the current state, they read all but the three maps.
replay_balances-fresh :
    (current current' next : AgnosticState)
    → clear_maps current ≡ clear_maps current'
    → replay_balances current next ≡ replay_balances current' next
unfolding replay_balances
replay_balances-fresh current current' next e =
    ap
      (λ s. process_excess_active_balance_restructuring s next >>= λ t.
        process_consolidations_for_reward_calculation t
        >>= (λ u. some (process_deposits_for_reward_calculation u next)))
      e

-- What the recording replays leave alone in the next state.
abbrev SameReads : AgnosticState → AgnosticState → Type 0
SameReads s t =
    (t.validators ≡ s.validators)
    × (t.current_finalized_checkpoint ≡ s.current_finalized_checkpoint)

pending-step :
    (e i : ℕ) (c : PendingConsolidation) (cs : List PendingConsolidation) (s t : AgnosticState)
    (v : Verdict)
    → verdict s e c ≡ some v
    → process_pending_from e i (c ∷ cs) s ≡ some t
    → ((u : AgnosticState) → process_pending_from e (suc i) cs u ≡ some t → SameReads u t)
    → SameReads s t
unfolding process_pending_from
pending-step e i c cs s t skip found h ih =
    let u : AgnosticState = record s {
      consolidations_processed = s.consolidations_processed ++ processed s i c 0 false ∷ [];
    } in
    ih u (ground (arith, found, h))
pending-step e i c cs s t stop found h ih =
    let done : s ≡ t = ground (arith, found, h) in subst (SameReads s) done (refl, refl)
pending-step e i c cs s t (move amount) found h ih =
    let u : AgnosticState = record s {
      consolidated_amounts = bump s.consolidated_amounts c.target_index amount;
      consolidations_processed = s.consolidations_processed ++ processed s i c amount true ∷ [];
      consolidations_processed_amount = add64 s.consolidations_processed_amount amount;
    } in
    ih u (ground (arith, found, h))

process_pending_from-SameReads :
    (e i : ℕ) (cs : List PendingConsolidation) (s t : AgnosticState)
    → process_pending_from e i cs s ≡ some t
    → SameReads s t
unfolding process_pending_from
process_pending_from-SameReads e i [] s t h = subst (SameReads s) (some_inj h) (refl, refl)
process_pending_from-SameReads e i (c ∷ cs) s t h =
    let (v, found, _) = >>=-eq-some (verdict s e c) _ h in
    pending-step e i c cs s t v found h (λ u. process_pending_from-SameReads e (suc i) cs u t)

next-SameReads :
    (s t : AgnosticState)
    → process_pending_consolidations (process_pending_deposits s) ≡ some t
    → SameReads s (process_pending_deposits s) × SameReads s (process_pending_deposits t)
unfolding process_pending_consolidations process_pending_deposits
next-SameReads s t h =
    ((refl, refl), process_pending_from-SameReads _ 0 s.pending_consolidations _ t h)

-- Where the replays of a bundle, and the same replays on the states that they leave, do not panic,
-- the second ones leave the current state as it is.
pub pre_process_balances-again :
    (p q r : StateMetricsBase)
    → pre_process_balances p ≡ some q
    → pre_process_balances q ≡ some r
    → r.current_state ≡ q.current_state
unfolding pre_process_balances
pre_process_balances-again p q r h k =
    let (c, replayed, h1) =
      >>=-eq-some (replay_balances p.current_state (process_pending_deposits p.next_state)) _ h in
    let (n, consolidated, h2) =
      >>=-eq-some (process_pending_consolidations (process_pending_deposits p.next_state)) _ h1 in
    let (c', replayed', k1) =
      >>=-eq-some (replay_balances q.current_state (process_pending_deposits q.next_state)) _ k in
    let (n', consolidated', k2) =
      >>=-eq-some (process_pending_consolidations (process_pending_deposits q.next_state)) _ k1 in
    let made : c ≡ q.current_state = ap (λ x. x.current_state) (some_inj h2) in
    let left : n ≡ q.next_state = ap (λ x. x.next_state) (some_inj h2) in
    let ((v, f), (v', f')) =
      next-SameReads p.next_state q.next_state (consolidated ∙ ap some left) in
    let same_maps : clear_maps q.current_state ≡ clear_maps p.current_state =
      ap clear_maps (sym made) ∙ replay_balances-clear p.current_state _ c replayed in
    let again : replay_balances q.current_state (process_pending_deposits q.next_state) ≡ some c =
      replay_balances-fresh q.current_state p.current_state _ same_maps
      ∙ (replay_balances-reads p.current_state _ _ (v' ∙ sym v) (f' ∙ sym f) ∙ replayed) in
    let same : c' ≡ c = some_inj (sym replayed' ∙ again) in
    sym (ap (λ x. x.current_state) (some_inj k2)) ∙ (same ∙ made)
