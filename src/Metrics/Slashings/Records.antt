-- ===== src/Metrics/Slashings/Records.antt =====
-- The slashings that are recorded against those that are counted
-- (pkg/spec/metrics/state_phase0.go, state_electra.go).
use mathlib.Core.Path.{subst}
use goteth.Common.{
  ℕ, ◌+◌, ◌%◌, ◌≡◌, true, false, some, List, [], ◌∷◌, ◌++◌, arith, if◌then◌else◌, add64, u64_mod,
  >>=-eq-some, loop?_inv, some_inj, loop?, ◌⊎◌, inl, inr,
}
use goteth.Spec.Validator.{Validator, slashing_intersection}
use goteth.Spec.Block.{AgnosticBlock, AttesterSlashing}
use goteth.Spec.State.{
  AgnosticState, AgnosticSlashing, SlashingReason, proposer_slashing, attester_slashing,
}
use goteth.Metrics.{StateMetricsBase}
use goteth.Metrics.Slashings.{
  SlashingPass, BlocksPass, slashing_of, slash, count_slashing, slash_attesters, slash_block,
  process_block_slashings, process_slashings_of, process_slashings, process_slashings_electra,
}

abbrev pub valid_num : List AgnosticSlashing → ℕ
valid_num [] = 0
valid_num (s ∷ ss) = (if s.valid then 1 else 0) + valid_num ss

valid_num-append :
    (ss : List AgnosticSlashing) (s : AgnosticSlashing)
    → valid_num (ss ++ s ∷ []) ≡ valid_num ss + (if s.valid then 1 else 0)
valid_num-append [] s = omega arith
valid_num-append (x ∷ ss) s = omega (arith, valid_num-append ss s)

-- The counters of a state add up to the number of its valid slashings, modulo 2 ^ 64.
abbrev pub IsTallied : AgnosticState → Type 0
IsTallied s =
    add64 s.new_attester_slashings s.new_proposer_slashings ≡ valid_num s.slashings % u64_mod

abbrev PassTallied : SlashingPass → Type 0
PassTallied pass = IsTallied pass.state

slash-PassTallied :
    (current : List Validator) (block : AgnosticBlock) (reason : SlashingReason)
    (pass : SlashingPass) (idx : ℕ) (q : SlashingPass)
    → PassTallied pass
    → slash current block reason pass idx ≡ some q
    → PassTallied q
unfolding slash count_slashing add64
slash-PassTallied current block reason pass idx q t e = ground (
  arith,
  valid_num-append pass.state.slashings (slashing_of block reason idx true),
  valid_num-append pass.state.slashings (slashing_of block reason idx false),
)

slash_block-PassTallied :
    (current : List Validator) (block : AgnosticBlock) (atts : List AttesterSlashing)
    (pass q : SlashingPass)
    → PassTallied pass
    → slash_block current block atts pass ≡ some q
    → PassTallied q
unfolding slash_block slash_attesters
slash_block-PassTallied current block atts pass q t e =
    let (r, first, rest) = >>=-eq-some (loop? (slash_attesters current block) pass atts) _ e in
    loop?_inv PassTallied (slash current block proposer_slashing)
      (slash-PassTallied current block proposer_slashing) r block.proposer_slashings q
      (loop?_inv PassTallied (slash_attesters current block)
        (λ s a u ts es.
          loop?_inv PassTallied (slash current block attester_slashing)
            (slash-PassTallied current block attester_slashing) s
            (slashing_intersection a.attesting_indices1 a.attesting_indices2) u ts es)
        pass atts r t first)
      rest

process_block-IsTallied :
    (current : List Validator) (atts : AgnosticBlock → List AttesterSlashing) (pass : BlocksPass)
    (block : AgnosticBlock) (q : BlocksPass)
    → IsTallied pass.state
    → process_block_slashings current atts pass block ≡ some q
    → IsTallied q.state
unfolding process_block_slashings
process_block-IsTallied current atts pass block q t e =
    let start : SlashingPass = record {
      state = pass.state;
      whistle_blower_reward = 0;
      proposer_reward = 0;
    } in
    let (r, slashed, done) = >>=-eq-some (slash_block current block (atts block) start) _ e in
    subst (λ (b : BlocksPass). IsTallied b.state) (some_inj done)
      (slash_block-PassTallied current block (atts block) start r t slashed)

process_slashings_of-IsTallied :
    (atts : AgnosticBlock → List AttesterSlashing) (p q : StateMetricsBase)
    → IsTallied p.next_state
    → process_slashings_of atts p ≡ some q
    → IsTallied q.next_state
unfolding process_slashings_of
process_slashings_of-IsTallied atts p q t e =
    let step = process_block_slashings p.current_state.validators atts in
    let start : BlocksPass = record {
      state = p.next_state;
      rewards = p.max_slashing_rewards;
      done = [];
    } in
    let (r, looped, done) = >>=-eq-some (loop? step start p.next_state.blocks) _ e in
    subst (λ (b : StateMetricsBase). IsTallied b.next_state) (some_inj done)
      (loop?_inv (λ (b : BlocksPass). IsTallied b.state) step
        (process_block-IsTallied p.current_state.validators atts) start p.next_state.blocks r t
        looped)

-- Both passes keep the counters of attester and proposer slashings equal, together and modulo
-- 2 ^ 64, to the number of recorded slashings that are valid.
pub process_slashings-IsTallied :
    (p q : StateMetricsBase)
    → IsTallied p.next_state
    → (process_slashings p ≡ some q) ⊎ (process_slashings_electra p ≡ some q)
    → IsTallied q.next_state
unfolding process_slashings process_slashings_electra
process_slashings-IsTallied p q t (inl e) = process_slashings_of-IsTallied _ p q t e
process_slashings-IsTallied p q t (inr e) = process_slashings_of-IsTallied _ p q t e
