-- ===== src/Analyzer/States/Duties.antt =====
-- The duties of the proposers (pkg/analyzer/process_state.go, `processEpochDuties`).
use goteth.Common.{
  ℕ, ◌≡◌, refl, ap, ◌∙◌, Bool, false, List, [], ◌∷◌, ◌++◌, ◌==◌, ==_refl, if◌then◌else◌, loop,
  loop-append, map, elem, get_elem?, zero, suc, some, arith,
}
use goteth.Spec.Block.{AgnosticBlock}
use goteth.Spec.State.{AgnosticState, ProposerDuty}
use goteth.Analyzer.Services.{ProposerDutyRow}
use goteth.Analyzer.States.{proposed_by_slot, epoch_duties, duty_row}

abbrev pub slots_of_blocks : List AgnosticBlock → List ℕ
slots_of_blocks blocks = map (λ block. block.slot) blocks

abbrev set_slot : (ℕ → Bool) → AgnosticBlock → ℕ → Bool
set_slot m block slot = if slot == block.slot then block.proposed else m slot

loop-other :
    (m : ℕ → Bool) (slot : ℕ) (blocks : List AgnosticBlock)
    → elem slot (slots_of_blocks blocks) ≡ false
    → loop {S = ℕ → Bool} set_slot m blocks slot ≡ m slot
loop-other m slot [] h = refl
loop-other m slot (block ∷ blocks) h =
    loop-other (set_slot m block) slot blocks (ground (arith, h)) ∙ ground (arith, h)

get_elem?-map :
    (f : ProposerDuty → ProposerDutyRow) (duties : List ProposerDuty) (k : ℕ) (duty : ProposerDuty)
    → get_elem? duties k ≡ some duty
    → get_elem? (map f duties) k ≡ some (f duty)
get_elem?-map f [] k duty h = absurd (cc)
get_elem?-map f (d ∷ duties) zero duty h = ground (arith, h)
get_elem?-map f (d ∷ duties) (suc k) duty h = get_elem?-map f duties k duty h

-- The row of a duty tells whether the block that the state has for its slot, the last one if there are
-- several, was proposed; the validator and the slot are those of the duty.
pub epoch_duties-proposed :
    (state : AgnosticState) (pre post : List AgnosticBlock) (block : AgnosticBlock)
    (duty : ProposerDuty) (k : ℕ)
    → state.blocks ≡ pre ++ block ∷ post
    → elem block.slot (slots_of_blocks post) ≡ false
    → get_elem? state.epoch_structs.proposer_duties k ≡ some duty
    → duty.slot ≡ block.slot
    → get_elem? (epoch_duties state) k
      ≡ some (record {
        val_idx = duty.validator_index;
        proposer_slot = duty.slot;
        proposed = block.proposed;
      })
unfolding epoch_duties proposed_by_slot
epoch_duties-proposed state pre post block duty k b last d same =
    let m = loop {S = ℕ → Bool} set_slot (λ _. false) pre in
    let found : proposed_by_slot state.blocks duty.slot ≡ block.proposed =
      ap (λ bs. proposed_by_slot bs duty.slot) b
      ∙ (ap (λ f. f duty.slot) (loop-append {S = ℕ → Bool} set_slot (λ _. false) pre (block ∷ post))
          ∙ (ap (loop {S = ℕ → Bool} set_slot m (block ∷ post)) same
              ∙ (loop-other (set_slot m block) block.slot post last
                  ∙ ground (arith, ==_refl block.slot)))) in
    get_elem?-map (duty_row (proposed_by_slot state.blocks)) state.epoch_structs.proposer_duties k
      duty d
    ∙ ap
        (λ p.
          some (record { val_idx = duty.validator_index; proposer_slot = duty.slot; proposed = p }))
        found
