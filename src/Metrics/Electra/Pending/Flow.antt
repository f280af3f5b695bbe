-- ===== src/Metrics/Electra/Pending/Flow.antt =====
-- The two replays of the queue of pending consolidations against the moves that the consensus
-- specification makes (pkg/spec/metrics/state_electra.go).
use goteth.Common.{
  ℕ, suc, Bool, none, not, ◌||◌, leb, get_elem?, ◌≡◌, true, false, Option, some, List, [], ◌∷◌,
  ◌++◌, ◌==◌, ◌>>=◌, >>=-eq-some, some_inj, refl, sym, ap, ◌∙◌, if◌then◌else◌, add64, loop, arith,
}
use mathlib.Core.Path.{ap₂}
use goteth.Spec.Slots.{uint64_min}
use goteth.Spec.State.{AgnosticState, bump, PendingConsolidation}
use goteth.Metrics.Electra.Pending.{
  Verdict, skip, stop, move, verdict, process_pending_from, process_pending_consolidations,
  consolidate_rewards_from, process_consolidations_for_reward_calculation, processed,
}

-- The moves of the queue, in order: those before the first source that is not slashed and not yet
-- withdrawable, without the slashed sources.
unfoldable pub moves :
    AgnosticState → ℕ → List PendingConsolidation → Option (List (PendingConsolidation × ℕ))
moves s next_epoch [] = some []
moves s next_epoch (c ∷ rest) = verdict s next_epoch c >>= λ v. elim v [
  | skip ↦ moves s next_epoch rest
  | stop ↦ some []
  | move amount ↦ moves s next_epoch rest >>= (λ ms. some ((c, amount) ∷ ms))
]

-- `acc` and the amounts of the moves whose target, or whose source, is `j`, modulo 2 ^ 64.
abbrev pub paid_to : ℕ → ℕ → List (PendingConsolidation × ℕ) → ℕ
paid_to j = loop λ acc m. if j == m.0.target_index then add64 acc m.1 else acc

abbrev pub paid_from : ℕ → ℕ → List (PendingConsolidation × ℕ) → ℕ
paid_from j = loop λ acc m. if j == m.0.source_index then add64 acc m.1 else acc

-- Only the validators and the balances decide.
record Agrees (s t : AgnosticState) : Type 0 where
  same_validators : s.validators ≡ t.validators
  same_balances : s.balances ≡ t.balances

verdict-Agrees :
    (s t : AgnosticState) (next_epoch : ℕ) (c : PendingConsolidation)
    → Agrees s t
    → verdict s next_epoch c ≡ verdict t next_epoch c
unfolding verdict
verdict-Agrees s t next_epoch c a = ground (arith, a.same_validators, a.same_balances)

moves-Agrees :
    (s t : AgnosticState) (next_epoch : ℕ) (cs : List PendingConsolidation)
    → Agrees s t
    → moves s next_epoch cs ≡ moves t next_epoch cs
unfolding moves
moves-Agrees s t next_epoch [] a = refl
moves-Agrees s t next_epoch (c ∷ cs) a =
    ground (arith, verdict-Agrees s t next_epoch c a, moves-Agrees s t next_epoch cs a)

module _ (next_epoch : ℕ) where
  -- What the rest of the queue gives from the state `s`.
  abbrev RewardsAre : AgnosticState → AgnosticState → List PendingConsolidation → Type 0
  RewardsAre s r cs =
      (ms : List (PendingConsolidation × ℕ)) × (moves s next_epoch cs ≡ some ms)
      × ((j : ℕ) → r.consolidated_amounts j ≡ paid_to j (s.consolidated_amounts j) ms)
      × ((j : ℕ) → r.consolidated_out_amounts j ≡ paid_from j (s.consolidated_out_amounts j) ms)

  abbrev moved : AgnosticState → PendingConsolidation → ℕ → AgnosticState
  moved s c amount = record s {
    consolidated_amounts = bump s.consolidated_amounts c.target_index amount;
    consolidated_out_amounts = bump s.consolidated_out_amounts c.source_index amount;
  }

  rewards-step :
      (c : PendingConsolidation) (cs : List PendingConsolidation) (s r : AgnosticState)
      (v : Verdict)
      → verdict s next_epoch c ≡ some v
      → consolidate_rewards_from next_epoch (c ∷ cs) s ≡ some r
      → ((t : AgnosticState)
          → consolidate_rewards_from next_epoch cs t ≡ some r
          → RewardsAre t r cs)
      → RewardsAre s r (c ∷ cs)
  unfolding consolidate_rewards_from moves bump
  rewards-step c cs s r skip found e ih =
      let (ms, m, to, from) = ih s (ground (arith, found, e)) in (ms, rw found m, to, from)
  rewards-step c cs s r stop found e ih =
      let done : s ≡ r = ground (arith, found, e) in
      (
        [],
        rw found,
        λ j. ap (λ (t : AgnosticState). t.consolidated_amounts j) (sym done),
        λ j. ap (λ (t : AgnosticState). t.consolidated_out_amounts j) (sym done),
      )
  rewards-step c cs s r (move amount) found e ih =
      let rest : consolidate_rewards_from next_epoch cs (moved s c amount) ≡ some r =
        ground (arith, found, e) in
      let (ms, m, to, from) = ih (moved s c amount) rest in
      let m' = sym (
        moves-Agrees s (moved s c amount) next_epoch cs
          (record { same_validators = refl; same_balances = refl })) in
      (
        (c, amount) ∷ ms,
        rw found (ap (λ o. o >>= λ l. some ((c, amount) ∷ l)) (sym m' ∙ m)),
        to,
        from,
      )

  rewards-moves :
      (cs : List PendingConsolidation) (s r : AgnosticState)
      → consolidate_rewards_from next_epoch cs s ≡ some r
      → RewardsAre s r cs
  unfolding consolidate_rewards_from moves
  rewards-moves [] s r e =
      let done = some_inj e in
      (
        [],
        refl,
        λ j. ap (λ (t : AgnosticState). t.consolidated_amounts j) (sym done),
        λ j. ap (λ (t : AgnosticState). t.consolidated_out_amounts j) (sym done),
      )
  rewards-moves (c ∷ cs) s r e =
      let (v, found, _) = >>=-eq-some (verdict s next_epoch c) _ e in
      rewards-step c cs s r v found e (λ t. rewards-moves cs t r)

  abbrev noted : AgnosticState → ℕ → PendingConsolidation → ℕ → AgnosticState
  noted s i c amount = record s {
    consolidated_amounts = bump s.consolidated_amounts c.target_index amount;
    consolidations_processed = s.consolidations_processed ++ processed s i c amount true ∷ [];
    consolidations_processed_amount = add64 s.consolidations_processed_amount amount;
  }

  abbrev skipped : AgnosticState → ℕ → PendingConsolidation → AgnosticState
  skipped s i c = record s {
    consolidations_processed = s.consolidations_processed ++ processed s i c 0 false ∷ [];
  }

  abbrev RecordsAre : AgnosticState → AgnosticState → List PendingConsolidation → Type 0
  RecordsAre s r cs =
      (ms : List (PendingConsolidation × ℕ)) × (moves s next_epoch cs ≡ some ms)
      × ((j : ℕ) → r.consolidated_amounts j ≡ paid_to j (s.consolidated_amounts j) ms)
      × (r.consolidations_processed_amount
          ≡ loop (λ acc (m : PendingConsolidation × ℕ). add64 acc m.1)
              s.consolidations_processed_amount ms)

  records-step :
      (i : ℕ) (c : PendingConsolidation) (cs : List PendingConsolidation) (s r : AgnosticState)
      (v : Verdict)
      → verdict s next_epoch c ≡ some v
      → process_pending_from next_epoch i (c ∷ cs) s ≡ some r
      → ((t : AgnosticState)
          → process_pending_from next_epoch (suc i) cs t ≡ some r
          → RecordsAre t r cs)
      → RecordsAre s r (c ∷ cs)
  unfolding process_pending_from moves bump
  records-step i c cs s r skip found e ih =
      let rest : process_pending_from next_epoch (suc i) cs (skipped s i c) ≡ some r =
        ground (arith, found, e) in
      let (ms, m, to, total) = ih (skipped s i c) rest in
      let m' =
        moves-Agrees s (skipped s i c) next_epoch cs
          (record { same_validators = refl; same_balances = refl }) in
      (ms, rw found (m' ∙ m), to, total)
  records-step i c cs s r stop found e ih =
      let done : s ≡ r = ground (arith, found, e) in
      (
        [],
        rw found,
        λ j. ap (λ (t : AgnosticState). t.consolidated_amounts j) (sym done),
        ap (λ (t : AgnosticState). t.consolidations_processed_amount) (sym done),
      )
  records-step i c cs s r (move amount) found e ih =
      let rest : process_pending_from next_epoch (suc i) cs (noted s i c amount) ≡ some r =
        ground (arith, found, e) in
      let (ms, m, to, total) = ih (noted s i c amount) rest in
      let m' =
        moves-Agrees s (noted s i c amount) next_epoch cs
          (record { same_validators = refl; same_balances = refl }) in
      ((c, amount) ∷ ms, rw found (ap (λ o. o >>= λ l. some ((c, amount) ∷ l)) (m' ∙ m)), to, total)

  records-moves :
      (i : ℕ) (cs : List PendingConsolidation) (s r : AgnosticState)
      → process_pending_from next_epoch i cs s ≡ some r
      → RecordsAre s r cs
  unfolding process_pending_from moves
  records-moves i [] s r e =
      let done = some_inj e in
      (
        [],
        refl,
        λ j. ap (λ (t : AgnosticState). t.consolidated_amounts j) (sym done),
        ap (λ (t : AgnosticState). t.consolidations_processed_amount) (sym done),
      )
  records-moves i (c ∷ cs) s r e =
      let (v, found, _) = >>=-eq-some (verdict s next_epoch c) _ e in
      records-step i c cs s r v found e (λ t. records-moves (suc i) cs t r)

-- What the consensus specification says of an entry of the queue: it is reached while every source is
-- slashed or withdrawable in the next epoch, and moves the smaller of the balance and the effective
-- balance of a source that is not slashed. An index out of range is neither.
abbrev pub is_due : AgnosticState → ℕ → PendingConsolidation → Bool
is_due s next_epoch c = elim (get_elem? s.validators c.source_index) [
  | none ↦ false
  | some source ↦ source.slashed || leb source.withdrawable_epoch next_epoch
]

abbrev pub is_unslashed : AgnosticState → PendingConsolidation → Bool
is_unslashed s c = elim (get_elem? s.validators c.source_index) [
  | none ↦ false
  | some source ↦ not source.slashed
]

abbrev pub effective_of : AgnosticState → PendingConsolidation → ℕ
effective_of s c = elim (get_elem? s.validators c.source_index) [
  | none ↦ 0
  | some source ↦ source.effective_balance
]

abbrev pub balance_of : AgnosticState → PendingConsolidation → ℕ
balance_of s c = elim (get_elem? s.balances c.source_index) [ none ↦ 0 | some balance ↦ balance ]

abbrev pub smaller : ℕ → ℕ → ℕ
smaller a b = if leb a b then a else b

-- The entries that are reached, the ones of these that move, and their amounts.
abbrev pub reached : AgnosticState → ℕ → List PendingConsolidation → List PendingConsolidation
reached s next_epoch [] = []
reached s next_epoch (c ∷ cs) = if is_due s next_epoch c then c ∷ reached s next_epoch cs else []

abbrev pub amounts : AgnosticState → List PendingConsolidation → List (PendingConsolidation × ℕ)
amounts s [] = []
amounts s (c ∷ cs) =
    if is_unslashed s c
    then (c, smaller (balance_of s c) (effective_of s c)) ∷ amounts s cs
    else amounts s cs

-- What a verdict says of its entry.
abbrev Says : AgnosticState → ℕ → PendingConsolidation → Verdict → Type 0
Says s next_epoch c skip = (is_due s next_epoch c ≡ true) × (is_unslashed s c ≡ false)
Says s next_epoch c stop = is_due s next_epoch c ≡ false
Says s next_epoch c (move amount) =
    (is_due s next_epoch c ≡ true)
    × (is_unslashed s c ≡ true)
    × (amount ≡ smaller (balance_of s c) (effective_of s c))

verdict-Says :
    (s : AgnosticState) (next_epoch : ℕ) (c : PendingConsolidation) (v : Verdict)
    → verdict s next_epoch c ≡ some v
    → Says s next_epoch c v
unfolding verdict uint64_min
verdict-Says s next_epoch c skip e = ground (arith, e)
verdict-Says s next_epoch c stop e = ground (arith, e)
verdict-Says s next_epoch c (move amount) e = ground (arith, e)

amounts-step :
    (s : AgnosticState) (next_epoch : ℕ) (c : PendingConsolidation) (cs : List PendingConsolidation)
    (ms : List (PendingConsolidation × ℕ)) (v : Verdict)
    → verdict s next_epoch c ≡ some v
    → Says s next_epoch c v
    → ((ns : List (PendingConsolidation × ℕ))
        → moves s next_epoch cs ≡ some ns
        → ns ≡ amounts s (reached s next_epoch cs))
    → moves s next_epoch (c ∷ cs) ≡ some ms
    → ms ≡ amounts s (reached s next_epoch (c ∷ cs))
unfolding moves
amounts-step s next_epoch c cs ms skip found (d, u) ih e =
    rw (d, u) (ih ms (ground (arith, found, e)))
amounts-step s next_epoch c cs ms stop found d ih e = rw d (ground (arith, found, e))
amounts-step s next_epoch c cs ms (move amount) found (d, u, same) ih e =
    let (ns, f, k) =
      >>=-eq-some (moves s next_epoch cs) (λ l. some ((c, amount) ∷ l)) {b = ms}
        (ground (arith, found, e)) in
    rw (d, u) (sym (some_inj k) ∙ ap₂ (λ x l. (c, x) ∷ l) same (ih ns f))

moves-amounts :
    (s : AgnosticState) (next_epoch : ℕ) (cs : List PendingConsolidation)
    (ms : List (PendingConsolidation × ℕ))
    → moves s next_epoch cs ≡ some ms
    → ms ≡ amounts s (reached s next_epoch cs)
unfolding moves
moves-amounts s next_epoch [] ms e = sym (some_inj e)
moves-amounts s next_epoch (c ∷ cs) ms e =
    let (v, found, _) = >>=-eq-some (verdict s next_epoch c) _ e in
    amounts-step s next_epoch c cs ms v found (verdict-Says s next_epoch c v found)
      (moves-amounts s next_epoch cs) e

-- The replay for the rewards credits every target, and debits every source, with exactly the amounts
-- that the consensus specification moves: of the entries before the first source that is neither slashed
-- nor withdrawable in the next epoch, those whose source is not slashed, each with the smaller of the
-- balance and the effective balance of its source.
pub process_consolidations_for_reward_calculation-moves :
    (current r : AgnosticState)
    → process_consolidations_for_reward_calculation current ≡ some r
    → let ms =
        amounts current (reached current (add64 current.epoch 1) current.pending_consolidations) in
      ((j : ℕ) → r.consolidated_amounts j ≡ paid_to j (current.consolidated_amounts j) ms)
      × ((j : ℕ)
          → r.consolidated_out_amounts j ≡ paid_from j (current.consolidated_out_amounts j) ms)
unfolding process_consolidations_for_reward_calculation
process_consolidations_for_reward_calculation-moves current r e =
    let next = add64 current.epoch 1 in
    let (ms, m, to, from) = rewards-moves next current.pending_consolidations current r e in
    let same = moves-amounts current next current.pending_consolidations ms m in
    (
      λ j. to j ∙ ap (paid_to j (current.consolidated_amounts j)) same,
      λ j. from j ∙ ap (paid_from j (current.consolidated_out_amounts j)) same,
    )

-- On one state the replay for the records and the replay for the rewards credit every target alike,
-- and the recorded total grows by the amounts of all the moves.
pub process_pending_consolidations-agrees :
    (s q r : AgnosticState)
    → process_pending_consolidations s ≡ some q
    → process_consolidations_for_reward_calculation s ≡ some r
    → ((j : ℕ) → q.consolidated_amounts j ≡ r.consolidated_amounts j)
      × ((ms : List (PendingConsolidation × ℕ)) × (moves s
              (add64 s.epoch 1)
              s.pending_consolidations
            ≡ some ms)
          × (q.consolidations_processed_amount
              ≡ loop
                  (λ acc (m : PendingConsolidation × ℕ). add64 acc m.1)
                  s.consolidations_processed_amount
                  ms))
unfolding process_pending_consolidations process_consolidations_for_reward_calculation
process_pending_consolidations-agrees s q r e f =
    let (ms, m, to, total) = records-moves (add64 s.epoch 1) 0 s.pending_consolidations s q e in
    let (ns, n, to', _) = rewards-moves (add64 s.epoch 1) s.pending_consolidations s r f in
    let same = some_inj (sym m ∙ n) in
    (λ j. to j ∙ ap (paid_to j (s.consolidated_amounts j)) same ∙ sym (to' j), (ms, m, total))
