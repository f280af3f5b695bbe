-- ===== src/Analyzer/Reorg/Handle/Reach.antt =====
-- How far down `HandleReorg` goes (pkg/analyzer/reorg.go).
use goteth.Common.{
  ℕ, zero, suc, ◌+◌, ◌≤◌, ◌<◌, ◌≡◌, refl, false, ◌⊎◌, inl, inr, Option, none, some, leb,
  >>=-eq-some, arith, Bool-cases, add64, sub64, u64_mod,
}
use goteth.Spec.Block.{AgnosticBlock}
use goteth.Analyzer.Services.{ChainAnalyzer, Services}
use goteth.Analyzer.Services.Waits.{Waited, got, ended, wait_block}
use goteth.Analyzer.Reorg.{Step, go_on, turn-go_on}
use goteth.Analyzer.Reorg.Handle.{
  ChainReorgEvent, Handled, or_stop, count_reorged, reorg_slot, below_zero, handle_from,
  handle_reorg,
}

-- A loop that went on did so with a block.
or_stop-go_on :
    {A B : Type 0} (s : ChainAnalyzer) (w : Option (Waited A)) (k : A → Option (Step B)) (b : B)
    → or_stop s w k ≡ some (go_on b)
    → (a : A) × (k a ≡ some (go_on b))
or_stop-go_on s none k b e = absurd (cc)
or_stop-go_on s (some ended) k b e = absurd (cc)
or_stop-go_on s (some (got a)) k b e = (a, e)

-- The count, while slot `i` is not yet handled.
abbrev CountFits : ChainReorgEvent → ℕ → ℕ → Type 0
CountFits new_reorg count i = (count ≡ 0) ⊎ (count + i < new_reorg.slot)

below_zero-stops :
    (s : ChainAnalyzer) (done : Handled) {P : Type 0} → below_zero s ≡ some (go_on done) → P
below_zero-stops s done e =
    let (block, k) = or_stop-go_on s (wait_block s (sub64 0 1)) (λ _. none) done e in absurd (cc)

count_fits :
    (new_reorg : ChainReorgEvent) (i : ℕ) (block : AgnosticBlock) (count : ℕ)
    → new_reorg.slot < u64_mod
    → CountFits new_reorg count (suc i)
    → CountFits new_reorg (count_reorged new_reorg (suc i) block count) i
unfolding add64
count_fits new_reorg i block count h f = ground (arith, f)

count_last :
    (new_reorg : ChainReorgEvent) (i : ℕ) (block : AgnosticBlock) (count : ℕ)
    → new_reorg.slot < u64_mod
    → CountFits new_reorg count i
    → leb (count_reorged new_reorg i block count) new_reorg.depth ≡ false
    → i + new_reorg.depth < new_reorg.slot
unfolding add64
count_last new_reorg i block count h f e = ground (arith, f, e)

handle_from-reach :
    (v : Services) (new_reorg : ChainReorgEvent) (s : ChainAnalyzer) (count i : ℕ) (done : Handled)
    → new_reorg.slot < u64_mod
    → CountFits new_reorg count i
    → handle_from v new_reorg s count i ≡ some (go_on done)
    → (done.1 + new_reorg.depth < new_reorg.slot) × (done.1 ≤ i)
unfolding handle_from
handle_from-reach v new_reorg s count zero done h f e =
    let (block, k) = or_stop-go_on s (wait_block s 0) _ done e in
    let (step, g, l) = >>=-eq-some (reorg_slot v s 0 block) _ k in
    let (t, m) = turn-go_on step _ done l in
    elim (Bool-cases (leb (count_reorged new_reorg 0 block count) new_reorg.depth)) [
      | inl b ↦ below_zero-stops t done (ground (arith, b, m))
      | inr b ↦ ground (arith, b, m, count_last new_reorg 0 block count)
    ]
handle_from-reach v new_reorg s count (suc i) done h f e =
    let (block, k) = or_stop-go_on s (wait_block s (suc i)) _ done e in
    let (step, g, l) = >>=-eq-some (reorg_slot v s (suc i) block) _ k in
    let (t, m) = turn-go_on step _ done l in
    let next = count_reorged new_reorg (suc i) block count in
    elim (Bool-cases (leb next new_reorg.depth)) [
      | inl b ↦ ground (
        arith,
        handle_from-reach v new_reorg t next i done h (count_fits new_reorg i block count h f)
            (ground (arith, b, m)),
      )
      | inr b ↦ ground (arith, b, m, count_last new_reorg (suc i) block count)
    ]

-- When `HandleReorg` ends by itself, the slot that it ends at lies at or below the head, and more than
-- the depth below the slot of the reorganisation.
pub handle_reorg-reach :
    (v : Services) (new_reorg : ChainReorgEvent) (s : ChainAnalyzer) (head : AgnosticBlock)
    (done : Handled)
    → new_reorg.slot < u64_mod
    → s.download_cache.head_block ≡ some head
    → handle_reorg v s new_reorg ≡ some (go_on done)
    → (done.1 + new_reorg.depth < new_reorg.slot) × (done.1 ≤ head.slot)
unfolding handle_reorg
handle_reorg-reach v new_reorg s head done h k e =
    let (head', f, l) =
      >>=-eq-some s.download_cache.head_block (λ b. handle_from v new_reorg s 0 b.slot) e in
    ground (arith, k, f, handle_from-reach v new_reorg s 0 head'.slot done h (inl refl) l)
