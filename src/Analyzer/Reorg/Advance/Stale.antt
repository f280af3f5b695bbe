-- ===== src/Analyzer/Reorg/Advance/Stale.antt =====
-- The blocks of the cache while `AdvanceFinalized` checks them (pkg/analyzer/reorg.go).
use goteth.Common.{
  ℕ, ◌≡◌, refl, sym, ap, ◌∙◌, Bool, true, false, not, ◌||◌, Option, none, some, List, [], ◌∷◌, ◌==◌,
  ◌>>=◌, >>=-eq-some, some_inj, arith, Bool-cases, inl, inr, map,
}
use goteth.Spec.Block.{AgnosticBlock}
use goteth.Analyzer.AgnosticMap.{find}
use goteth.Analyzer.Services.{
  ChainAnalyzer, Services, slot_page, write, persist_blocks, delete_block_metrics,
}
use goteth.Analyzer.Services.Waits.{Waited, got, ended, wait_block, wait_key, acquire, release}
use goteth.Analyzer.Blocks.{
  share_block, share_in_history, process_eth1_data, process_deposits,
  process_bls_to_execution_changes, process_withdrawals,
}
use goteth.Analyzer.Blocks.Process.{process_waited, process_block}
use goteth.Analyzer.Blocks.Process.Book.{process_eth1_data-Same, written}
use goteth.Utils.RoutineBook.{receive, set_page, free_page}
use goteth.Analyzer.Reorg.{Step, go_on, stop_at, turn, Checked, check_root, check_blocks}

-- The slot and the root of the block that the map has for a slot.
abbrev pub root_in : List (ℕ × AgnosticBlock) → ℕ → Option (ℕ × ℕ)
root_in entries slot = elim (find slot entries) [
  | none ↦ none
  | some block ↦ some (block.slot, block.root)
]

abbrev pub cached_root : ChainAnalyzer → ℕ → Option (ℕ × ℕ)
cached_root s slot = root_in s.download_cache.block_history.entries slot

root_in-share :
    (block : AgnosticBlock) (entries : List (ℕ × AgnosticBlock)) (slot : ℕ)
    → root_in (map (share_in_history block) entries) slot ≡ root_in entries slot
unfolding find
root_in-share block [] slot = refl
root_in-share block (e ∷ entries) slot = ground (arith, root_in-share block entries slot)

release-cache :
    (s t : ChainAnalyzer) (key : ℕ) → release s key ≡ some t → t.download_cache ≡ s.download_cache
unfolding release
release-cache s t key e =
    let (b, f, k) =
      >>=-eq-some (free_page s.processer_book key) (λ b. some (record s { processer_book = b }))
        e in
    ap (λ x. x.download_cache) (sym (some_inj k))

acquire-cache :
    (s t : ChainAnalyzer) (key : ℕ) → acquire s key ≡ some t → t.download_cache ≡ s.download_cache
unfolding acquire
acquire-cache s t key e =
    let (r, f, k) =
      >>=-eq-some (receive s.processer_book key)
        (λ r. set_page r key >>= λ b. some (record s { processer_book = b })) e in
    let (b, g, l) = >>=-eq-some (set_page r key) (λ b. some (record s { processer_book = b })) k in
    ap (λ x. x.download_cache) (sym (some_inj l))

process_deposits-cache :
    (s : ChainAnalyzer) (block : AgnosticBlock)
    → (process_deposits s block).download_cache ≡ s.download_cache
unfolding process_deposits
process_deposits-cache s block = ground (arith)

process_bls_to_execution_changes-cache :
    (s : ChainAnalyzer) (block : AgnosticBlock)
    → (process_bls_to_execution_changes s block).download_cache ≡ s.download_cache
unfolding process_bls_to_execution_changes
process_bls_to_execution_changes-cache s block = ground (arith)

written-roots :
    (s : ChainAnalyzer) (block : AgnosticBlock) (slot : ℕ)
    → cached_root (written s block) slot ≡ cached_root s slot
unfolding written share_block
written-roots s block slot =
    ap (λ c. root_in c.block_history.entries slot)
      (process_deposits-cache (process_bls_to_execution_changes (share_block s block) block) block
        ∙ process_bls_to_execution_changes-cache (share_block s block) block)
    ∙ root_in-share block s.download_cache.block_history.entries slot

module _ (v : Services) where
  process_waited-roots :
      (s t : ChainAnalyzer) (key : ℕ) (w : Waited AgnosticBlock)
      → process_waited v s key w ≡ some t
      → (slot : ℕ) → cached_root t slot ≡ cached_root s slot
  unfolding process_waited written process_withdrawals
  process_waited-roots s t key ended e slot =
      ap (λ c. root_in c.block_history.entries slot) (release-cache s t (slot_page key) e)
  process_waited-roots s t key (got block) e slot =
      let s' = process_withdrawals (write s (persist_blocks (block ∷ []))) block in
      let (p, h, k) =
        >>=-eq-some (process_eth1_data v s' block)
          (λ p. release (written p.analyzer p.block) (slot_page key)) e in
      ap (λ c. root_in c.block_history.entries slot)
        (release-cache (written p.analyzer p.block) t (slot_page key) k)
      ∙ (written-roots p.analyzer p.block slot
          ∙ ap (λ c. root_in c.block_history.entries slot)
              (process_eth1_data-Same v s' block p h).cache)

  process_block-roots :
      (s t : ChainAnalyzer) (key : ℕ)
      → process_block v s key ≡ some t
      → (slot : ℕ) → cached_root t slot ≡ cached_root s slot
  unfolding process_block
  process_block-roots s t key e slot = elim (Bool-cases s.metrics.block) [
    | inl b ↦
        let (u, f, k) =
          >>=-eq-some (acquire s (slot_page key))
            (λ u. wait_block u key >>= λ w. process_waited v u key w) {b = t}
            (ground (arith, b, e)) in
        let (w, g, l) = >>=-eq-some (wait_block u key) (λ w. process_waited v u key w) k in
        process_waited-roots u t key w l slot
        ∙ ap (λ c. root_in c.block_history.entries slot) (acquire-cache s u (slot_page key) f)
    | inr b ↦ ap (λ x. cached_root x slot) {x = t} {y = s} (ground (arith, b, e))
  ]

  check_root-roots :
      (s : ChainAnalyzer) (changed : Bool) (key : ℕ) (w : Waited AgnosticBlock) (c : Checked)
      → check_root v s changed key w ≡ some (go_on c)
      → (slot : ℕ) → cached_root c.0 slot ≡ cached_root s slot
  unfolding check_root
  check_root-roots s changed key ended c e slot = absurd (cc)
  check_root-roots s changed key (got block) c e slot =
      elim (Bool-cases (v.request_block_root block.slot == block.root)) [
        | inl b ↦ ap (λ x. cached_root x.0 slot) {x = c} {y = (s, changed)} (ground (arith, b, e))
        | inr b ↦
            let s' = write s (delete_block_metrics key) in
            let (t, f, k) =
              >>=-eq-some (process_block v s' key) (λ t. some (go_on (t, true))) {b = go_on c}
                (ground (arith, b, e)) in
            ap (λ x. cached_root x.0 slot) {x = c} {y = (t, true)} (ground (arith, k))
            ∙ process_block-roots s' t key f slot
      ]

-- Whether the node has another root than the block, and whether it has for one of some slots.
abbrev pub differs : Services → Option (ℕ × ℕ) → Bool
differs v none = false
differs v (some (slot, root)) = not (v.request_block_root slot == root)

abbrev pub any_differs : Services → ChainAnalyzer → List ℕ → Bool
any_differs v s [] = false
any_differs v s (slot ∷ slots) = differs v (cached_root s slot) || any_differs v s slots

any_differs_same :
    (v : Services) (s t : ChainAnalyzer) (slots : List ℕ)
    → ((slot : ℕ) → cached_root t slot ≡ cached_root s slot)
    → any_differs v t slots ≡ any_differs v s slots
any_differs_same v s t [] h = refl
any_differs_same v s t (slot ∷ slots) h =
    ap (λ o. differs v o || any_differs v t slots) (h slot)
    ∙ ap (λ b. differs v (cached_root s slot) || b) (any_differs_same v s t slots h)

check_root-changed :
    (v : Services) (s : ChainAnalyzer) (changed : Bool) (key : ℕ) (w : Waited AgnosticBlock)
    (c : Checked)
    → wait_block s key ≡ some w
    → check_root v s changed key w ≡ some (go_on c)
    → c.1 ≡ (changed || differs v (cached_root s key))
unfolding check_root wait_block wait_key
check_root-changed v s changed key ended c h e = absurd (cc)
check_root-changed v s changed key (got block) c h e =
    elim (Bool-cases (v.request_block_root block.slot == block.root)) [
      | inl b ↦ ground (arith, b, h, e)
      | inr b ↦
          let (t, f, k) =
            >>=-eq-some (process_block v (write s (delete_block_metrics key)) key)
              (λ t. some (go_on (t, true))) {b = go_on c} (ground (arith, b, e)) in
          ground (arith, b, h, k)
    ]

go_on_inj : {A : Type 0} {a b : A} → go_on a ≡ go_on b → a ≡ b
go_on_inj e = cc

or_false : (b : Bool) → (b || false) ≡ b
or_false true = refl
or_false false = refl

turned :
    {A B : Type 0} (step : Step A) (k : A → Option (Step B)) (b : B)
    → turn step k ≡ some (go_on b)
    → (a : A) × (step ≡ go_on a) × (k a ≡ some (go_on b))
turned (stop_at t) k b e = absurd (cc)
turned (go_on a) k b e = (a, refl, e)

-- The blocks of an epoch count as changed exactly if the node has another root than the cache for one of
-- its slots, and afterwards the cache has the same root at every slot as before.
pub check_blocks-stale :
    (v : Services) (s : ChainAnalyzer) (changed : Bool) (slots : List ℕ) (c : Checked)
    → check_blocks v s changed slots ≡ some (go_on c)
    → (c.1 ≡ (changed || any_differs v s slots))
      × ((slot : ℕ) → cached_root c.0 slot ≡ cached_root s slot)
unfolding check_blocks
check_blocks-stale v s changed [] c e =
    let same = go_on_inj (some_inj e) in
    (
      ap (λ x. x.1) (sym same) ∙ sym (or_false changed),
      λ slot. ap (λ x. cached_root x.0 slot) (sym same),
    )
check_blocks-stale v s changed (slot ∷ slots) c e =
    let (w, h, k) =
      >>=-eq-some (wait_block s slot)
        (λ w. check_root v s changed slot w >>= λ step. turn step λ d. check_blocks v d.0 d.1 slots)
        e in
    let (step, g, l) =
      >>=-eq-some (check_root v s changed slot w)
        (λ step. turn step λ d. check_blocks v d.0 d.1 slots) k in
    let (d, m, n) = turned step (λ d. check_blocks v d.0 d.1 slots) c l in
    let first = check_root-roots v s changed slot w d (g ∙ ap some m) in
    let (flag, rest) = check_blocks-stale v d.0 d.1 slots c n in
    (
      ground (
        arith,
        flag,
        check_root-changed v s changed slot w d h (g ∙ ap some m),
        any_differs_same v s d.0 slots first,
      ),
      λ x. rest x ∙ first x,
    )
