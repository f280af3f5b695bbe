-- ===== src/Analyzer/Download/Roots.antt =====
-- The state roots of the head events (pkg/analyzer/epoch_boundary_state_root.go), and the downloads
-- that use them (pkg/analyzer/download.go).
use goteth.Common.{ℕ, zero, suc, ◌≡◌, refl, true, Option, none, some, ◌==◌, if◌then◌else◌, arith}
use goteth.Analyzer.AgnosticMap.{find, put}
use goteth.Analyzer.AgnosticMap.Waiting.{find-put, find-remove_key}
use goteth.Analyzer.Services.{ChainAnalyzer, Services}
use goteth.Analyzer.States.Transition.{shut_down}
use goteth.Analyzer.Download.{
  set_epoch_boundary_state_root, take_epoch_boundary_state_root, attempts, state_by, download_state,
}

-- A root that a head event announced is found by the download of the state of its slot, once: a second
-- download finds none, and the roots of other slots are as they were.
pub take-set_epoch_boundary_state_root :
    (s : ChainAnalyzer) (slot root other : ℕ)
    → let (t, found) =
        take_epoch_boundary_state_root (set_epoch_boundary_state_root s slot root) slot in
      (found ≡ some root)
      × ((take_epoch_boundary_state_root t other).1
          ≡ (if other == slot then none else (take_epoch_boundary_state_root s other).1))
unfolding take_epoch_boundary_state_root set_epoch_boundary_state_root
take-set_epoch_boundary_state_root s slot root other = (
  ground (arith, find-put slot slot root s.epoch_boundary_state_roots),
  ground (
    arith,
    find-remove_key slot other (put slot root s.epoch_boundary_state_roots),
    find-put slot other root s.epoch_boundary_state_roots,
  ),
)

attempts-none :
    (v : Services) (slot root attempt left : ℕ)
    → ((i : ℕ) → v.request_beacon_state_by_root i slot root ≡ none)
    → attempts v slot root attempt left ≡ none
unfolding attempts
attempts-none v slot root attempt zero h = refl
attempts-none v slot root attempt (suc left) h =
    ground (arith, h attempt, attempts-none v slot root (suc attempt) left h)

state_by-none :
    (v : Services) (slot : ℕ) (root : Option ℕ)
    → ((i root : ℕ) → v.request_beacon_state_by_root i slot root ≡ none)
    → v.request_beacon_state slot ≡ none
    → state_by v slot root ≡ none
state_by-none v slot none h k = k
state_by-none v slot (some root) h k = attempts-none v slot root 0 3 (λ i. h i root)

-- A state that the node does not give, by its root where a head event announced one and by its slot
-- otherwise, shuts the analyzer down; the root is used up, and the cache stays as it was.
pub download_state-shut_down :
    (v : Services) (s : ChainAnalyzer) (slot : ℕ)
    → s.metrics.epoch ≡ true
    → ((i root : ℕ) → v.request_beacon_state_by_root i slot root ≡ none)
    → v.request_beacon_state slot ≡ none
    → (t : ChainAnalyzer) × (download_state v s slot ≡ some t)
      × (t.stop ≡ true)
      × (t.cancelled ≡ true)
      × (t.download_cache ≡ s.download_cache)
      × (find slot t.epoch_boundary_state_roots ≡ none)
unfolding download_state shut_down
download_state-shut_down v s slot on h k =
    let t = (take_epoch_boundary_state_root s slot).0 in
    (
      shut_down t,
      ground (arith, on, state_by-none v slot (find slot s.epoch_boundary_state_roots) h k),
      refl,
      refl,
      refl,
      ground (arith, find-remove_key slot slot s.epoch_boundary_state_roots),
    )
