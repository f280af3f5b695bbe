-- ===== src/Config/Metrics.antt =====
-- pkg/db/metrics.go: the metrics that the user asks for, a list of names with commas.
use Prim.Native.String.{String}
use goteth.Common.{
  ℕ, ◌≡◌, refl, Bool, true, false, not, ◌&&◌, ◌||◌, Option, none, some, List, [], ◌∷◌, ◌==◌,
  if◌then◌else◌, ◌>>=◌, >>=-eq-some, some_inj, arith,
}
use mathlib.Core.Path.{subst}
use goteth.Analyzer.Services.{DbMetrics}
use goteth.Config.{codes, same_codes}

-- `strings.Split(input, ",")`; 44 is the comma.
abbrev pub put_first : ℕ → List (List ℕ) → List (List ℕ)
put_first c [] = (c ∷ []) ∷ []
put_first c (item ∷ items) = (c ∷ item) ∷ items

unfoldable pub split : List ℕ → List (List ℕ)
split [] = [] ∷ []
split (c ∷ cs) = if c == 44 then [] ∷ split cs else put_first c (split cs)

abbrev pub no_metrics : DbMetrics
no_metrics = record {
  block = false;
  epoch = false;
  validator_rewards = false;
  api_rewards = false;
  transactions = false;
  blob_sidecars = false;
}

-- `none` is the error of the default case.
unfoldable pub set_metric : DbMetrics → List ℕ → Option DbMetrics
set_metric m item =
    if same_codes item (codes "block")
    then some (record m { block = true })
    else if same_codes item (codes "epoch")
    then some (record m { epoch = true; block = true })
    else if same_codes item (codes "rewards")
    then some (record m { validator_rewards = true; epoch = true; block = true })
    else if same_codes item (codes "api_rewards")
    then some (record m { api_rewards = true })
    else if same_codes item (codes "transactions")
    then some (record m { transactions = true; block = true })
    else if same_codes item (codes "blob_sidecars")
    then some (record m { block = true; blob_sidecars = true })
    else none

unfoldable pub set_metrics : DbMetrics → List (List ℕ) → Option DbMetrics
unfolding set_metric
set_metrics m [] = some m
set_metrics m (item ∷ items) = set_metric m item >>= λ n. set_metrics n items

unfoldable pub new_metrics : String → Option DbMetrics
unfolding split set_metrics
new_metrics input = set_metrics no_metrics (split (codes input))

-- What the other metrics need is on: the blocks for all but the rewards of the node, and the epochs
-- for the rewards of the validators.
abbrev pub needs_met : DbMetrics → Bool
needs_met m =
    (m.block || not (m.epoch || m.transactions || m.blob_sidecars))
    && (m.epoch || not m.validator_rewards)

set_metric-needs_met :
    (m n : DbMetrics) (item : List ℕ)
    → needs_met m ≡ true
    → set_metric m item ≡ some n
    → needs_met n ≡ true
unfolding set_metric
set_metric-needs_met m n item h e = ground (arith, h, e)

set_metrics-needs_met :
    (m n : DbMetrics) (items : List (List ℕ))
    → needs_met m ≡ true
    → set_metrics m items ≡ some n
    → needs_met n ≡ true
unfolding set_metrics
set_metrics-needs_met m n [] h e = subst (λ k. needs_met k ≡ true) (some_inj e) h
set_metrics-needs_met m n (item ∷ items) h e =
    let (k, f, rest) = >>=-eq-some (set_metric m item) (λ k. set_metrics k items) e in
    set_metrics-needs_met k n items (set_metric-needs_met m k item h f) rest

-- Whatever list of metrics is accepted, the metrics that another one needs are on with it: the blocks
-- with the epochs, the transactions and the blobs, and the epochs with the rewards of the validators.
pub new_metrics-needs_met :
    (input : String) (m : DbMetrics) → new_metrics input ≡ some m → needs_met m ≡ true
unfolding new_metrics
new_metrics-needs_met input m e = set_metrics-needs_met no_metrics m (split (codes input)) refl e
