-- ===== src/Window.antt =====
-- pkg/validator_window/window.go: the rewards of the validators are kept for a window of epochs below
-- the last one in the database.
pub mod Keeps
use goteth.Common.{
  ℕ, ◌+◌, ◌-◌, ◌*◌, ◌≤◌, ◌<◌, ◌≡◌, refl, Bool, true, false, Option, none, some, List, [], ◌∷◌, ltb,
  leb, if◌then◌else◌, arith, map,
}
use mathlib.Core.List.{Memᴰ}

-- The fields that the loop reads and changes, with what the database holds: the epochs of the rewards.
-- `finished` tells that the clients were closed, `running` that the loop goes on.
pub record ValidatorWindowRunner : Type 0 where
  pub window_epoch_size : ℕ
  pub stop : Bool
  pub running : Bool
  pub finished : Bool
  pub reward_epochs : List ℕ

-- `NewValidatorWindow`, with whether the clients of the database and of the nodes are there.
unfoldable pub new_validator_window : Bool → Bool → Bool → ℕ → List ℕ → Option ValidatorWindowRunner
new_validator_window db_client db_connection api_client num_epochs reward_epochs =
    if db_client
    then (if db_connection
        then (if api_client
            then some (record {
              window_epoch_size = num_epochs;
              stop = false;
              running = true;
              finished = false;
              reward_epochs = reward_epochs;
            })
            else none)
        else none)
    else none

-- What a turn of the loop finds: a final checkpoint, with the last epoch of the database (`none` is an
-- error) and whether the deletion works, or a tick.
pub data Signal : Type 0 where
  checkpoint : (db_head_epoch : Option ℕ) → (deletes : Bool) → Signal
  tick : Signal

-- `DeleteValidatorRewardsUntil` (pkg/db/validator_rewards.go): `f_epoch <= $1`.
unfoldable pub delete_until : ℕ → List ℕ → List ℕ
delete_until epoch [] = []
delete_until epoch (e ∷ es) =
    if leb e epoch then delete_until epoch es else e ∷ delete_until epoch es

unfoldable pub end_processes : ValidatorWindowRunner → ValidatorWindowRunner
end_processes s = record s { finished = true; running = false }

unfoldable pub on_checkpoint : ValidatorWindowRunner → Option ℕ → Bool → ValidatorWindowRunner
unfolding delete_until end_processes
on_checkpoint s none deletes = end_processes s
on_checkpoint s (some db_head_epoch) deletes =
    if ltb db_head_epoch s.window_epoch_size
    then s
    else if deletes
    then (record s {
      reward_epochs = delete_until (db_head_epoch - s.window_epoch_size) s.reward_epochs;
    })
    else end_processes s

unfoldable pub on_signal : ValidatorWindowRunner → Signal → ValidatorWindowRunner
unfolding on_checkpoint
on_signal s (checkpoint db_head_epoch deletes) = on_checkpoint s db_head_epoch deletes
on_signal s tick = if s.stop then (record s { running = false }) else s

unfoldable pub run : ValidatorWindowRunner → List Signal → ValidatorWindowRunner
unfolding on_signal
run s [] = s
run s (signal ∷ signals) = if s.running then run (on_signal s signal) signals else s

-- `Close`: the loop ends at its next tick, then the clients are closed.
unfoldable pub close : ValidatorWindowRunner → ValidatorWindowRunner
unfolding end_processes on_signal
close s = end_processes (on_signal (record s { stop = true }) tick)
