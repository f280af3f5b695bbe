-- ===== src/Analyzer/Routines.antt =====
-- pkg/analyzer/routines.go: the routine that hands out the downloads, the one that goes through past
-- slots, and the one that follows the head. What a loop finds in each of its rounds is a parameter.
pub mod InOrder
pub mod Head
pub mod Start
use goteth.Common.{
  ℕ, zero, suc, ◌+◌, ◌-◌, ◌*◌, ◌/◌, ◌%◌, ◌≡◌, Bool, true, false, not, ◌&&◌, ◌||◌, Option, none,
  some, List, [], ◌∷◌, ◌++◌, ◌==◌, ltb, leb, if◌then◌else◌, ◌>>=◌, add64, sub64, mul64,
}
use goteth.Spec.Constants.{slots_per_epoch}
use goteth.Spec.Slots.{epoch_at_slot, first_slot_in_epoch}

-- The goroutines that a download signal starts.
pub data Routine : Type 0 where
  download_block_cotrolled process_block download_state : ℕ → Routine
  process_state_transition_metrics : ℕ → Routine

-- `runDownloadBlocks`: the state comes with the last slot of an epoch.
unfoldable pub on_download_signal : ℕ → List Routine
on_download_signal slot =
    download_block_cotrolled slot
    ∷ process_block slot
    ∷ (if slot % slots_per_epoch == slots_per_epoch - 1
        then download_state slot ∷ process_state_transition_metrics (slot / slots_per_epoch) ∷ []
        else [])

-- Its end, on a tick: the signals that wait, the requests and the pages that are active.
unfoldable pub is_finished : Bool → ℕ → ℕ → ℕ → Bool
is_finished stop signals active_requests active_pages =
    stop && (signals == 0) && (active_requests == 0) && (active_pages == 0)

-- What a round of `runHistorical` finds: the finalized slot is `none` on an error, which ends the
-- program; `cancelled` tells that the `select` takes the end of the context.
pub record Round : Type 0 where
  pub stop : Bool
  pub free_pages : ℕ
  pub finalized_slot : Option ℕ
  pub cancelled : Bool

-- What the loop does, the last act first.
pub data Act : Type 0 where
  advances_finalized cleans_up_to sends : ℕ → Act

pub record Historical : Type 0 where
  pub next : ℕ
  pub acts : List Act
  pub running : Bool

-- At the first slot of an epoch the cache is checked or cleaned.
unfoldable pub on_epoch : ℕ → ℕ → List Act → List Act
on_epoch i finalized_slot acts =
    if leb finalized_slot i
    then advances_finalized (sub64 finalized_slot (slots_per_epoch * 5)) ∷ acts
    else if ltb (5 * slots_per_epoch) i
    then cleans_up_to (i - 5 * slots_per_epoch) ∷ acts
    else acts

abbrev pub send_slot : Historical → Bool → Historical
send_slot h true = record h { running = false }
send_slot h false = record h { next = add64 h.next 1; acts = sends h.next ∷ h.acts }

-- `none` is `log.Fatalf`.
abbrev pub epoch_turn : Historical → Bool → Option ℕ → Option Historical
epoch_turn h cancelled none = none
epoch_turn h cancelled (some finalized_slot) =
    some (send_slot (record h { acts = on_epoch h.next finalized_slot h.acts }) cancelled)

unfoldable pub historical_turn : Historical → Round → Option Historical
unfolding on_epoch
historical_turn h r =
    if r.stop
    then some (record h { running = false })
    else if r.free_pages == 0
    then some h
    else if h.next % slots_per_epoch == 0
    then epoch_turn h r.cancelled r.finalized_slot
    else some (send_slot h r.cancelled)

unfoldable pub historical_round : ℕ → Historical → Round → Option Historical
unfolding historical_turn
historical_round end h r =
    if h.running && leb h.next end then historical_turn h r else some (record h { running = false })

unfoldable pub run_historical : ℕ → Historical → List Round → Option Historical
unfolding historical_round
run_historical end h [] = some h
run_historical end h (r ∷ rs) = historical_round end h r >>= λ g. run_historical end g rs

abbrev pub start_at : ℕ → Historical
start_at init = record { next = init; acts = []; running = true }
