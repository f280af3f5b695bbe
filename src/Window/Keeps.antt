-- ===== src/Window/Keeps.antt =====
-- What the window keeps (pkg/validator_window/window.go).
use goteth.Common.{
  ℕ, ◌+◌, ◌-◌, ◌≤◌, ◌<◌, ◌≡◌, refl, ◌∙◌, Bool, true, false, ◌&&◌, ◌||◌, none, some, List, [], ◌∷◌,
  ltb, if◌then◌else◌, elem, arith,
}
use goteth.Window.{
  ValidatorWindowRunner, Signal, checkpoint, tick, delete_until, end_processes, on_checkpoint,
  on_signal, run,
}

elem-delete_until :
    (e epoch : ℕ) (es : List ℕ) → elem e (delete_until epoch es) ≡ (elem e es && ltb epoch e)
unfolding delete_until
elem-delete_until e epoch [] = refl
elem-delete_until e epoch (x ∷ es) = ground (arith, elem-delete_until e epoch es)

-- After a final checkpoint the rewards of exactly the last epochs of the window are kept, counted from
-- the last epoch of the database; a database with fewer epochs than the window is left alone.
pub on_checkpoint-elem :
    (s : ValidatorWindowRunner) (head e : ℕ)
    → elem e (on_checkpoint s (some head) true).reward_epochs ≡ (
        elem e s.reward_epochs
        && (ltb head s.window_epoch_size || ltb head (e + s.window_epoch_size)))
unfolding on_checkpoint
on_checkpoint-elem s head e =
    ground (arith, elem-delete_until e (head - s.window_epoch_size) s.reward_epochs)

-- Signals whose last epochs are all up to some epoch.
pub data UpTo (top : ℕ) : List Signal → Type 0 where
  no_signal : UpTo top []
  a_tick : {signals : List Signal} → UpTo top signals → UpTo top (tick ∷ signals)
  an_error :
      {deletes : Bool} {signals : List Signal}
      → UpTo top signals
      → UpTo top (checkpoint none deletes ∷ signals)
  a_head :
      {head : ℕ} {deletes : Bool} {signals : List Signal}
      → head ≤ top
      → UpTo top signals
      → UpTo top (checkpoint (some head) deletes ∷ signals)

on_signal-elem :
    (s : ValidatorWindowRunner) (head e : ℕ) (deletes : Bool)
    → head < e + s.window_epoch_size
    → (elem e (on_checkpoint s (some head) deletes).reward_epochs ≡ elem e s.reward_epochs)
      × ((on_checkpoint s (some head) deletes).window_epoch_size ≡ s.window_epoch_size)
unfolding on_checkpoint end_processes
on_signal-elem s head e deletes h =
    (ground (arith, elem-delete_until e (head - s.window_epoch_size) s.reward_epochs), ground arith)

kept :
    (running : Bool) (x y s : ValidatorWindowRunner) (e : ℕ)
    → elem e x.reward_epochs ≡ elem e s.reward_epochs
    → elem e y.reward_epochs ≡ elem e x.reward_epochs
    → elem e (if running then y else s).reward_epochs ≡ elem e s.reward_epochs
kept true x y s e h k = k ∙ h
kept false x y s e h k = refl

-- Whatever checkpoints, errors and ticks come, the rewards of the last epochs of the window below the
-- highest epoch seen are never deleted.
pub run-elem :
    (s : ValidatorWindowRunner) (top e : ℕ) (signals : List Signal)
    → top < e + s.window_epoch_size
    → UpTo top signals
    → elem e (run s signals).reward_epochs ≡ elem e s.reward_epochs
unfolding run on_signal end_processes on_checkpoint
run-elem s top e [] h no_signal = refl
run-elem s top e (tick ∷ signals) h (a_tick u) =
    ground (
      arith,
      run-elem s top e signals h u,
      run-elem (record s { running = false }) top e signals h u,
    )
run-elem s top e (checkpoint none deletes ∷ signals) h (an_error u) =
    ground (arith, run-elem (end_processes s) top e signals h u)
run-elem s top e (checkpoint (some head) deletes ∷ signals) h (a_head l u) =
    let (same, size) = on_signal-elem s head e deletes (omega arith) in
    let t = on_checkpoint s (some head) deletes in
    kept s.running t (run t signals) s e same (run-elem t top e signals (omega (arith, size)) u)
