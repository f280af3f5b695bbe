-- ===== src/Analyzer/Routines/InOrder.antt =====
-- The slots that `runHistorical` sends (pkg/analyzer/routines.go).
use goteth.Common.{
  ℕ, zero, suc, ◌+◌, ◌-◌, ◌%◌, ◌≤◌, ◌<◌, ◌≡◌, refl, ap, ◌∙◌, Bool, true, false, Option, none, some,
  List, [], ◌∷◌, ◌==◌, ltb, leb, sub64, ◌⊎◌, add64, u64_mod, arith, some_inj, length, Bool-cases,
  inl, inr, >>=-eq-some,
}
use mathlib.Core.Path.{subst}
use mathlib.Core.List.{Memᴰ}
use goteth.Analyzer.Routines.{
  Round, Act, advances_finalized, cleans_up_to, sends, Historical, on_epoch, send_slot, epoch_turn,
  historical_turn, historical_round, run_historical, start_at,
}

-- The slots that were sent, the last one first.
abbrev pub sent : List Act → List ℕ
sent [] = []
sent (sends slot ∷ acts) = slot ∷ sent acts
sent (advances_finalized _ ∷ acts) = sent acts
sent (cleans_up_to _ ∷ acts) = sent acts

-- `n` slots from `init` on, the last one first.
abbrev pub slots_down : ℕ → ℕ → List ℕ
slots_down init zero = []
slots_down init (suc n) = (init + n) ∷ slots_down init n

-- The slots up to which the cache was cleaned, by `CleanUpTo` or by `AdvanceFinalized`, are at least five
-- epochs below the next one; near genesis the slot of `AdvanceFinalized` may have wrapped around, and is
-- then above 2 ^ 64 less five epochs.
pub data CleanedBelow (next : ℕ) : List Act → Type 0 where
  none_done : CleanedBelow next []
  sent_one :
      {slot : ℕ} {acts : List Act} → CleanedBelow next acts → CleanedBelow next (sends slot ∷ acts)
  advanced :
      {slot : ℕ} {acts : List Act}
      → (slot + 160 ≤ next) ⊎ (u64_mod ≤ slot + 160)
      → CleanedBelow next acts
      → CleanedBelow next (advances_finalized slot ∷ acts)
  cleaned :
      {slot : ℕ} {acts : List Act}
      → slot + 160 ≤ next
      → CleanedBelow next acts
      → CleanedBelow next (cleans_up_to slot ∷ acts)

pub record InOrder (init end : ℕ) (h : Historical) : Type 0 where
  pub count : ℕ
  pub at_next : h.next ≡ init + count
  pub within : h.next ≤ end + 1
  pub in_order : sent h.acts ≡ slots_down init count
  pub kept : CleanedBelow h.next h.acts

CleanedBelow_mono : (m n : ℕ) {acts : List Act} → m ≤ n → CleanedBelow m acts → CleanedBelow n acts
CleanedBelow_mono m n h none_done = none_done
CleanedBelow_mono m n h (sent_one c) = sent_one (CleanedBelow_mono m n h c)
CleanedBelow_mono m n h (advanced k c) = advanced (ground (arith, h, k)) (CleanedBelow_mono m n h c)
CleanedBelow_mono m n h (cleaned k c) = cleaned (omega arith) (CleanedBelow_mono m n h c)

far_below :
    (next finalized_slot : ℕ)
    → next < u64_mod
    → finalized_slot ≤ next
    → (sub64 finalized_slot 160 + 160 ≤ next) ⊎ (u64_mod ≤ sub64 finalized_slot 160 + 160)
unfolding sub64
far_below next finalized_slot h k = ground (arith, h, k)

module _ (init end : ℕ) (fits : end + 1 < u64_mod) where
  stopped-InOrder :
      (h : Historical) → InOrder init end h → InOrder init end (record h { running = false })
  stopped-InOrder h o = record {
    count = o.count;
    at_next = o.at_next;
    within = o.within;
    in_order = o.in_order;
    kept = o.kept;
  }

  send_slot-InOrder :
      (h : Historical) (cancelled : Bool)
      → h.next ≤ end
      → InOrder init end h
      → InOrder init end (send_slot h cancelled)
  unfolding add64
  send_slot-InOrder h true b o = stopped-InOrder h o
  send_slot-InOrder h false b o = record {
    count = suc o.count;
    at_next = omega (arith, o.at_next);
    within = omega arith;
    in_order = ground (arith, o.in_order, o.at_next);
    kept = sent_one (CleanedBelow_mono h.next ((h.next + 1) % u64_mod) (omega arith) o.kept);
  }

  on_epoch-InOrder :
      (h : Historical) (finalized_slot : ℕ)
      → InOrder init end h
      → InOrder init end (record h { acts = on_epoch h.next finalized_slot h.acts })
  unfolding on_epoch
  on_epoch-InOrder h finalized_slot o = elim (Bool-cases (leb finalized_slot h.next)) [
    | inl a ↦ record {
      count = o.count;
      at_next = o.at_next;
      within = o.within;
      in_order = rw a o.in_order;
      kept = rw a (
          advanced (far_below h.next finalized_slot (omega (arith, o.within)) (ground (arith, a)))
            o.kept);
    }
    | inr a ↦ elim (Bool-cases (ltb 160 h.next)) [
      | inl b ↦ record {
        count = o.count;
        at_next = o.at_next;
        within = o.within;
        in_order = rw (a, b) o.in_order;
        kept = rw (a, b) (cleaned (ground (arith, b)) o.kept);
      }
      | inr b ↦ record {
        count = o.count;
        at_next = o.at_next;
        within = o.within;
        in_order = rw (a, b) o.in_order;
        kept = rw (a, b) o.kept;
      }
    ]
  ]

  epoch_turn-InOrder :
      (h g : Historical) (cancelled : Bool) (finalized_slot : Option ℕ)
      → h.next ≤ end
      → InOrder init end h
      → epoch_turn h cancelled finalized_slot ≡ some g
      → InOrder init end g
  epoch_turn-InOrder h g cancelled none b o e = absurd (cc)
  epoch_turn-InOrder h g cancelled (some f) b o e = subst (InOrder init end) (some_inj e) (
      send_slot-InOrder (record h { acts = on_epoch h.next f h.acts }) cancelled b
        (on_epoch-InOrder h f o))

  historical_round-InOrder :
      (h g : Historical) (r : Round)
      → InOrder init end h
      → historical_round end h r ≡ some g
      → InOrder init end g
  unfolding historical_round historical_turn
  historical_round-InOrder h g r o e = ground (
    arith,
    stopped-InOrder h o,
    send_slot-InOrder h r.cancelled,
    epoch_turn-InOrder h g r.cancelled r.finalized_slot,
  )

  run-InOrder :
      (h g : Historical) (rs : List Round)
      → InOrder init end h
      → run_historical end h rs ≡ some g
      → InOrder init end g
  unfolding run_historical
  run-InOrder h g [] o e = subst (InOrder init end) (some_inj e) o
  run-InOrder h g (r ∷ rs) o e =
      let (k, f, rest) = >>=-eq-some (historical_round end h r) (λ k. run_historical end k rs) e in
      run-InOrder k g rs (historical_round-InOrder h k r o f) rest

-- Whatever the loop finds in its rounds, it has sent exactly the slots from the first one on, each once
-- and in order, up to the one before the next and never above the end. The slots up to which it cleaned
-- the cache, itself or by `AdvanceFinalized`, lie five epochs or more below the next slot, unless the
-- finalized slot lies in the first five epochs, where that of `AdvanceFinalized` wraps around.
pub run_historical-InOrder :
    (init end : ℕ) (rs : List Round) (h : Historical)
    → end + 1 < u64_mod
    → init ≤ end
    → run_historical end (start_at init) rs ≡ some h
    → InOrder init end h
run_historical-InOrder init end rs h fits b e =
    run-InOrder init end fits (start_at init) h rs
      (record {
        count = 0;
        at_next = omega arith;
        within = omega arith;
        in_order = refl;
        kept = none_done;
      })
      e

-- A round in which nothing holds the loop up.
pub record IsFree (r : Round) : Type 0 where
  pub going : r.stop ≡ false
  pub room : 0 < r.free_pages
  pub alive : r.cancelled ≡ false
  pub finalized : ℕ
  pub known : r.finalized_slot ≡ some finalized

abbrev pub AllFree : List Round → Type 0
AllFree rs = (r : Round) → Memᴰ r rs → IsFree r

free_round :
    (end : ℕ) (h : Historical) (r : Round)
    → end + 1 < u64_mod
    → h.running ≡ true
    → h.next ≤ end
    → IsFree r
    → (g : Historical) × (historical_round end h r ≡ some g)
      × (g.next ≡ h.next + 1)
      × (g.running ≡ true)
unfolding historical_round historical_turn add64
free_round end h r fits run b f = elim (Bool-cases (h.next % 32 == 0)) [
  | inl z ↦ (
    send_slot (record h { acts = on_epoch h.next f.finalized h.acts }) false,
    ground (arith, run, f.going, f.room, f.alive, f.known, z),
    omega arith,
    run,
  )
  | inr z ↦ (send_slot h false, ground (arith, run, f.going, f.room, f.alive, z), omega arith, run)
]

free_run :
    (end : ℕ) (h : Historical) (rs : List Round)
    → end + 1 < u64_mod
    → h.running ≡ true
    → AllFree rs
    → h.next + length rs ≤ end + 1
    → (g : Historical) × (run_historical end h rs ≡ some g) × (g.next ≡ h.next + length rs)
unfolding run_historical
free_run end h [] fits run f b = (h, refl, omega arith)
free_run end h (r ∷ rs) fits run f b =
    let (k, e, n, run') = free_round end h r fits run (omega arith) (f r (Memᴰ.head refl)) in
    let (g, e', n') = free_run end k rs fits run' (λ x m. f x (Memᴰ.tail m)) (omega (arith, n)) in
    (g, rw e e', omega (arith, n, n'))

-- Rounds in which nothing holds the loop up send one slot each: after as many of them as there are
-- slots, every slot up to the end is sent.
pub run_historical_progress :
    (init end : ℕ) (rs : List Round)
    → end + 1 < u64_mod
    → init ≤ end
    → AllFree rs
    → length rs ≡ end + 1 - init
    → (h : Historical) × (run_historical end (start_at init) rs ≡ some h)
      × (h.next ≡ end + 1)
      × (sent h.acts ≡ slots_down init (end + 1 - init))
run_historical_progress init end rs fits b f n =
    let (h, e, k) = free_run end (start_at init) rs fits refl f (omega (arith, n)) in
    let o = run_historical-InOrder init end rs h fits b e in
    (h, e, omega (arith, n, k), o.in_order ∙ ap (slots_down init) (omega (arith, n, k, o.at_next)))
