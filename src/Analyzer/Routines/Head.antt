-- ===== src/Analyzer/Routines/Head.antt =====
-- pkg/analyzer/routines.go, `runHead`: the events of the node, once the gap to the head is filled.
use goteth.Common.{
  Bool, true, false, Option, none, some, ◌>>=◌, ◌<◌, ltb, ◌&&◌, u64_mod, add64, ℕ, zero, suc, ◌+◌,
  ◌-◌, ◌*◌, ◌/◌, ◌≤◌, ◌≡◌, refl, ap, ◌∙◌, List, [], ◌∷◌, ◌++◌, ◌==◌, leb, if◌then◌else◌, range_from,
  arith, mul64, sub64,
}
use mathlib.Core.Path.{subst, ap₂}
use goteth.Spec.Constants.{slots_per_epoch}
use goteth.Analyzer.AgnosticMap.{put}
use goteth.Analyzer.Services.{
  Call, persist_head_events, persist_finalized, persist_reorgs, persist_blob_sidecars_events,
}

-- What a round of the loop takes: an event, with what the loop reads of it (a reorganisation and a blob
-- are known by their slots), the end of the context, or a tick, with whether the analyzer has to stop.
pub data Event : Type 0 where
  head : (slot state_root : ℕ) → Event
  finalized_checkpoint : (epoch : ℕ) → Event
  reorg blob_sidecar : (slot : ℕ) → Event
  context_done : Event
  tick : (stop : Bool) → Event

-- `tasks` holds what was sent to the downloads, in order; `finalized_slots` and `reorgs` the calls of
-- `AdvanceFinalized` and `HandleReorg`, which run beside the loop, the last one first.
pub record Head : Type 0 where
  pub next : ℕ
  pub running : Bool
  pub tasks : List ℕ
  pub roots : List (ℕ × ℕ)
  pub finalized_slots : List ℕ
  pub reorgs : List ℕ
  pub calls : List Call

abbrev pub last_slot_of_epoch : ℕ → ℕ
last_slot_of_epoch slot = (slot / slots_per_epoch + 1) * slots_per_epoch - 1

abbrev pub send_next : Head → Head
send_next h = record h { tasks = h.tasks ++ h.next ∷ []; next = add64 h.next 1 }

-- The inner loop, by its rounds with a free page; the others only spin. `none` where the rounds do not
-- suffice.
unfoldable pub fill : ℕ → ℕ → Head → Option Head
fill zero slot h = if leb h.next slot then none else some h
fill (suc rounds) slot h =
    let rest = fill rounds slot (send_next h) in if leb h.next slot then rest else some h

-- The state root is kept with the last slot of an epoch. Each round of the inner loop sends one slot, so
-- the slots up to that of the event are as many rounds as it takes; up to the highest `uint64` no number
-- of rounds is enough, and the loop does not end.
unfoldable pub on_head : Head → ℕ → ℕ → Option Head
unfolding fill
on_head h slot state_root = fill (suc slot - h.next) slot (record h {
  calls = persist_head_events slot ∷ h.calls;
  roots = if slot == last_slot_of_epoch slot then put slot state_root h.roots else h.roots;
})

unfoldable pub on_event : Head → Event → Option Head
unfolding on_head
on_event h (head slot state_root) = on_head h slot state_root
on_event h (finalized_checkpoint epoch) = some (record h {
  calls = persist_finalized epoch ∷ h.calls;
  finalized_slots = sub64 (mul64 epoch slots_per_epoch) (2 * slots_per_epoch) ∷ h.finalized_slots;
})
on_event h (reorg slot) =
    some (record h { calls = persist_reorgs slot ∷ h.calls; reorgs = slot ∷ h.reorgs })
on_event h (blob_sidecar slot) =
    some (record h { calls = persist_blob_sidecars_events slot ∷ h.calls })
on_event h context_done = some (record h { running = false })
on_event h (tick stop) = some (if stop then record h { running = false } else h)

unfoldable pub run_head : Head → List Event → Option Head
unfolding on_event
run_head h [] = some h
run_head h (e ∷ es) = if h.running then (on_event h e >>= λ g. run_head g es) else some h

abbrev pub follow_from : ℕ → Head
follow_from next = record {
  next = next;
  running = true;
  tasks = [];
  roots = [];
  finalized_slots = [];
  reorgs = [];
  calls = [];
}

range_from-append :
    (i m n j k : ℕ) → j ≡ i + m → k ≡ m + n → range_from i m ++ range_from j n ≡ range_from i k
range_from-append i zero n j k h l = ground (arith, h, l)
range_from-append i (suc m) n j zero h l = absurd (omega arith)
range_from-append i (suc m) n j (suc k) h l =
    ap (λ ks. i ∷ ks) (range_from-append (suc i) m n j k (omega arith) (omega arith))

-- One above the highest slot of the head events up to the end of the loop, or the first slot, whichever
-- is higher.
abbrev pub highest : ℕ → List Event → ℕ
highest next [] = next
highest next (head slot _ ∷ es) = highest (if leb next slot then suc slot else next) es
highest next (finalized_checkpoint _ ∷ es) = highest next es
highest next (reorg _ ∷ es) = highest next es
highest next (blob_sidecar _ ∷ es) = highest next es
highest next (context_done ∷ es) = next
highest next (tick true ∷ es) = next
highest next (tick false ∷ es) = highest next es

-- No head event is of the highest `uint64`.
abbrev pub slots_fit : List Event → Bool
slots_fit [] = true
slots_fit (head slot _ ∷ es) = ltb (slot + 1) u64_mod && slots_fit es
slots_fit (_ ∷ es) = slots_fit es

-- Every slot from the first one on was sent once and in order, up to the one before the next.
pub record Follows (start next : ℕ) (h : Head) : Type 0 where
  pub at_next : h.next ≡ next
  pub above : start ≤ next
  pub in_order : h.tasks ≡ range_from start (next - start)

range_from-last :
    (start next : ℕ)
    → start ≤ next
    → range_from start (next - start) ++ next ∷ [] ≡ range_from start (next + 1 - start)
range_from-last start next h =
    range_from-append start (next - start) 1 next (next + 1 - start) (omega arith) (omega arith)

fill-Follows :
    (start next rounds slot : ℕ) (h : Head)
    → slot + 1 < u64_mod
    → rounds ≡ suc slot - next
    → Follows start next h
    → (g : Head) × (fill rounds slot h ≡ some g)
      × Follows start (if leb next slot then suc slot else next) g
      × (g.running ≡ h.running)
unfolding fill add64
fill-Follows start next zero slot h fits r f =
    let over : leb next slot ≡ false = ground (arith, r) in
    let over' : leb h.next slot ≡ false = ap (λ n. leb n slot) f.at_next ∙ over in
    (h, rw over' refl, subst (λ n. Follows start n h) (ground (arith, over)) f, refl)
fill-Follows start next (suc rounds) slot h fits r f =
    let below : leb next slot ≡ true = ground (arith, r) in
    let below' : leb h.next slot ≡ true = ap (λ n. leb n slot) f.at_next ∙ below in
    let more : Follows start (next + 1) (send_next h) = record {
      at_next = omega (arith, f.at_next, r, fits);
      above = omega (arith, f.above);
      in_order =
          ap₂ (λ ks n. ks ++ n ∷ []) f.in_order f.at_next ∙ range_from-last start next f.above;
    } in
    let (g, e, k, same) =
      fill-Follows start (next + 1) rounds slot (send_next h) fits (omega (arith, r)) more in
    (g, rw below' e, subst (λ n. Follows start n g) (ground (arith, r)) k, same)

run_head-cons :
    (h g u : Head) (e : Event) (es : List Event)
    → h.running ≡ true
    → on_event h e ≡ some g
    → run_head g es ≡ some u
    → run_head h (e ∷ es) ≡ some u
unfolding run_head
run_head-cons h g u e es run f d = ground (arith, run, f, d)

stopped :
    (h : Head) (es : List Event)
    → run_head (record h { running = false }) es ≡ some (record h { running = false })
unfolding run_head
stopped h [] = refl
stopped h (e ∷ es) = refl

run_head_from :
    (start next : ℕ) (h : Head) (es : List Event)
    → slots_fit es ≡ true
    → h.running ≡ true
    → Follows start next h
    → (g : Head) × (run_head h es ≡ some g) × Follows start (highest next es) g
unfolding run_head on_event on_head
run_head_from start next h [] fits run f = (h, refl, f)
run_head_from start next h (head slot root ∷ es) fits run f =
    let opened : Head = record h {
      calls = persist_head_events slot ∷ h.calls;
      roots = if slot == last_slot_of_epoch slot then put slot root h.roots else h.roots;
    } in
    let (g, e, k, same) =
      fill-Follows start next (suc slot - h.next) slot opened (ground (arith, fits))
        (ap (λ n. suc slot - n) f.at_next)
        (record { at_next = f.at_next; above = f.above; in_order = f.in_order }) in
    let (u, d, l) =
      run_head_from start (if leb next slot then suc slot else next) g es (ground (arith, fits))
        (same ∙ run) k in
    (u, run_head-cons h g u (head slot root) es run e d, l)
run_head_from start next h (finalized_checkpoint epoch ∷ es) fits run f =
    let g : Head = record h {
      calls = persist_finalized epoch ∷ h.calls;
      finalized_slots =
          sub64 (mul64 epoch slots_per_epoch) (2 * slots_per_epoch) ∷ h.finalized_slots;
    } in
    let (u, d, l) =
      run_head_from start next g es fits run
        (record { at_next = f.at_next; above = f.above; in_order = f.in_order }) in
    (u, run_head-cons h g u (finalized_checkpoint epoch) es run refl d, l)
run_head_from start next h (reorg slot ∷ es) fits run f =
    let g : Head = record h { calls = persist_reorgs slot ∷ h.calls; reorgs = slot ∷ h.reorgs } in
    let (u, d, l) =
      run_head_from start next g es fits run
        (record { at_next = f.at_next; above = f.above; in_order = f.in_order }) in
    (u, run_head-cons h g u (reorg slot) es run refl d, l)
run_head_from start next h (blob_sidecar slot ∷ es) fits run f =
    let g : Head = record h { calls = persist_blob_sidecars_events slot ∷ h.calls } in
    let (u, d, l) =
      run_head_from start next g es fits run
        (record { at_next = f.at_next; above = f.above; in_order = f.in_order }) in
    (u, run_head-cons h g u (blob_sidecar slot) es run refl d, l)
run_head_from start next h (context_done ∷ es) fits run f = (
  record h { running = false },
  rw run (stopped h es),
  record { at_next = f.at_next; above = f.above; in_order = f.in_order },
)
run_head_from start next h (tick true ∷ es) fits run f = (
  record h { running = false },
  rw run (stopped h es),
  record { at_next = f.at_next; above = f.above; in_order = f.in_order },
)
run_head_from start next h (tick false ∷ es) fits run f =
    let (u, d, l) = run_head_from start next h es fits run f in
    (u, run_head-cons h h u (tick false) es run refl d, l)

-- Whatever is taken, in whatever order and however many head events are missed or come late, the loop
-- gets through it, if no head event is of the highest `uint64`; and each slot from the first one up to
-- the highest head before the end of the loop is sent to the downloads exactly once, in order.
pub run_head-Follows :
    (start : ℕ) (es : List Event)
    → slots_fit es ≡ true
    → (h : Head) × (run_head (follow_from start) es ≡ some h)
      × (h.tasks ≡ range_from start (highest start es - start))
      × (h.next ≡ highest start es)
      × (start ≤ highest start es)
run_head-Follows start es fits =
    let (h, e, f) = run_head_from start start (follow_from start) es fits refl (record {
      at_next = refl;
      above = omega arith;
      in_order = ap (range_from start) {x = 0} {y = start - start} (omega arith);
    }) in
    (h, e, f.in_order, f.at_next, f.above)
