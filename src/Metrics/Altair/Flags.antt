-- ===== src/Metrics/Altair/Flags.antt =====
-- The participation flags of the forks against each other (pkg/spec/metrics).
use goteth.Common.{
  ℕ, ◌+◌, ◌≤◌, ◌<◌, ◌≡◌, true, some, sub64, u64_mod, i64_min_bits, >>=-eq-some, some_inj, arith,
  sym, ◌∙◌,
}
use mathlib.Core.Path.{subst}
use goteth.Spec.Block.{AgnosticBlock, AttestationData}
use goteth.Metrics.{StateMetricsBase}
use goteth.Metrics.Altair.{
  ParticipationFlags, matching, altair_flags, deneb_flags, target_inclusion_ok, get_inclusion_delay,
  get_participation_flags, get_participation_flags_deneb, get_participation_flags_electra,
}

-- What Deneb's flags `d` are to Altair's `a`.
abbrev pub Refines : ℕ → ℕ → ParticipationFlags → ParticipationFlags → Type 0
Refines slot included_slot a d =
    (d.source ≡ a.source)
    × (d.head ≡ a.head)
    × (a.target ≡ true → d.target ≡ true)
    × (d.target ≡ true → included_slot ≤ slot + 32 → a.target ≡ true)

-- The block does not come before the attested slot, and the delay is an `int`.
abbrev pub IsLater : AttestationData → AgnosticBlock → Type 0
IsLater data' included =
    (data'.slot ≤ included.slot)
    × (included.slot < u64_mod)
    × (included.slot < data'.slot + i64_min_bits)

-- The head flag comes with the other two, and the target flag only where the target matches.
abbrev pub IsNested : ParticipationFlags → Type 0
IsNested f = f.head ≡ true → (f.source ≡ true) × (f.target ≡ true)

matching-Nested :
    (s : StateMetricsBase) (data' : AttestationData) (m : ParticipationFlags)
    → matching s data' ≡ some m
    → (m.head ≡ true → m.target ≡ true) × (m.target ≡ true → m.source ≡ true)
unfolding matching
matching-Nested s data' m h = ground (arith, h)

altair-deneb :
    (data' : AttestationData) (included : AgnosticBlock) (m : ParticipationFlags)
    → IsLater data' included
    → let delay = get_inclusion_delay data' included in
      Refines data'.slot included.slot
        (altair_flags delay m)
        (deneb_flags (target_inclusion_ok data' included) delay m)
unfolding altair_flags deneb_flags target_inclusion_ok get_inclusion_delay sub64
altair-deneb data' included m later = ground (arith, later)

altair-IsNested :
    (data' : AttestationData) (included : AgnosticBlock) (m : ParticipationFlags)
    → IsLater data' included
    → (m.head ≡ true → m.target ≡ true) × (m.target ≡ true → m.source ≡ true)
    → IsNested (altair_flags (get_inclusion_delay data' included) m)
unfolding altair_flags get_inclusion_delay sub64
altair-IsNested data' included m later nested = ground (arith, later, nested)

-- An attestation that is included in its slot or later gets the head flag of Altair only together with
-- the source and the target flag.
pub get_participation_flags-IsNested :
    (s : StateMetricsBase) (data' : AttestationData) (included : AgnosticBlock)
    (f : ParticipationFlags)
    → IsLater data' included
    → get_participation_flags s data' included ≡ some f
    → IsNested f
unfolding get_participation_flags
get_participation_flags-IsNested s data' included f later h =
    let (m, found, made) = >>=-eq-some (matching s data') _ h in
    subst IsNested (some_inj made)
      (altair-IsNested data' included m later (matching-Nested s data' m found))

-- For an attestation that is included in its slot or later, the flags of Deneb, and of Electra, are
-- those of Altair, but for the target: Deneb gives it wherever Altair does, and over a delay of at
-- most 32 slots only there.
pub get_participation_flags_deneb-altair :
    (s : StateMetricsBase) (data' : AttestationData) (included : AgnosticBlock)
    (a d : ParticipationFlags)
    → IsLater data' included
    → get_participation_flags s data' included ≡ some a
    → get_participation_flags_electra s data' included ≡ some d
    → (get_participation_flags_deneb s data' included ≡ some d)
      × Refines data'.slot included.slot a d
unfolding get_participation_flags get_participation_flags_deneb get_participation_flags_electra
get_participation_flags_deneb-altair s data' included a d later h k =
    let (m, found, made) = >>=-eq-some (matching s data') _ h in
    let (n, found', made') = >>=-eq-some (matching s data') _ k in
    let same : m ≡ n = some_inj (sym found ∙ found') in
    let made'' =
      subst
        (λ x.
          some (
            deneb_flags (target_inclusion_ok data' included) (get_inclusion_delay data' included) x)
          ≡ some d)
        (sym same) made' in
    (
      k,
      subst (λ x. Refines data'.slot included.slot x d) (some_inj made)
          (subst (Refines data'.slot included.slot _) (some_inj made'')
            (altair-deneb data' included m later)),
    )
