-- ===== src/Registry/Syncer/Misses.antt =====
-- How often a pod's misses may reach the database.
use zeep_orbit.Prelude.Int.{ℤ, pos, negsuc, pos_part}
use zeep_orbit.Prelude.{
  ℕ, zero, suc, ◌+◌, ◌≤◌, String, true, false, List, [], ◌∷◌, Option, none, some, Result, ok, err,
  ◌≡◌, eqb, inl, inr, refl, ◌∙◌, arith, Bool-cases,
}
use zeep_orbit.Registry.{Registry, Snapshot, replace_if_generation}
use zeep_orbit.Registry.Syncer.{
  Syncer, SyncerConfig, new_syncer, is_recent, note_miss, on_miss, sync, sync_checked, sync_loaded,
  swap, load, check_version, mark_unknown, eqb_ℤ, or_default,
}

-- A miss, and what the database answers to its sync.
pub record Miss : Type 0 where
  pub at : ℕ
  pub version : Result String ℤ
  pub loaded : Result String Snapshot

-- Each time is at least `gap` after the one before, and the first one is not before `low`.
abbrev pub Spaced : ℕ → ℕ → List ℕ → Type 0
Spaced gap low [] = Unit
Spaced gap low (t ∷ ts) = (low ≤ t) × Spaced gap (t + gap) ts

module _ {H : Type 0} (on_change : List (H → H)) where
  -- The times of the misses that synced.
  unfoldable pub synced_misses : List Miss → Syncer H → List ℕ
  synced_misses [] s = []
  synced_misses (m ∷ ms) s =
      let rest = synced_misses ms (on_miss on_change m.at m.version m.loaded s) in
      elim (note_miss m.at s) [ none ↦ rest | some _ ↦ m.at ∷ rest ]

  -- What a sync leaves of the syncer.
  record Keeps (s t : Syncer H) : Type 0 where
    last_miss : t.last_miss ≡ s.last_miss
    interval : t.cfg.miss_min_interval ≡ s.cfg.miss_min_interval

  swap-Keeps :
      (v : ℤ) (gen : ℕ) (snap : Snapshot) (s : Syncer H) → Keeps s (swap on_change v gen snap s)
  unfolding swap replace_if_generation mark_unknown
  swap-Keeps v gen snap s = elim (Bool-cases (eqb s.reg.gen gen)) [
    | inl e ↦ rw e (record { last_miss = refl; interval = refl })
    | inr e ↦ rw e (record { last_miss = refl; interval = refl })
  ]

  sync_loaded-Keeps :
      (loaded : Result String Snapshot) (v : ℤ) (gen : ℕ) (s : Syncer H)
      → Keeps s (sync_loaded on_change loaded v gen s).0
  unfolding sync_loaded load mark_unknown
  sync_loaded-Keeps (err e) v gen s = record { last_miss = refl; interval = refl }
  sync_loaded-Keeps (ok snap) v gen s = swap-Keeps v gen snap s

  sync-Keeps :
      (version : Result String ℤ) (loaded : Result String Snapshot) (s : Syncer H)
      → Keeps s (sync on_change version loaded s).0
  unfolding sync check_version sync_checked mark_unknown
  sync-Keeps (err e) loaded s = record { last_miss = refl; interval = refl }
  sync-Keeps (ok v) loaded s = elim (Bool-cases (eqb_ℤ v s.last_version)) [
    | inl e ↦ rw (e, sync) (record { last_miss = refl; interval = refl })
    | inr e ↦ rw (e, sync) (sync_loaded-Keeps loaded v s.reg.gen s)
  ]

  -- The time from which a miss may sync.
  abbrev due : ℕ → Option ℕ → ℕ
  due gap none = 0
  due gap (some miss) = miss + gap

  not_recent :
      (now gap : ℕ) (miss : Option ℕ) → is_recent now (pos gap) miss ≡ false → due gap miss ≤ now
  unfolding is_recent
  not_recent now gap none h = omega arith
  not_recent now gap (some miss) h = ground arith

  note_miss-recent :
      (now : ℕ) (s : Syncer H)
      → is_recent now s.cfg.miss_min_interval s.last_miss ≡ true
      → note_miss now s ≡ none
  unfolding note_miss
  note_miss-recent now s e = rw e refl

  note_miss-due :
      (now : ℕ) (s : Syncer H)
      → is_recent now s.cfg.miss_min_interval s.last_miss ≡ false
      → note_miss now s ≡ some (record s { last_miss = some now })
  unfolding note_miss
  note_miss-due now s e = rw e refl

  on_miss-none :
      (m : Miss) (s : Syncer H)
      → note_miss m.at s ≡ none
      → on_miss on_change m.at m.version m.loaded s ≡ s
  unfolding on_miss
  on_miss-none m s e = rw (e, on_miss) refl

  on_miss-some :
      (m : Miss) (s s' : Syncer H)
      → note_miss m.at s ≡ some s'
      → on_miss on_change m.at m.version m.loaded s ≡ (sync on_change m.version m.loaded s').0
  unfolding on_miss
  on_miss-some m s s' e = rw (e, on_miss) refl

  synced_misses-Spaced :
      (ms : List Miss) (s : Syncer H) (gap : ℕ)
      → s.cfg.miss_min_interval ≡ pos gap
      → Spaced gap (due gap s.last_miss) (synced_misses ms s)
  unfolding synced_misses
  synced_misses-Spaced [] s gap set = tt
  synced_misses-Spaced (m ∷ ms) s gap set =
      elim (Bool-cases (is_recent m.at s.cfg.miss_min_interval s.last_miss)) [
        | inl e ↦
            let skipped = note_miss-recent m.at s e in
            let same = on_miss-none m s skipped in
            rw (skipped, synced_misses, same) (synced_misses-Spaced ms s gap set)
        | inr e ↦
            let s' = record s { last_miss = some m.at } in
            let t = (sync on_change m.version m.loaded s').0 in
            let kept = sync-Keeps m.version m.loaded s' in
            let rest = synced_misses-Spaced ms t gap (kept.interval ∙ set) in
            let noted = note_miss-due m.at s e in
            let same = on_miss-some m s s' noted in
            rw (noted, synced_misses, same)
              (not_recent m.at gap s.last_miss (rw set at e), rw kept.last_miss at rest)
      ]

-- The gap that a new syncer keeps.
abbrev pub gap_of : SyncerConfig → ℕ
gap_of cfg = pos_part (or_default cfg.miss_min_interval (pos 1000000000))

or_default-pos : (d : ℤ) (n : ℕ) → or_default d (pos n) ≡ pos (pos_part (or_default d (pos n)))
or_default-pos (pos zero) n = refl
or_default-pos (pos (suc k)) n = refl
or_default-pos (negsuc k) n = refl

-- Whenever misses come, and whatever the database answers, two misses that sync on one pod are at
-- least the configured gap apart (one second where none is configured).
pub synced_misses-gap :
    {H : Type 0} (on_change : List (H → H)) (reg : Registry) (cfg : SyncerConfig) (derived : H)
    (ms : List Miss)
    → Spaced (gap_of cfg) 0 (synced_misses on_change ms (new_syncer reg cfg derived))
unfolding new_syncer
synced_misses-gap on_change reg cfg derived ms =
    synced_misses-Spaced on_change ms (new_syncer reg cfg derived) (gap_of cfg)
      (or_default-pos cfg.miss_min_interval 1000000000)
