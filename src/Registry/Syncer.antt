-- ===== src/Registry/Syncer.antt =====
-- What keeps one pod's registry like the database: internal/registry/syncer.go. `sync` is cut where
-- other goroutines may act: after the version is read, and after the snapshot is loaded.
pub mod Pods
pub mod Misses
use zeep_orbit.Prelude.Int.{ℤ, pos, negsuc}
use zeep_orbit.Prelude.{
  ℕ, zero, suc, ◌+◌, String, Bool, true, false, List, [], ◌∷◌, Option, none, some, Result, ok, err,
  ltb, leb, eqb, if◌then◌else◌,
}
use zeep_orbit.Registry.{Registry, Snapshot, generation, replace_if_generation}

-- The durations, in nanoseconds. `Version`, `Load` and `OnChange` are arguments of the steps.
pub record SyncerConfig : Type 0 where
  pub interval : ℤ
  pub miss_min_interval : ℤ
  pub miss_timeout : ℤ
  pub sync_timeout : ℤ

-- `lastVersion` is -1 where the next sync reloads in any case; `lastMiss` is `none` while it is the
-- zero time. `H` is what the change hooks act on.
pub record Syncer (H : Type 0) : Type 0 where
  pub reg : Registry
  pub cfg : SyncerConfig
  pub last_version : ℤ
  pub last_miss : Option ℕ
  pub derived : H

abbrev pub unknown : ℤ
unknown = negsuc 0

-- `if d <= 0 { d = standard }`
abbrev pub or_default : ℤ → ℤ → ℤ
or_default (pos zero) standard = standard
or_default (pos (suc n)) standard = pos (suc n)
or_default (negsuc n) standard = standard

unfoldable pub new_syncer : {H : Type 0} → Registry → SyncerConfig → H → Syncer H
new_syncer reg cfg derived = record {
  reg = reg;
  cfg = record {
    interval = or_default cfg.interval (pos 2000000000);
    miss_min_interval = or_default cfg.miss_min_interval (pos 1000000000);
    miss_timeout = or_default cfg.miss_timeout (pos 2000000000);
    sync_timeout = or_default cfg.sync_timeout (pos 10000000000);
  };
  last_version = unknown;
  last_miss = none;
  derived = derived;
}

abbrev pub eqb_ℤ : ℤ → ℤ → Bool
eqb_ℤ (pos a) (pos b) = eqb a b
eqb_ℤ (pos a) (negsuc b) = false
eqb_ℤ (negsuc a) (pos b) = false
eqb_ℤ (negsuc a) (negsuc b) = eqb a b

-- The text is that of the error that `Version` or `Load` gave.
pub data SyncError : Type 0 where
  read_state_version : String → SyncError
  load_snapshot : String → SyncError

-- What the version says: the sync ends, or loads with the version and the generation it has read.
pub data Checked : Type 0 where
  failed : SyncError → Checked
  unchanged : Checked
  moved : ℤ → ℕ → Checked

-- `!s.lastMiss.IsZero() && now.Sub(s.lastMiss) < s.cfg.MissMinInterval`
unfoldable pub is_recent : ℕ → ℤ → Option ℕ → Bool
is_recent now interval none = false
is_recent now (pos interval) (some miss) = ltb now (miss + interval)
is_recent now (negsuc n) (some miss) = ltb (now + suc n) miss

module _ {H : Type 0} where
  unfoldable pub mark_unknown : Syncer H → Syncer H
  mark_unknown s = record s { last_version = unknown }

  -- From `s.cfg.Version(ctx)` to `s.reg.Generation()`.
  unfoldable pub check_version : Result String ℤ → Syncer H → Syncer H × Checked
  unfolding mark_unknown
  check_version (err e) s = (mark_unknown s, failed (read_state_version e))
  check_version (ok version) s =
      if eqb_ℤ version s.last_version then (s, unchanged) else (s, moved version (generation s.reg))

  -- `s.cfg.Load(ctx)`
  unfoldable pub load : Result String Snapshot → Syncer H → Syncer H × Result SyncError Snapshot
  unfolding mark_unknown
  load (err e) s = (mark_unknown s, err (load_snapshot e))
  load (ok snap) s = (s, ok snap)

  abbrev pub run_hooks : List (H → H) → H → H
  run_hooks [] h = h
  run_hooks (fn ∷ fns) h = run_hooks fns (fn h)

  -- From `ReplaceIfGeneration` on.
  unfoldable pub swap : List (H → H) → ℤ → ℕ → Snapshot → Syncer H → Syncer H
  unfolding mark_unknown replace_if_generation
  swap on_change version gen snap s =
      let (reg', replaced) = replace_if_generation gen snap.apps snap.system s.reg in
      if replaced
      then record s { reg = reg'; last_version = version; derived = run_hooks on_change s.derived }
      else mark_unknown s

  -- `sync` where no other goroutine acts on the registry during it.
  unfoldable pub sync_loaded :
      List (H → H)
      → Result String Snapshot
      → ℤ
      → ℕ
      → Syncer H
      → Syncer H × Result SyncError (Unit {0})
  unfolding load swap
  sync_loaded on_change loaded version gen s =
      let (s', r) = load loaded s in
      elim r [ err e ↦ (s', err e) | ok snap ↦ (swap on_change version gen snap s', ok tt) ]

  unfoldable pub sync_checked :
      List (H → H)
      → Result String Snapshot
      → Syncer H × Checked
      → Syncer H × Result SyncError (Unit {0})
  unfolding sync_loaded
  sync_checked on_change loaded (s, failed e) = (s, err e)
  sync_checked on_change loaded (s, unchanged) = (s, ok tt)
  sync_checked on_change loaded (s, moved v gen) = sync_loaded on_change loaded v gen s

  unfoldable pub sync :
      List (H → H)
      → Result String ℤ
      → Result String Snapshot
      → Syncer H
      → Syncer H × Result SyncError (Unit {0})
  unfolding check_version sync_checked
  sync on_change version loaded s = sync_checked on_change loaded (check_version version s)

  -- The guard of `OnMiss`: `none` where the miss returns at once.
  unfoldable pub note_miss : ℕ → Syncer H → Option (Syncer H)
  unfolding is_recent
  note_miss now s =
      if is_recent now s.cfg.miss_min_interval s.last_miss
      then none
      else some (record s { last_miss = some now })

  -- `OnMiss`, where its sync ends within the timeouts.
  unfoldable pub on_miss :
      List (H → H) → ℕ → Result String ℤ → Result String Snapshot → Syncer H → Syncer H
  unfolding note_miss sync
  on_miss on_change now version loaded s = elim (note_miss now s) [
    | none ↦ s
    | some s' ↦ (sync on_change version loaded s').0
  ]
