-- ===== src/Registry/Syncer/Pods.antt =====
-- One pod among the others: its syncer, the writes that its own handlers register
-- (internal/dashboard/handler.go), and the database that every pod changes.
pub mod Current
pub mod Fresh
pub mod Converges
use zeep_orbit.Prelude.Int.{ℤ, pos}
use zeep_orbit.Prelude.{
  ℕ, ◌+◌, ◌^◌, ◌<◌, ◌≤◌, String, Bool, true, false, List, Option, none, some, Result, ok, err, ◌≡◌,
}
use zeep_orbit.Registry.{
  App, SystemConfig, Registry, Snapshot, apps_or_empty, register, unregister, set_system_config,
}
use zeep_orbit.Registry.Syncer.{
  Syncer, SyncerConfig, new_syncer, Checked, failed, unchanged, moved, SyncError, check_version,
  load, swap, note_miss,
}

-- What a sync in flight has read.
pub data Phase : Type 0 where
  idle : Phase
  loading : ℤ → ℕ → Phase
  swapping : ℤ → ℕ → Snapshot → Phase

pub record Pod (H : Type 0) : Type 0 where
  pub syncer : Syncer H
  pub phase : Phase
  -- the database's state version
  pub version : ℕ
  -- whether this pod wrote to its registry since the sync read the generation
  pub written : Bool

pub data Write : Type 0 where
  app : App → Write
  no_app : String → Write
  system : SystemConfig → Write

unfoldable pub write : Write → Registry → Registry
unfolding register unregister set_system_config
write (app a) = register a
write (no_app name) = unregister name
write (system cfg) = set_system_config cfg

-- The database holds what the write says.
abbrev pub IsCommitted : Write → Snapshot → Type 0
IsCommitted (app a) snap = apps_or_empty snap.apps a.config.name ≡ some a
IsCommitted (no_app name) snap = apps_or_empty snap.apps name ≡ none
IsCommitted (system cfg) snap = snap.system ≡ cfg

unfoldable pub phase_of : Checked → Phase
phase_of (failed e) = idle
phase_of unchanged = idle
phase_of (moved v gen) = loading v gen

unfoldable pub loaded_phase : ℤ → ℕ → Result SyncError Snapshot → Phase
loaded_phase v gen (err e) = idle
loaded_phase v gen (ok snap) = swapping v gen snap

-- A read of the version fails or gives what the database holds.
abbrev pub Reads : {A : Type 0} → A → Result String A → Type 0
Reads a (ok x) = x ≡ a
Reads a (err e) = Unit

-- LoadRegistrySnapshot of internal/dashboard/registry_snapshot.go runs several queries without a
-- transaction. What it gives is known only if the version read before is still that of the database
-- when it ends, so that nothing was committed in between.
abbrev pub ReadsSnapshot : (ℕ → Snapshot) → ℤ → ℕ → Result String Snapshot → Type 0
ReadsSnapshot content v version (ok snap) = v ≡ pos version → snap ≡ content version
ReadsSnapshot content v version (err e) = Unit

-- `content v` is what the database holds at state version `v`. `registers v x` says that a handler of
-- this pod may register the write `x` while the database is at version `v`.
module _ {H : Type 0} (on_change : List (H → H)) (content : ℕ → Snapshot)
    (registers : ℕ → Write → Type 0) where
  pub data Step : Pod H → Pod H → Type 0 where
    -- any pod commits a change, which bumps the version
    commits : (p : Pod H) → Step p (record p { version = p.version + 1 })
    -- a handler of this pod registers a change, before the counter wraps around
    writes :
        (p : Pod H) (x : Write)
        → registers p.version x
        → p.syncer.reg.gen + 1 < 2 ^ 64
        → Step p
            (record p { syncer = record p.syncer { reg = write x p.syncer.reg }; written = true })
    checks :
        (p : Pod H) (r : Result String ℤ)
        → p.phase ≡ idle
        → Reads (pos p.version) r
        → Step p (record p {
          syncer = (check_version r p.syncer).0;
          phase = phase_of (check_version r p.syncer).1;
          written = false;
        })
    -- the load ends
    loads :
        (p : Pod H) (v : ℤ) (gen : ℕ) (r : Result String Snapshot)
        → p.phase ≡ loading v gen
        → ReadsSnapshot content v p.version r
        → Step p (record p {
          syncer = (load r p.syncer).0;
          phase = loaded_phase v gen (load r p.syncer).1;
        })
    swaps :
        (p : Pod H) (v : ℤ) (gen : ℕ) (snap : Snapshot)
        → p.phase ≡ swapping v gen snap
        → Step p (record p { syncer = swap on_change v gen snap p.syncer; phase = idle })
    misses :
        (p : Pod H) (now : ℕ) (s : Syncer H)
        → note_miss now p.syncer ≡ some s
        → Step p (record p { syncer = s })

  pub data Reachable : Pod H → Type 0 where
    boots :
        (reg : Registry) (cfg : SyncerConfig) (derived : H) (version : ℕ)
        → Reachable (record {
          syncer = new_syncer reg cfg derived;
          phase = idle;
          version = version;
          written = false;
        })
    steps : (p q : Pod H) → Reachable p → Step p q → Reachable q

-- What the registry and a snapshot can agree on.
pub data Part : Type 0 where
  app_named : String → Part
  system_config : Part

abbrev pub Agrees : Part → Registry → Snapshot → Type 0
Agrees (app_named name) reg snap = reg.apps name ≡ apps_or_empty snap.apps name
Agrees system_config reg snap = reg.sys_cfg ≡ snap.system

-- What a sync in flight has read of the version and of the generation.
pub record IsRead (version read_at : ℕ) (reg : Registry) (written : Bool) (v : ℤ) (gen : ℕ)
    : Type 0 where
  pub read_version : v ≡ pos read_at
  pub read_le : read_at ≤ version
  pub unwritten : written ≡ false → reg.gen ≡ gen
  pub rewritten : written ≡ true → gen < reg.gen

abbrev pub IsFlight : (ℕ → Snapshot) → ℕ → Registry → Bool → Phase → Type 0
IsFlight content version reg written idle = Unit
IsFlight content version reg written (loading v gen) = (u : ℕ) × IsRead version u reg written v gen
IsFlight content version reg written (swapping v gen snap) =
    (u : ℕ) × (u ≡ version → snap ≡ content version) × IsRead version u reg written v gen

-- The registry is what the database holds where the syncer keeps the database's version.
abbrev pub IsFresh : {H : Type 0} → (ℕ → Snapshot) → Pod H → Type 0
IsFresh content p =
    (v : ℕ)
    → p.syncer.last_version ≡ pos v
    → (v ≤ p.version) × (v ≡ p.version → (x : Part) → Agrees x p.syncer.reg (content p.version))
