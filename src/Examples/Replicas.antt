-- ===== src/Examples/Replicas.antt =====
-- A pod that starts, syncs, and writes during a sync.
use zeep_orbit.Prelude.Int.{pos, negsuc}
use zeep_orbit.Prelude.{
  ℕ, Bool, true, false, none, some, List, [], ◌∷◌, ok, err, ◌≡◌, ◌==◌, ◌&&◌, leb, if◌then◌else◌,
  refl, arith,
}
use zeep_orbit.Registry.{App, SystemConfig, Registry, Snapshot, no_apps, get}
use zeep_orbit.Registry.Syncer.{
  check_version, load, Syncer, SyncerConfig, new_syncer, load_snapshot, swap, sync, unknown,
  note_miss, on_miss,
}
use zeep_orbit.Registry.Syncer.Misses.{Miss, synced_misses-gap, Spaced, gap_of, synced_misses}
use zeep_orbit.Registry.Syncer.Pods
use zeep_orbit.Registry.Syncer.Pods.{
  write, phase_of, loaded_phase, idle, swapping, Pod, Write, IsCommitted, commits, no_app,
  Reachable, boots, steps, writes, checks, loads, Part, Agrees, app_named,
}
use zeep_orbit.Registry.Syncer.Pods.Converges.{
  sync-converges, swap-keeps_writes, get-finds_committed, sync-retries, FailsWith,
}

abbrev settings : SystemConfig
settings = record { soft_delete_enabled = true; statement_timeout_ms = pos 500 }

abbrev shop : App
shop = record {
  config = record {
    name = "shop";
    auth = record { jwt_secret = "s"; email = true };
    tables = [];
    storage = none;
    rate_limit = none;
  };
  schema_name = "shop";
  tables = λ _. none;
  auth_providers = [];
  storage_config = none;
  rate_limit = none;
}

-- The shop is there from version 3 on.
abbrev content : ℕ → Snapshot
content v = record {
  apps = some (λ name. if name == "shop" && leb 3 v then some shop else none);
  system = settings;
}

abbrev fresh : Registry
fresh = record { apps = no_apps; sys_cfg = settings; gen = 0 }

abbrev durations : SyncerConfig
durations = record {
  interval = pos 0;
  miss_min_interval = pos 0;
  miss_timeout = pos 0;
  sync_timeout = negsuc 4;
}

abbrev hooks : List (Bool → Bool)
hooks = (λ _. true) ∷ []

abbrev booted : Pod Bool
booted = record {
  syncer = new_syncer fresh durations false;
  phase = idle;
  version = 3;
  written = false;
}

-- A handler registers a change before another change of the same app is committed.
abbrev Promptly : ℕ → Write → Type 0
Promptly v x = IsCommitted x (content v)

booted-Reachable : Reachable hooks content Promptly booted
booted-Reachable = boots fresh durations false 3

sync-converges_example :
    let s = (sync hooks (ok (pos 3)) (ok (content 3)) booted.syncer).0 in
    ((x : Part) → Agrees x s.reg (content 3)) × (s.last_version ≡ pos 3)
sync-converges_example =
    sync-converges hooks content Promptly booted (λ v x held. held) booted-Reachable refl

booted_misses : note_miss 9 booted.syncer ≡ some (record booted.syncer { last_miss = some 9 })
unfolding note_miss new_syncer
booted_misses = refl

booted_lacks : booted.syncer.reg.apps "shop" ≡ none
unfolding new_syncer
booted_lacks = refl

get-finds_committed_example :
    (get
      (λ (t : Syncer Bool). t.reg)
      (some (on_miss hooks 9 (ok (pos 3)) (ok (content 3))))
      "shop"
      booted.syncer).1
    ≡ some shop
get-finds_committed_example =
    get-finds_committed hooks content Promptly booted 9 "shop"
      (record booted.syncer { last_miss = some 9 }) (λ v x held. held) booted-Reachable refl
      booted_lacks booted_misses

load_fails : FailsWith (ok (pos 3)) (err "timeout") booted.syncer (load_snapshot "timeout")
unfolding new_syncer
load_fails = ((λ e. cc), refl)

sync-retries_example :
    let s = (sync hooks (ok (pos 3)) (err "timeout") booted.syncer).0 in
    ((sync hooks (ok (pos 3)) (err "timeout") booted.syncer).1 ≡ err (load_snapshot "timeout"))
    × (s.reg ≡ booted.syncer.reg)
    × ((sync hooks (ok (pos 3)) (ok (content 3)) s).1 ≡ ok tt)
    × ((x : Part) → Agrees x (sync hooks (ok (pos 3)) (ok (content 3)) s).0.reg (content 3))
    × ((sync hooks (ok (pos 3)) (ok (content 3)) s).0.last_version ≡ pos 3)
sync-retries_example =
    sync-retries hooks (ok (pos 3)) (err "timeout") (load_snapshot "timeout") booted.syncer 3
      (content 3) load_fails

-- While its sync loads, the app is committed anew, and a handler of the pod registers late that the app
-- is gone; what is loaded is of no version.
abbrev AtAnyTime : ℕ → Write → Type 0
AtAnyTime v x = Unit

abbrev loading_pod : Pod Bool
loading_pod = record booted { phase = Pods.loading (pos 3) 0 }

abbrev overtaken : Pod Bool
overtaken = record loading_pod { version = 4 }

abbrev writing : Pod Bool
writing = record overtaken {
  syncer = record overtaken.syncer { reg = write (no_app "shop") overtaken.syncer.reg };
  written = true;
}

abbrev torn : Snapshot
torn = record { apps = none; system = settings }

abbrev loaded : Pod Bool
loaded = record writing { phase = swapping (pos 3) 0 torn }

loaded-Reachable : Reachable hooks content AtAnyTime loaded
unfolding new_syncer check_version load phase_of loaded_phase
loaded-Reachable =
    steps writing loaded
      (steps overtaken writing
        (steps loading_pod overtaken
          (steps booted loading_pod (boots fresh durations false 3)
            (checks booted (ok (pos 3)) refl refl))
          (commits loading_pod))
        (writes overtaken (no_app "shop") tt (omega arith)))
      (loads writing (pos 3) 0 (ok torn) refl (λ e. absurd (cc)))

swap-keeps_writes_example :
    let s = swap hooks (pos 3) 0 torn loaded.syncer in
    (loaded.written ≡ true → (s.reg ≡ loaded.syncer.reg) × (s.last_version ≡ unknown))
    × (loaded.written ≡ false → ((x : Part) → Agrees x s.reg torn) × (s.last_version ≡ pos 3))
swap-keeps_writes_example =
    swap-keeps_writes hooks content AtAnyTime loaded (pos 3) 0 torn loaded-Reachable refl

abbrev misses : List Miss
misses =
    record { at = 5; version = err "down"; loaded = err "down" }
    ∷ record { at = 9; version = ok (pos 3); loaded = ok (content 3) }
    ∷ record { at = 1000000005; version = ok (pos 3); loaded = ok (content 3) }
    ∷ []

synced_misses-gap_example :
    Spaced (gap_of durations) 0 (synced_misses hooks misses (new_syncer fresh durations false))
synced_misses-gap_example = synced_misses-gap hooks fresh durations false misses
