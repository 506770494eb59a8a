-- ===== src/Registry/Syncer/Pods/Converges.antt =====
-- What a sync brings a pod: the database's state, and no loss of the pod's own writes.
use zeep_orbit.Prelude.Int.{ℤ, pos, negsuc}
use zeep_orbit.Prelude.{
  ℕ, String, true, false, List, none, some, Result, ok, err, ◌≡◌, ◌≢◌, inl, inr, refl, sym, ap,
  subst, arith, eqb, eqb_iff, Bool-cases,
}
use zeep_orbit.Registry.{Snapshot, apps_or_empty, replace_if_generation, retry, get}
use zeep_orbit.Registry.Syncer.{
  Syncer, SyncError, read_state_version, load_snapshot, check_version, eqb_ℤ, mark_unknown, unknown,
  load, swap, sync, sync_loaded, sync_checked, unchanged, moved, note_miss, on_miss,
}
use zeep_orbit.Registry.Syncer.Pods.{
  idle, swapping, Pod, Reachable, steps, misses, Part, app_named, Agrees, IsFlight, Write,
  IsCommitted,
}
use zeep_orbit.Registry.Syncer.Pods.Current.{Reachable-Flight, taken-Agrees}
use zeep_orbit.Registry.Syncer.Pods.Fresh.{Reachable-IsFresh}

eqb_ℤ-eq : (a b : ℤ) → eqb_ℤ a b ≡ true → a ≡ b
eqb_ℤ-eq (pos a) (pos b) h = ap pos ((eqb_iff a b).0 h)
eqb_ℤ-eq (pos a) (negsuc b) h = absurd (cc)
eqb_ℤ-eq (negsuc a) (pos b) h = absurd (cc)
eqb_ℤ-eq (negsuc a) (negsuc b) h = ap negsuc ((eqb_iff a b).0 h)

eqb_ℤ-false : (a b : ℤ) → a ≢ b → eqb_ℤ a b ≡ false
eqb_ℤ-false a b h = elim (Bool-cases (eqb_ℤ a b)) [
  | inl e ↦ absurd (h (eqb_ℤ-eq a b e))
  | inr e ↦ e
]

-- What makes a sync fail, and how: the version cannot be read, or it is not the one kept and the load
-- fails.
abbrev pub FailsWith :
    {H : Type 0} → Result String ℤ → Result String Snapshot → Syncer H → SyncError → Type 0
FailsWith (err text) loaded s e = e ≡ read_state_version text
FailsWith (ok version) (err text) s e = (version ≢ s.last_version) × (e ≡ load_snapshot text)
FailsWith (ok version) (ok snap) s e = ⊥

module _ {H : Type 0} (on_change : List (H → H)) where
  -- A load that nothing interrupts is taken.
  sync_loaded-Agrees :
      (v : ℤ) (snap : Snapshot) (s : Syncer H) (x : Part)
      → Agrees x (sync_loaded on_change (ok snap) v s.reg.gen s).0.reg snap
  unfolding sync_loaded load swap replace_if_generation
  sync_loaded-Agrees v snap s x =
      rw ((eqb_iff s.reg.gen s.reg.gen).1 refl) (taken-Agrees x s.reg snap snap refl)

  sync_loaded-version :
      (v : ℤ) (snap : Snapshot) (s : Syncer H)
      → (sync_loaded on_change (ok snap) v s.reg.gen s).0.last_version ≡ v
  unfolding sync_loaded load swap replace_if_generation
  sync_loaded-version v snap s = rw ((eqb_iff s.reg.gen s.reg.gen).1 refl) refl

  sync-unchanged :
      (v : ℤ) (loaded : Result String Snapshot) (s : Syncer H)
      → eqb_ℤ v s.last_version ≡ true
      → sync on_change (ok v) loaded s ≡ (s, ok tt)
  unfolding sync check_version
  sync-unchanged v loaded s e =
      let same : check_version (ok v) s ≡ (s, unchanged) = rw e refl in
      ap (sync_checked on_change loaded) same

  sync-moved :
      (v : ℤ) (loaded : Result String Snapshot) (s : Syncer H)
      → eqb_ℤ v s.last_version ≡ false
      → sync on_change (ok v) loaded s ≡ sync_loaded on_change loaded v s.reg.gen s
  unfolding sync check_version
  sync-moved v loaded s e =
      let same : check_version (ok v) s ≡ (s, moved v s.reg.gen) = rw e refl in
      ap (sync_checked on_change loaded) same

  module _ (content : ℕ → Snapshot) (registers : ℕ → Write → Type 0) where
    -- A pod of which no sync is in flight, whatever happened before, holds every app and the system
    -- config as the database does after a sync that can read the database and that no write of
    -- the pod or of another pod interrupts, also where the sync finds the version unchanged. The
    -- pod's handlers register a change before another change of the same app is committed, and
    -- before the registry's generation wraps around.
    pub sync-converges :
        (p : Pod H)
        → ((v : ℕ) (x : Write) → registers v x → IsCommitted x (content v))
        → Reachable on_change content registers p
        → p.phase ≡ idle
        → let s = (sync on_change (ok (pos p.version)) (ok (content p.version)) p.syncer).0 in
          ((x : Part) → Agrees x s.reg (content p.version)) × (s.last_version ≡ pos p.version)
    sync-converges p prompt reached at =
        elim (Bool-cases (eqb_ℤ (pos p.version) p.syncer.last_version)) [
          | inl e ↦
              let known = sym (eqb_ℤ-eq (pos p.version) p.syncer.last_version e) in
              let (le, parts) =
                Reachable-IsFresh on_change content registers prompt reached p.version known in
              rw (sync-unchanged (pos p.version) (ok (content p.version)) p.syncer e)
                (parts refl, known)
          | inr e ↦ rw (sync-moved (pos p.version) (ok (content p.version)) p.syncer e) (
            λ x. sync_loaded-Agrees (pos p.version) (content p.version) p.syncer x,
            sync_loaded-version (pos p.version) (content p.version) p.syncer,
          )
        ]

    -- Where a sync swaps its snapshot in, on a pod whose handlers register whatever they like at any
    -- time before the registry's generation wraps around, and whatever is committed meanwhile and
    -- loaded: if the pod wrote to its registry since the sync read the generation, the registry stays
    -- as it is and the next sync reloads; otherwise it is the snapshot, at the version read.
    pub swap-keeps_writes :
        (p : Pod H) (v : ℤ) (gen : ℕ) (snap : Snapshot)
        → Reachable on_change content registers p
        → p.phase ≡ swapping v gen snap
        → let s = swap on_change v gen snap p.syncer in
          (p.written ≡ true → (s.reg ≡ p.syncer.reg) × (s.last_version ≡ unknown))
          × (p.written ≡ false → ((x : Part) → Agrees x s.reg snap) × (s.last_version ≡ v))
    unfolding swap replace_if_generation mark_unknown
    swap-keeps_writes p v gen snap reached at =
        let flight = Reachable-Flight on_change content registers reached in
        let (u, held, seen) = subst (IsFlight content p.version p.syncer.reg p.written) at flight in
        (
          λ wrote.
              let grown = seen.rewritten wrote in
              let e : eqb p.syncer.reg.gen gen ≡ false = ground arith in rw e (refl, refl),
          λ quiet.
              let e : eqb p.syncer.reg.gen gen ≡ true =
                (eqb_iff p.syncer.reg.gen gen).1 (seen.unwritten quiet) in
              rw e (λ x. taken-Agrees x p.syncer.reg snap snap refl, refl),
        )

    -- A lookup of an app that the pod does not have, where no sync is in flight and no other miss was
    -- synced within the shortest gap, gives what the database holds, if the sync of the miss can
    -- read it and nothing interrupts it. The pod's handlers register a change before another change
    -- of the same app is committed, and before the registry's generation wraps around.
    pub get-finds_committed :
        (p : Pod H) (now : ℕ) (name : String) (s : Syncer H)
        → ((v : ℕ) (x : Write) → registers v x → IsCommitted x (content v))
        → Reachable on_change content registers p
        → p.phase ≡ idle
        → p.syncer.reg.apps name ≡ none
        → note_miss now p.syncer ≡ some s
        → (get
            (λ (t : Syncer H). t.reg)
            (some (on_miss on_change now (ok (pos p.version)) (ok (content p.version))))
            name
            p.syncer).1
          ≡ apps_or_empty (content p.version).apps name
    unfolding get on_miss retry
    get-finds_committed p now name s prompt reached at missing noted =
        let next = record p { syncer = s } in
        let held = sync-converges next prompt (steps p next reached (misses p now s noted)) at in
        rw (missing, get, retry, noted, on_miss) (held.0 (app_named name))

  -- The next sync after a version was marked as unknown.
  reloads_lem :
      (v : ℕ) (snap : Snapshot) (s : Syncer H)
      → s.last_version ≡ unknown
      → ((sync on_change (ok (pos v)) (ok snap) s).1 ≡ ok tt)
        × ((x : Part) → Agrees x (sync on_change (ok (pos v)) (ok snap) s).0.reg snap)
        × ((sync on_change (ok (pos v)) (ok snap) s).0.last_version ≡ pos v)
  unfolding sync_loaded load
  reloads_lem v snap s e =
      let moved_on = sync-moved (pos v) (ok snap) s (rw e refl) in
      (
        rw moved_on refl,
        λ x. rw moved_on (sync_loaded-Agrees (pos v) snap s x),
        rw moved_on (sync_loaded-version (pos v) snap s),
      )

  -- A sync whose read of the version fails, or whose load fails at a version that is not the one kept,
  -- returns that failure and leaves the registry; the next sync that can read returns no error, has
  -- the registry that it loads, at whatever version, and keeps this version.
  pub sync-retries :
      (version : Result String ℤ) (loaded : Result String Snapshot) (e : SyncError) (s : Syncer H)
      (v : ℕ) (snap : Snapshot)
      → FailsWith version loaded s e
      → let s' = (sync on_change version loaded s).0 in
        ((sync on_change version loaded s).1 ≡ err e)
        × (s'.reg ≡ s.reg)
        × ((sync on_change (ok (pos v)) (ok snap) s').1 ≡ ok tt)
        × ((x : Part) → Agrees x (sync on_change (ok (pos v)) (ok snap) s').0.reg snap)
        × ((sync on_change (ok (pos v)) (ok snap) s').0.last_version ≡ pos v)
  unfolding mark_unknown
  sync-retries (err text) loaded e s v snap is =
      unfold sync check_version in
      let (done, agrees, kept) = reloads_lem v snap (mark_unknown s) refl in
      (ap err (sym is), refl, done, agrees, kept)
  sync-retries (ok w) (err text) e s v snap (differs, is) =
      let (done, agrees, kept) = reloads_lem v snap (mark_unknown s) refl in
      let moved_on = sync-moved w (err text) s (eqb_ℤ-false w s.last_version differs) in
      rw moved_on (unfold sync_loaded load in (ap err (sym is), refl, done, agrees, kept))
  sync-retries (ok w) (ok held) e s v snap is = absurd is
