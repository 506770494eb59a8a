-- ===== src/Registry/Syncer/Pods/Current.antt =====
-- What a sync in flight on a pod has read, and what a registered write does to the registry.
use native.Mathlib.Nat.{mod-eq_of_lt}
use zeep_orbit.Prelude.Int.{ℤ, pos}
use zeep_orbit.Prelude.{
  ℕ, ◌+◌, ◌^◌, ◌<◌, String, Bool, true, false, List, some, Result, ok, err, ◌≡◌, inl, inr, refl,
  sym, ap, subst, ◌∙◌, arith, String-cases, Bool-cases,
}
use zeep_orbit.Registry.{Registry, Snapshot, apps_or_empty, register, unregister, set_system_config}
use zeep_orbit.Registry.Syncer.{
  Syncer, check_version, eqb_ℤ, mark_unknown, load, note_miss, is_recent,
}
use zeep_orbit.Registry.Syncer.Pods.{
  Phase, idle, loading, swapping, Pod, Write, app, no_app, system, write, IsCommitted, phase_of,
  loaded_phase, Reads, Step, commits, writes, checks, loads, swaps, misses, Reachable, boots, steps,
  Part, app_named, system_config, Agrees, IsRead, IsFlight, ReadsSnapshot,
}

later-IsRead :
    (version u : ℕ) (reg : Registry) (written : Bool) (v : ℤ) (gen : ℕ)
    → IsRead version u reg written v gen
    → IsRead (version + 1) u reg written v gen
later-IsRead version u reg written v gen h = record {
  read_version = h.read_version;
  read_le = let le = h.read_le in omega arith;
  unwritten = h.unwritten;
  rewritten = h.rewritten;
}

later-IsFlight :
    (content : ℕ → Snapshot) (version : ℕ) (reg : Registry) (written : Bool) (ph : Phase)
    → IsFlight content version reg written ph
    → IsFlight content (version + 1) reg written ph
later-IsFlight content version reg written idle h = tt
later-IsFlight content version reg written (loading v gen) (u, h) =
    (u, later-IsRead version u reg written v gen h)
later-IsFlight content version reg written (swapping v gen snap) (u, held, h) =
    (u, λ e. absurd (let le = h.read_le in omega arith), later-IsRead version u reg written v gen h)

written-IsRead :
    (version u : ℕ) (reg reg' : Registry) (written : Bool) (v : ℤ) (gen : ℕ)
    → reg'.gen ≡ reg.gen + 1
    → IsRead version u reg written v gen
    → IsRead version u reg' true v gen
written-IsRead version u reg reg' written v gen grown h = record {
  read_version = h.read_version;
  read_le = h.read_le;
  unwritten = λ e. absurd (cc);
  rewritten = λ e. elim (Bool-cases written) [
    | inl w ↦ let before = h.rewritten w in omega (arith, grown, before)
    | inr w ↦ let same = h.unwritten w in omega (arith, grown, same)
  ];
}

written-IsFlight :
    (content : ℕ → Snapshot) (version : ℕ) (reg reg' : Registry) (written : Bool) (ph : Phase)
    → reg'.gen ≡ reg.gen + 1
    → IsFlight content version reg written ph
    → IsFlight content version reg' true ph
written-IsFlight content version reg reg' written idle grown h = tt
written-IsFlight content version reg reg' written (loading v gen) grown (u, h) =
    (u, written-IsRead version u reg reg' written v gen grown h)
written-IsFlight content version reg reg' written (swapping v gen snap) grown (u, held, h) =
    (u, held, written-IsRead version u reg reg' written v gen grown h)

write-gen : (x : Write) (reg : Registry) → reg.gen + 1 < 2 ^ 64 → (write x reg).gen ≡ reg.gen + 1
unfolding write register unregister set_system_config
write-gen (app a) reg room = mod-eq_of_lt room
write-gen (no_app name) reg room = mod-eq_of_lt room
write-gen (system cfg) reg room = mod-eq_of_lt room

-- A write that the database holds leaves the registry as the database.
pub write-Agrees :
    (x : Write) (reg : Registry) (snap : Snapshot) (part : Part)
    → IsCommitted x snap
    → Agrees part reg snap
    → Agrees part (write x reg) snap
unfolding write register unregister set_system_config
write-Agrees (app a) reg snap (app_named name) held h = elim (String-cases a.config.name name) [
  | inl (e, p) ↦ rw e (sym held ∙ ap (λ n. apps_or_empty snap.apps n) p)
  | inr (e, p) ↦ rw e h
]
write-Agrees (no_app gone) reg snap (app_named name) held h = elim (String-cases gone name) [
  | inl (e, p) ↦ rw e (sym held ∙ ap (λ n. apps_or_empty snap.apps n) p)
  | inr (e, p) ↦ rw e h
]
write-Agrees (system cfg) reg snap (app_named name) held h = h
write-Agrees (app a) reg snap system_config held h = h
write-Agrees (no_app gone) reg snap system_config held h = h
write-Agrees (system cfg) reg snap system_config held h = sym held

pub taken-Agrees :
    (x : Part) (reg : Registry) (snap held : Snapshot)
    → snap ≡ held
    → Agrees x (record reg { apps = apps_or_empty snap.apps; sys_cfg = snap.system }) held
taken-Agrees (app_named name) reg snap held e = ap (λ (t : Snapshot). apps_or_empty t.apps name) e
taken-Agrees system_config reg snap held e = ap (λ (t : Snapshot). t.system) e

pub note_miss-some :
    {H : Type 0} (now : ℕ) (s s' : Syncer H)
    → note_miss now s ≡ some s'
    → s' ≡ record s { last_miss = some now }
unfolding note_miss
note_miss-some now s s' noted =
    elim (Bool-cases (is_recent now s.cfg.miss_min_interval s.last_miss)) [
      | inl e ↦ absurd (cc (rw e at noted))
      | inr e ↦ cc (rw e at noted)
    ]

module _ {H : Type 0} (on_change : List (H → H)) (content : ℕ → Snapshot)
    (registers : ℕ → Write → Type 0) where
  abbrev pub Flight : Pod H → Type 0
  Flight p = IsFlight content p.version p.syncer.reg p.written p.phase

  checks-Flight :
      (p : Pod H) (r : Result String ℤ)
      → Reads (pos p.version) r
      → Flight (record p {
        syncer = (check_version r p.syncer).0;
        phase = phase_of (check_version r p.syncer).1;
        written = false;
      })
  unfolding check_version phase_of mark_unknown
  checks-Flight p (err e) read = tt
  checks-Flight p (ok v) read = elim (Bool-cases (eqb_ℤ v p.syncer.last_version)) [
    | inl e ↦ rw e tt
    | inr e ↦ rw e (
      p.version,
      record {
        read_version = read;
        read_le = omega arith;
        unwritten = λ f. refl;
        rewritten = λ f. absurd (cc);
      },
    )
  ]

  loads-Flight :
      (p : Pod H) (v : ℤ) (gen : ℕ) (r : Result String Snapshot)
      → p.phase ≡ loading v gen
      → ReadsSnapshot content v p.version r
      → Flight p
      → Flight (record p {
        syncer = (load r p.syncer).0;
        phase = loaded_phase v gen (load r p.syncer).1;
      })
  unfolding load loaded_phase mark_unknown
  loads-Flight p v gen (err e) at read h = tt
  loads-Flight p v gen (ok snap) at read h =
      let (u, seen) = subst (IsFlight content p.version p.syncer.reg p.written) at h in
      (u, (λ e. read (seen.read_version ∙ ap pos e)), seen)

  Step-Flight : {p q : Pod H} → Step on_change content registers p q → Flight p → Flight q
  Step-Flight (commits p) h = later-IsFlight content p.version p.syncer.reg p.written p.phase h
  Step-Flight (writes p x allowed room) h =
      written-IsFlight content p.version p.syncer.reg (write x p.syncer.reg) p.written p.phase
        (write-gen x p.syncer.reg room) h
  Step-Flight (checks p r at read) h = checks-Flight p r read
  Step-Flight (loads p v gen r at read) h = loads-Flight p v gen r at read h
  Step-Flight (swaps p v gen snap at) h = tt
  Step-Flight (misses p now s noted) h =
      subst (λ (t : Syncer H). Flight (record p { syncer = t }))
        (sym (note_miss-some now p.syncer s noted)) h

  -- In every reachable state of a pod, a sync in flight knows the version that it has read and whether
  -- the pod wrote to its registry since.
  pub Reachable-Flight : {p : Pod H} → Reachable on_change content registers p → Flight p
  Reachable-Flight (boots reg cfg derived version) = tt
  Reachable-Flight (steps p q r st) = Step-Flight st (Reachable-Flight r)
