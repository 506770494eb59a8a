-- ===== src/Registry/Syncer/Pods/Fresh.antt =====
-- The invariant of a pod's registry, where its handlers register a change before another change of
-- the same app is committed.
use zeep_orbit.Prelude.Int.{ℤ, pos}
use zeep_orbit.Prelude.{
  ℕ, String, true, false, List, Result, ok, err, ◌≡◌, inl, inr, sym, subst, ◌∙◌, arith, eqb,
  Bool-cases,
}
use zeep_orbit.Registry.{Snapshot, replace_if_generation}
use zeep_orbit.Registry.Syncer.{Syncer, new_syncer, check_version, eqb_ℤ, mark_unknown, load, swap}
use zeep_orbit.Registry.Syncer.Pods.{
  idle, swapping, Pod, Write, write, IsCommitted, phase_of, loaded_phase, Step, commits, writes,
  checks, loads, swaps, misses, Reachable, boots, steps, IsFlight, IsFresh,
}
use zeep_orbit.Registry.Syncer.Pods.Current.{
  write-Agrees, taken-Agrees, note_miss-some, Flight, Reachable-Flight,
}

module _ {H : Type 0} (on_change : List (H → H)) (content : ℕ → Snapshot)
    (registers : ℕ → Write → Type 0)
    (prompt : (v : ℕ) (x : Write) → registers v x → IsCommitted x (content v)) where
  writes-IsFresh :
      (p : Pod H) (x : Write)
      → registers p.version x
      → IsFresh content p
      → IsFresh content
          (record p { syncer = record p.syncer { reg = write x p.syncer.reg }; written = true })
  writes-IsFresh p x allowed h v known =
      let (le, parts) = h v known in
      (
        le,
        λ e part.
            write-Agrees x p.syncer.reg (content p.version) part (prompt p.version x allowed)
              (parts e part),
      )

  checks-IsFresh :
      (p : Pod H) (r : Result String ℤ)
      → IsFresh content p
      → IsFresh content (record p {
        syncer = (check_version r p.syncer).0;
        phase = phase_of (check_version r p.syncer).1;
        written = false;
      })
  unfolding check_version mark_unknown
  checks-IsFresh p (err e) h = λ v known. absurd (cc)
  checks-IsFresh p (ok w) h = elim (Bool-cases (eqb_ℤ w p.syncer.last_version)) [
    | inl e ↦ rw e h
    | inr e ↦ rw e h
  ]

  loads-IsFresh :
      (p : Pod H) (v : ℤ) (gen : ℕ) (r : Result String Snapshot)
      → IsFresh content p
      → IsFresh content (record p {
        syncer = (load r p.syncer).0;
        phase = loaded_phase v gen (load r p.syncer).1;
      })
  unfolding load mark_unknown
  loads-IsFresh p v gen (err e) h = λ v' known. absurd (cc)
  loads-IsFresh p v gen (ok snap) h = h

  swaps-IsFresh :
      (p : Pod H) (v : ℤ) (gen : ℕ) (snap : Snapshot)
      → p.phase ≡ swapping v gen snap
      → Flight on_change content registers p
      → IsFresh content (record p { syncer = swap on_change v gen snap p.syncer; phase = idle })
  unfolding swap replace_if_generation mark_unknown
  swaps-IsFresh p v gen snap at h =
      let (u, held, seen) = subst (IsFlight content p.version p.syncer.reg p.written) at h in
      elim (Bool-cases (eqb p.syncer.reg.gen gen)) [
        | inl e ↦ rw e (λ v' known.
            let same_version : ◌≡◌ {A = ℤ} (pos u) (pos v') = sym seen.read_version ∙ known in
            let same_number : u ≡ v' = cc in
            let le = seen.read_le in
            (
              omega arith,
              λ now part.
                  taken-Agrees part p.syncer.reg snap (content p.version)
                    (held (same_number ∙ now)),
            ))
        | inr e ↦ rw e (λ v' known. absurd (cc))
      ]

  Step-IsFresh :
      {p q : Pod H}
      → Step on_change content registers p q
      → Flight on_change content registers p
      → IsFresh content p
      → IsFresh content q
  Step-IsFresh (commits p) f h =
      λ v known. let (le, parts) = h v known in (omega arith, λ e. absurd (omega arith))
  Step-IsFresh (writes p x allowed room) f h = writes-IsFresh p x allowed h
  Step-IsFresh (checks p r at read) f h = checks-IsFresh p r h
  Step-IsFresh (loads p v gen r at read) f h = loads-IsFresh p v gen r h
  Step-IsFresh (swaps p v gen snap at) f h = swaps-IsFresh p v gen snap at f
  Step-IsFresh (misses p now s noted) f h =
      subst (λ (t : Syncer H). IsFresh content (record p { syncer = t }))
        (sym (note_miss-some now p.syncer s noted)) h

  -- In every reachable state of a pod whose handlers register promptly, the version that the syncer
  -- keeps is not ahead of the database's, and where they are the same the registry is what the
  -- database holds.
  pub Reachable-IsFresh : {p : Pod H} → Reachable on_change content registers p → IsFresh content p
  unfolding new_syncer
  Reachable-IsFresh (boots reg cfg derived version) = λ v known. absurd (cc)
  Reachable-IsFresh (steps p q r st) =
      Step-IsFresh st (Reachable-Flight on_change content registers r) (Reachable-IsFresh r)
