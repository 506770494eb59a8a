-- ===== src/Provisioner/Constraints/Applied.antt =====
-- What ApplyColumnConstraintChanges does to a table: all of the changes or none.
use zeep_orbit.Prelude.{
  ℕ, zero, suc, String, Bool, true, false, Option, none, some, List, [], ◌∷◌, ◌++◌, Result, ok, err,
  ◌≡◌, refl, if◌then◌else◌, ◌&&◌,
}
use zeep_orbit.Provisioner.Ddl.{
  Server, Ddl, DdlError, DbError, ColumnConstraintReason, read_as, give, ◌>>=◌, proceed, committed,
  finish,
}
use zeep_orbit.Provisioner.Ddl.Ending.{Ending, Ending-map, proceed-Ending}
use zeep_orbit.Provisioner.Constraints.Diff.{
  ColumnConstraintChange, differs, required_changed, unique_changed, default_changed,
}
use zeep_orbit.Provisioner.Constraints.{
  reject_some, count_nulls_sql, check_nulls, count_duplicates_sql, check_duplicates,
  check_column_constraint_change, apply_required, apply_default, apply_unique, apply_changes,
  apply_column_constraint_changes,
}
use zeep_orbit.Provisioner.Constraints.Altered.{
  nullability, HaveRun, HasNoNulls, HasNoDuplicates, IsUniqueSet, IsDefaultSet, AreAltered,
}
use zeep_orbit.Provisioner.Constraints.Steps.{
  apply_required-HaveRun, apply_default-IsDefaultSet, apply_unique-IsUniqueSet,
}

counted-Ending :
    {S : Type 0} (failed : DbError → DdlError) (column : String) (reason : ColumnConstraintReason)
    (s : S) (r : Result DbError ℕ)
    → Ending
        (λ s' (done : Unit {0}). (s' ≡ s) × (r ≡ ok 0))
        (proceed (reject_some column reason) (read_as failed s r))
counted-Ending failed column reason s (ok zero) = (refl, refl)
counted-Ending failed column reason s (ok (suc n)) = tt
counted-Ending failed column reason s (err e) = tt

module _ (server : Server) (schema_name table_name : String) where
  open server use {State, begin, commit, exec, read_count}

  check_nulls-HasNoNulls :
      (old new : Bool) (col : String) (s : State)
      → Ending
          (λ s' (done : Unit {0}).
            (s' ≡ s) × HasNoNulls server schema_name table_name old new col s)
          ((if differs old new && new
              then check_nulls server schema_name table_name col
              else give tt)
            s)
  unfolding check_nulls
  check_nulls-HasNoNulls false true col s =
      counted-Ending _ _ _ s (read_count (count_nulls_sql server schema_name table_name col) s)
  check_nulls-HasNoNulls false false col s = (refl, tt)
  check_nulls-HasNoNulls true true col s = (refl, tt)
  check_nulls-HasNoNulls true false col s = (refl, tt)

  check_duplicates-HasNoDuplicates :
      (old new : Bool) (col : String) (s : State)
      → Ending
          (λ s' (done : Unit {0}).
            (s' ≡ s) × HasNoDuplicates server schema_name table_name old new col s)
          ((if differs old new && new
              then check_duplicates server schema_name table_name col
              else give tt)
            s)
  unfolding check_duplicates
  check_duplicates-HasNoDuplicates false true col s =
      counted-Ending _ _ _ s (read_count (count_duplicates_sql server schema_name table_name col) s)
  check_duplicates-HasNoDuplicates false false col s = (refl, tt)
  check_duplicates-HasNoDuplicates true true col s = (refl, tt)
  check_duplicates-HasNoDuplicates true false col s = (refl, tt)

  -- The checks of a change only read.
  abbrev IsFree : ColumnConstraintChange → State → Type 0
  IsFree ch s =
      HasNoNulls server schema_name table_name ch.old.required ch.new.required ch.new.name s
      × HasNoDuplicates server schema_name table_name ch.old.unique ch.new.unique ch.new.name s

  check_column_constraint_change-IsFree :
      (ch : ColumnConstraintChange) (s : State)
      → Ending
          (λ s' (done : Unit {0}). (s' ≡ s) × IsFree ch s)
          (check_column_constraint_change server schema_name table_name ch s)
  unfolding check_column_constraint_change required_changed unique_changed
  check_column_constraint_change-IsFree ch s =
      let col = ch.new.name in
      let nulls : Ddl State (Unit {0}) =
        if differs ch.old.required ch.new.required && ch.new.required
        then check_nulls server schema_name table_name col
        else give tt in
      let duplicates : Ddl State (Unit {0}) =
        if differs ch.old.unique ch.new.unique && ch.new.unique
        then check_duplicates server schema_name table_name col
        else give tt in
      let NoNulls : State → Unit {0} → Type 0 = λ s' done.
        (s' ≡ s) × HasNoNulls server schema_name table_name ch.old.required ch.new.required col s in
      let NoDuplicates : State → Unit {0} → Type 0 = λ s' done.
        (s' ≡ s)
        × HasNoDuplicates server schema_name table_name ch.old.unique ch.new.unique col s in
      let Free : State → Unit {0} → Type 0 = λ s' done. (s' ≡ s) × IsFree ch s in
      proceed-Ending NoNulls Free (nulls s) (λ done. duplicates)
        (check_nulls-HasNoNulls ch.old.required ch.new.required col s)
        (λ s1 done p. rw p.0 (
          Ending-map NoDuplicates Free (duplicates s) (λ s2 also q. (q.0, (p.1, q.1)))
            (check_duplicates-HasNoDuplicates ch.old.unique ch.new.unique col s)))

  apply_changes-AreAltered :
      (changes : List ColumnConstraintChange) (s : State)
      → Ending
          (λ s' (applied : List String). AreAltered server schema_name table_name changes s s')
          (apply_changes server schema_name table_name changes s)
  unfolding apply_changes
  apply_changes-AreAltered [] s = refl
  apply_changes-AreAltered (ch ∷ changes) s =
      let All : State → List String → Type 0 =
        λ s' applied. AreAltered server schema_name table_name (ch ∷ changes) s s' in
      let rest = apply_changes server schema_name table_name changes in
      let report : List String → List String → List String → List String → Ddl State (List String) =
        λ required default unique applied. give (required ++ (default ++ (unique ++ applied))) in
      let after_unique : List String → List String → List String → Ddl State (List String) =
        λ required default unique. rest >>= report required default unique in
      let after_default : List String → List String → Ddl State (List String) = λ required default.
        apply_unique server schema_name table_name ch >>= after_unique required default in
      let after_required : List String → Ddl State (List String) =
        λ required. apply_default server schema_name table_name ch >>= after_default required in
      proceed-Ending (λ s' done. (s' ≡ s) × IsFree ch s) All
        (check_column_constraint_change server schema_name table_name ch s)
        (λ done. apply_required server schema_name table_name ch >>= after_required)
        (check_column_constraint_change-IsFree ch s)
        (λ s0 done free. rw free.0 (
          proceed-Ending
            (λ s' applied.
              HaveRun server schema_name table_name ch.new.name
                (nullability ch.old.required ch.new.required) s s')
            All (apply_required server schema_name table_name ch s) after_required
            (apply_required-HaveRun server schema_name table_name ch s)
            (λ s1 required ran.
              proceed-Ending
                (λ s' applied.
                  IsDefaultSet server schema_name table_name (default_changed ch) ch.new s1 s')
                All (apply_default server schema_name table_name ch s1) (after_default required)
                (apply_default-IsDefaultSet server schema_name table_name ch s1)
                (λ s2 default set.
                  proceed-Ending
                    (λ s' applied.
                      IsUniqueSet server schema_name table_name ch.old.unique ch.new.unique
                        ch.new.name s2 s')
                    All (apply_unique server schema_name table_name ch s2)
                    (after_unique required default)
                    (apply_unique-IsUniqueSet server schema_name table_name ch s2)
                    (λ s3 unique looked_up.
                      proceed-Ending
                        (λ s' applied. AreAltered server schema_name table_name changes s3 s') All
                        (rest s3) (report required default unique)
                        (apply_changes-AreAltered changes s3)
                        (λ s4 applied others.
                          (s3, (s1, s2, free.1.0, free.1.1, ran, set, looked_up), others)))))))

  -- The outcome of the call: on an error the state is that of the call.
  abbrev pub IsAllOrNone :
      List ColumnConstraintChange → State → State × Result DdlError (List String) → Type 0
  IsAllOrNone changes s (s', err e) = s' ≡ s
  IsAllOrNone [] s (s', ok applied) = s' ≡ s
  IsAllOrNone (ch ∷ changes) s (s', ok applied) =
      (done : State) × (begin s ≡ none)
      × AreAltered server schema_name table_name (ch ∷ changes) s done
      × (commit done ≡ ok s')

  committed-IsAllOrNone :
      (ch : ColumnConstraintChange) (changes : List ColumnConstraintChange) (s done : State)
      (failed : DbError → DdlError) (applied : List String) (r : Result DbError State)
      → begin s ≡ none
      → AreAltered server schema_name table_name (ch ∷ changes) s done
      → commit done ≡ r
      → IsAllOrNone (ch ∷ changes) s (committed server failed s applied r)
  committed-IsAllOrNone ch changes s done failed applied (ok s') b a e = (done, b, a, e)
  committed-IsAllOrNone ch changes s done failed applied (err x) b a e = refl

  finish-IsAllOrNone :
      (ch : ColumnConstraintChange) (changes : List ColumnConstraintChange) (s : State)
      (failed : DbError → DdlError) (r : State × Result DdlError (List String))
      → begin s ≡ none
      → Ending (λ s' applied. AreAltered server schema_name table_name (ch ∷ changes) s s') r
      → IsAllOrNone (ch ∷ changes) s (finish server failed s r)
  finish-IsAllOrNone ch changes s failed (done, err e) b a = refl
  finish-IsAllOrNone ch changes s failed (done, ok applied) b a =
      committed-IsAllOrNone ch changes s done failed applied (commit done) b a refl

  begun-IsAllOrNone :
      (ch : ColumnConstraintChange) (changes : List ColumnConstraintChange) (s : State)
      (on_begin on_commit : DbError → DdlError) (r : State × Result DdlError (List String))
      (failure : Option DbError)
      → begin s ≡ failure
      → Ending (λ s' applied. AreAltered server schema_name table_name (ch ∷ changes) s s') r
      → IsAllOrNone
          (ch ∷ changes)
          s
          (elim failure [ some e ↦ (s, err (on_begin e)) | none ↦ finish server on_commit s r ])
  begun-IsAllOrNone ch changes s on_begin on_commit r (some e) b a = refl
  begun-IsAllOrNone ch changes s on_begin on_commit r none b a =
      finish-IsAllOrNone ch changes s on_commit r b a

  -- ApplyColumnConstraintChanges makes all of the changes or none, whatever fails. If it returns an
  -- error, the state is that of the call. If it succeeds, the state is the commit of a transaction in
  -- which the changes were made one after another. Each was made in a state whose count of nulls was
  -- zero where the column becomes required, and whose count of duplicates was zero where it becomes
  -- unique. What ran for it is NOT NULL set or dropped if that differs, the default set or dropped if
  -- that differs, UNIQUE added if it is new and the column has no such constraint, and each of the
  -- column's own constraints dropped if it is to have none, and nothing else.
  pub apply_column_constraint_changes-IsAllOrNone :
      (changes : List ColumnConstraintChange) (s : State)
      → IsAllOrNone changes s
          (apply_column_constraint_changes server schema_name table_name changes s)
  unfolding apply_column_constraint_changes
  apply_column_constraint_changes-IsAllOrNone [] s = refl
  apply_column_constraint_changes-IsAllOrNone (ch ∷ changes) s =
      begun-IsAllOrNone ch changes s _ _
        (apply_changes server schema_name table_name (ch ∷ changes) s) (begin s) refl
        (apply_changes-AreAltered (ch ∷ changes) s)
