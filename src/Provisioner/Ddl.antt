-- ===== src/Provisioner/Ddl.antt =====
-- How the provisioner runs its statements: the errors of internal/provisioner/errors.go and the lock of
-- internal/provisioner/ddl_lock.go. Postgres and pgx are a parameter, on which a statement that fails
-- changes nothing.
pub mod Lock
pub mod Ending
use zeep_orbit.Prelude.{
  ◌≡◌, refl, String, Bool, ℕ, Option, none, some, List, [], ◌∷◌, Result, ok, err, ◌==◌, ◌||◌,
  if◌then◌else◌, true, false,
}
use zeep_orbit.Prelude.Text.{concat}
use zeep_orbit.Prelude.Text.Quoting.{quote}
use zeep_orbit.Provisioner.Topsort.{SortError}

-- `pgx.ErrNoRows`, a `*pgconn.PgError` with its code and detail, or another error.
pub data DbError : Type 0 where
  no_rows : DbError
  pg_error : String → String → DbError
  other_error : String → DbError

-- A query whose rows are read: an error of `Query`, of `rows.Scan` or of `rows.Err()`.
pub data Rows (A : Type 0) : Type 0 where
  rows : List A → Rows A
  query_failed : DbError → Rows A
  scan_failed : DbError → Rows A
  iterate_failed : DbError → Rows A

-- Queries with the `Scan` of their rows, and statements. A statement's arguments are texts.
pub record Server : Type 1 where
  pub State : Type 0
  pub begin : State → Option DbError
  pub commit : State → Result DbError State
  pub exec : String → List String → State → Result DbError State
  pub read_flag : String → List String → State → Result DbError Bool
  pub read_count : String → State → Result DbError ℕ
  pub read_name : String → List String → State → Result DbError String
  pub read_pair : String → List String → State → Result DbError (String × String)
  pub read_names : String → List String → State → Rows String
  pub read_pairs : String → List String → State → Rows (String × String)
  pub read_presence : String → List String → State → Result DbError (ℕ × Bool)
  pub read_counts : String → List String → State → Rows (String × ℕ)

pub data Reason : Type 0 where
  no_conversions_defined unsafe_narrowing runtime_failure : Reason

pub data ColumnConstraintReason : Type 0 where
  null_values duplicate_values invalid_default required_without_default unique_referenced :
      ColumnConstraintReason

-- `Cause error`, nil as `none`.
pub record TypeChangeError : Type 0 where
  pub column : String
  pub current_type : String
  pub desired_type : String
  pub reason : Reason
  pub cause : Option DbError

pub record ForeignKeyViolationError : Type 0 where
  pub column : String
  pub detail : String
  pub cause : DbError

pub record EnumValueInUseError : Type 0 where
  pub column : String
  pub counts : List (String × ℕ)

pub record ColumnConstraintError : Type 0 where
  pub column : String
  pub reason : ColumnConstraintReason
  pub count : ℕ
  pub cause : Option DbError

-- `wrapped` and `within` are `fmt.Errorf` with a message and `%w`, `refused` is one without a cause.
pub data DdlError : Type 0 where
  wrapped : String → DbError → DdlError
  within : String → DdlError → DdlError
  unsorted : SortError → DdlError
  plain : DbError → DdlError
  refused : String → DdlError
  type_change : TypeChangeError → DdlError
  foreign_key_violation : ForeignKeyViolationError → DdlError
  enum_value_in_use : EnumValueInUseError → DdlError
  column_constraint : ColumnConstraintError → DdlError
  ddl_lock_timeout : String → DdlError → DdlError

-- Code that runs statements: it keeps the state that it had reached when it returns an error.
abbrev pub Ddl : Type 0 → Type 0 → Type 0
Ddl S A = S → S × Result DdlError A

abbrev pub proceed :
    {S A B : Type 0} → (A → Ddl S B) → S × Result DdlError A → S × Result DdlError B
proceed f (s, ok a) = f a s
proceed f (s, err e) = (s, err e)

infixl 5 ◌>>=◌ ◌>>◌
abbrev pub ◌>>=◌ : {S A B : Type 0} → Ddl S A → (A → Ddl S B) → Ddl S B
◌>>=◌ m f s = proceed f (m s)

abbrev pub ◌>>◌ : {S B : Type 0} → Ddl S (Unit {0}) → Ddl S B → Ddl S B
◌>>◌ m k s = proceed (λ _. k) (m s)

-- What holds if the code succeeds.
abbrev pub Implied : {S A : Type 0} → Type 0 → S × Result DdlError A → Type 0
Implied P (s, ok a) = P
Implied P (s, err e) = Unit

pub Implied-of_proof : {S A : Type 0} (P : Type 0) (r : S × Result DdlError A) → P → Implied P r
Implied-of_proof P (s, ok a) p = p
Implied-of_proof P (s, err e) p = tt

pub Implied-at_ok :
    {S A : Type 0} (P : Type 0) (r : S × Result DdlError A) {s : S} {a : A}
    → Implied P r
    → r ≡ (s, ok a)
    → P
Implied-at_ok P (s, ok a) p q = p
Implied-at_ok P (s, err e) p q = absurd (cc)

pub Implied-map :
    {S A : Type 0} (P Q : Type 0) (r : S × Result DdlError A) → (P → Q) → Implied P r → Implied Q r
Implied-map P Q (s, ok a) f p = f p
Implied-map P Q (s, err e) f p = tt

pub proceed-of_first :
    {S A B : Type 0} (P : Type 0) (r : S × Result DdlError A) (f : A → Ddl S B)
    → Implied P r
    → Implied P (proceed f r)
proceed-of_first P (s, ok a) f p = Implied-of_proof P (f a s) p
proceed-of_first P (s, err e) f p = tt

Implied-and :
    {S A : Type 0} (P Q : Type 0) (r : S × Result DdlError A) → P → Implied Q r → Implied (P × Q) r
Implied-and P Q (s, ok a) p q = (p, q)
Implied-and P Q (s, err e) p q = tt

pub Implied-both :
    {S A B : Type 0} (P Q : Type 0) (r : S × Result DdlError A) (f : A → Ddl S B)
    → Implied P r
    → ((s : S) (a : A) → Implied Q (f a s))
    → Implied (P × Q) (proceed f r)
Implied-both P Q (s, ok a) f p h = Implied-and P Q (f a s) p (h s a)
Implied-both P Q (s, err e) f p h = tt

abbrev pub give : {S A : Type 0} → A → Ddl S A
give a s = (s, ok a)

abbrev pub fail : {S A : Type 0} → DdlError → Ddl S A
fail e s = (s, err e)

-- `%q.%q`
unfoldable pub qualified : String → String → String
unfolding quote
qualified schema_name name = concat (quote schema_name ∷ "." ∷ quote name ∷ [])

-- `%q.%q.%q`
unfoldable pub qualified_column : String → String → String → String
unfolding quote
qualified_column schema_name table_name column =
    concat (quote schema_name ∷ "." ∷ quote table_name ∷ "." ∷ quote column ∷ [])

-- `%s.%s.%s`
unfoldable pub dotted : String → String → String → String
dotted schema_name table_name name = concat (schema_name ∷ "." ∷ table_name ∷ "." ∷ name ∷ [])

-- A statement, with the error that the caller makes of a failure.
abbrev pub settle :
    {S : Type 0} → (DbError → DdlError) → S → Result DbError S → S × Result DdlError (Unit {0})
settle failed s (ok s') = (s', ok tt)
settle failed s (err e) = (s, err (failed e))

abbrev pub read_as :
    {S A : Type 0} → (DbError → DdlError) → S → Result DbError A → S × Result DdlError A
read_as failed s (ok a) = (s, ok a)
read_as failed s (err e) = (s, err (failed e))

-- The messages of the three failures of a loop over rows.
abbrev pub read_all :
    {S A : Type 0}
    → (DbError → DdlError)
    → (DbError → DdlError)
    → (DbError → DdlError)
    → S
    → Rows A
    → S × Result DdlError (List A)
read_all on_query on_scan on_iterate s (rows found) = (s, ok found)
read_all on_query on_scan on_iterate s (query_failed e) = (s, err (on_query e))
read_all on_query on_scan on_iterate s (scan_failed e) = (s, err (on_scan e))
read_all on_query on_scan on_iterate s (iterate_failed e) = (s, err (on_iterate e))

module _ (server : Server) where
  open server use {State, begin, commit, exec}

  abbrev pub execute : (DbError → DdlError) → String → List String → Ddl State (Unit {0})
  execute failed sql args s = settle failed s (exec sql args s)

  abbrev pub committed :
      {A : Type 0}
      → (DbError → DdlError)
      → State
      → A
      → Result DbError State
      → State × Result DdlError A
  committed failed s a (ok done) = (done, ok a)
  committed failed s a (err e) = (s, err (failed e))

  -- `defer tx.Rollback(ctx)`: what `fn` did is thrown away unless the commit works.
  abbrev pub finish :
      {A : Type 0}
      → (DbError → DdlError)
      → State
      → State × Result DdlError A
      → State × Result DdlError A
  finish failed s (s', err e) = (s, err e)
  finish failed s (s', ok a) = committed failed s a (commit s')

  abbrev pub in_transaction :
      {A : Type 0} → (DbError → DdlError) → (DbError → DdlError) → Ddl State A → Ddl State A
  in_transaction on_begin on_commit fn s = elim (begin s) [
    | some e ↦ (s, err (on_begin e))
    | none ↦ finish on_commit s (fn s)
  ]
