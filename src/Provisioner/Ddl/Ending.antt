-- ===== src/Provisioner/Ddl/Ending.antt =====
-- What holds of the state and the value of code that succeeds.
use zeep_orbit.Prelude.{◌≡◌, refl, subst, Result, ok, err}
use zeep_orbit.Provisioner.Ddl.{
  Ddl, DdlError, DbError, proceed, settle, Rows, rows, query_failed, scan_failed, iterate_failed,
  read_all,
}

abbrev pub Ending : {S A : Type 0} → (S → A → Type 0) → S × Result DdlError A → Type 0
Ending P (s, ok a) = P s a
Ending P (s, err e) = Unit

pub Ending-map :
    {S A : Type 0} (P Q : S → A → Type 0) (r : S × Result DdlError A)
    → ((s : S) (a : A) → P s a → Q s a)
    → Ending P r
    → Ending Q r
Ending-map P Q (s, ok a) f p = f s a p
Ending-map P Q (s, err e) f p = tt

pub proceed-Ending :
    {S A B : Type 0} (P : S → A → Type 0) (Q : S → B → Type 0) (r : S × Result DdlError A)
    (f : A → Ddl S B)
    → Ending P r
    → ((s : S) (a : A) → P s a → Ending Q (f a s))
    → Ending Q (proceed f r)
proceed-Ending P Q (s, ok a) f p h = h s a p
proceed-Ending P Q (s, err e) f p h = tt

pub Ending-step :
    {S A B : Type 0} (Q : S → B → Type 0) (r : S × Result DdlError A) (f : A → Ddl S B)
    → ((s : S) (a : A) → r ≡ (s, ok a) → Ending Q (f a s))
    → Ending Q (proceed f r)
Ending-step Q (s, ok a) f h = h s a refl
Ending-step Q (s, err e) f h = tt

pub Ending-at_ok :
    {S A : Type 0} (P : S → A → Type 0) (r : S × Result DdlError A) {s : S} {a : A}
    → Ending P r
    → r ≡ (s, ok a)
    → P s a
Ending-at_ok P (t, ok b) p e = subst (Ending P) e p
Ending-at_ok P (t, err b) p e = absurd (cc)

pub settle-Ending :
    {S : Type 0} (P : S → Unit {0} → Type 0) (failed : DbError → DdlError) (s : S)
    (r : Result DbError S)
    → ((s' : S) → r ≡ ok s' → P s' tt)
    → Ending P (settle failed s r)
settle-Ending P failed s (ok s') h = h s' refl
settle-Ending P failed s (err e) h = tt

-- A query keeps the state.
pub read_all-Ending :
    {S A : Type 0} (on_query on_scan on_iterate : DbError → DdlError) (s : S) (r : Rows A)
    → Ending
        (λ s' found. (s' ≡ s) × (read_all on_query on_scan on_iterate s r ≡ (s, ok found)))
        (read_all on_query on_scan on_iterate s r)
read_all-Ending on_query on_scan on_iterate s (rows found) = (refl, refl)
read_all-Ending on_query on_scan on_iterate s (query_failed e) = tt
read_all-Ending on_query on_scan on_iterate s (scan_failed e) = tt
read_all-Ending on_query on_scan on_iterate s (iterate_failed e) = tt
