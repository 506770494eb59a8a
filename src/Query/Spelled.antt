-- ===== src/Query/Spelled.antt =====
-- Parts of a statement, spelled out.
use zeep_orbit.Prelude.{ℕ, String, List, [], ◌∷◌, ◌≡◌, refl}
use zeep_orbit.Prelude.Text.{concat, join}
use zeep_orbit.Prelude.Text.Numbers.{itoa}
use zeep_orbit.Query.{pg_cast}
use zeep_orbit.Query.Select.{where_text}
use zeep_orbit.Query.Insert.{guards_text}

-- `$n` with the cast of a type.
abbrev pub place : ℕ → String → String
place n type = concat ("$" ∷ itoa n ∷ pg_cast type ∷ [])

-- All of the conditions, if there are any.
abbrev pub where_all : List String → String
where_all [] = ""
where_all (c ∷ cs) = concat (" WHERE " ∷ join " AND " (c ∷ cs) ∷ [])

pub where_text-eq : (cs : List String) → where_text cs ≡ where_all cs
unfolding where_text
where_text-eq [] = refl
where_text-eq (c ∷ cs) = refl

pub guards_text-eq : (cs : List String) → guards_text cs ≡ where_all cs
unfolding guards_text
guards_text-eq [] = refl
guards_text-eq (c ∷ cs) = refl
