-- ===== src/Query/Operators.antt =====
-- The operators of a filter: operatorMap of internal/query/builder.go, and the loop that looks for
-- the operator of a value. Go ranges over a map in any order: the order does not matter.
use Prim.Native.Char.{code}
use text.Mathlib.TextEquality.{Char-path}
use zeep_orbit.Prelude.{
  String, true, List, [], ◌∷◌, Option, none, some, In, lookup, eqb, eqb_iff, All, All-at,
  Bool-cases, Option-cases, if◌then◌else◌, ◌≡◌, ◌↔◌, refl, sym, ap, inl, inr,
}
use zeep_orbit.Prelude.Text.{after_prefix, contains_char}

abbrev pub operator_map : List (String × String)
operator_map =
    ("eq.", "=")
    ∷ ("ne.", "!=")
    ∷ ("gt.", ">")
    ∷ ("gte.", ">=")
    ∷ ("lt.", "<")
    ∷ ("lte.", "<=")
    ∷ ("like.", "LIKE")
    ∷ ("ilike.", "ILIKE")
    ∷ []

-- The SQL operator and what is left of the value: the loop over the entries, in an order.
unfoldable pub find_operator : List (String × String) → String → Option (String × String)
unfolding after_prefix
find_operator [] val = none
find_operator ((prefix, sql_op) ∷ ops) val = elim (after_prefix prefix val) [
  | some filter_val ↦ some (sql_op, filter_val)
  | none ↦ find_operator ops val
]

-- The characters before the first dot.
before_dot : String → String
before_dot String.[] = ""
before_dot (String.◌∷◌ x s) =
    let rest = before_dot s in if eqb (code x) b'.' then "" else String.◌∷◌ x rest

before_dot-after_prefix :
    (p s : String) {r : String}
    → contains_char b'.' p ≡ true
    → after_prefix p s ≡ some r
    → before_dot s ≡ before_dot p
unfolding before_dot after_prefix contains_char
before_dot-after_prefix String.[] s d h = absurd (cc)
before_dot-after_prefix (String.◌∷◌ p ps) String.[] d h = absurd (cc)
before_dot-after_prefix (String.◌∷◌ p ps) (String.◌∷◌ x s) d h =
    elim (Bool-cases (eqb (code p) (code x))) [
      | inl e ↦
          let same : p ≡ x = Char-path p x ((eqb_iff (code p) (code x)).0 e) in
          elim (Bool-cases (eqb (code p) b'.')) [
            | inl f ↦ rw (sym same, f) refl
            | inr f ↦
                let later : before_dot s ≡ before_dot ps =
                  before_dot-after_prefix ps s (rw f at d) (rw e at h) in
                rw (sym same, f, later) refl
          ]
      | inr e ↦ let wrong = rw e at h in absurd (cc)
    ]

-- The entry of the word before the dot.
entry_of : String → Option (String × String)
unfolding lookup
entry_of word = lookup word (
    ("eq", ("eq.", "="))
    ∷ ("ne", ("ne.", "!="))
    ∷ ("gt", ("gt.", ">"))
    ∷ ("gte", ("gte.", ">="))
    ∷ ("lt", ("lt.", "<"))
    ∷ ("lte", ("lte.", "<="))
    ∷ ("like", ("like.", "LIKE"))
    ∷ ("ilike", ("ilike.", "ILIKE"))
    ∷ [])

IsWord : String × String → Type 0
unfolding contains_char
IsWord e = (contains_char b'.' (e.0) ≡ true) × (entry_of (before_dot e.0) ≡ some e)

operator_map-IsWord : All IsWord operator_map
unfolding IsWord entry_of before_dot lookup contains_char
operator_map-IsWord = (
  (refl, refl),
  (
    (refl, refl),
    (
      (refl, refl),
      ((refl, refl), ((refl, refl), ((refl, refl), ((refl, refl), ((refl, refl), tt))))),
    ),
  ),
)

-- A search in any order finds an entry of the order that matches.
find_operator-entry :
    (ops : List (String × String)) (val : String) {found : String × String}
    → find_operator ops val ≡ some found
    → (prefix : String) × In (prefix, found.0) ops × (after_prefix prefix val ≡ some found.1)
unfolding find_operator
find_operator-entry [] val h = absurd (cc)
find_operator-entry ((prefix, op) ∷ ops) val {found} h =
    elim (Option-cases (after_prefix prefix val)) [
      | inl e ↦
          let (p, m, f) = find_operator-entry ops val (rw (e, find_operator) at h) in (p, inr m, f)
      | inr (r, e) ↦
          let k = rw (e, find_operator) at h in
          let same : (op, r) ≡ found = cc in
          (prefix, inl (rw (sym (ap (λ z. z.0) same)) refl), rw (sym (ap (λ z. z.1) same)) e)
    ]

find_operator-none :
    (ops : List (String × String)) (val prefix sql_op : String)
    → find_operator ops val ≡ none
    → In (prefix, sql_op) ops
    → after_prefix prefix val ≡ none
unfolding find_operator
find_operator-none [] val prefix sql_op k h = elim h [ ]
find_operator-none ((p, op) ∷ ops) val prefix sql_op k h =
    elim (Option-cases (after_prefix p val)) [
      | inl e ↦ elim h [
        | inl q ↦ rw (ap (λ z. z.0) q) e
        | inr m ↦ find_operator-none ops val prefix sql_op (rw (e, find_operator) at k) m
      ]
      | inr (r, e) ↦ let wrong = rw (e, find_operator) at k in absurd (cc)
    ]

-- The entry that matches a value is the one of the word before the value's first dot.
entry_of-match :
    (prefix sql_op val : String) {rest : String}
    → In (prefix, sql_op) operator_map
    → after_prefix prefix val ≡ some rest
    → entry_of (before_dot val) ≡ some (prefix, sql_op)
unfolding IsWord
entry_of-match prefix sql_op val m h =
    let (dot, e) = All-at IsWord operator_map (prefix, sql_op) operator_map-IsWord m in
    rw (before_dot-after_prefix prefix val dot h) e

pairs_agree : (f g : String × String) → f.0 ≡ g.0 → f.1 ≡ g.1 → some f ≡ some g
pairs_agree (a, b) (c, d) h k = rw (h, k) refl

module _ (ops : List (String × String))
    (same : (e : String × String) → In e ops ↔ In e operator_map) where
  same_find :
      (val : String) (f g : Option (String × String))
      → find_operator ops val ≡ f
      → find_operator operator_map val ≡ g
      → f ≡ g
  same_find val none none h k = refl
  same_find val none (some g) h k =
      let (p, m, e) = find_operator-entry operator_map val k in
      let nothing = find_operator-none ops val p (g.0) h ((same (p, g.0)).1 m) in absurd (cc)
  same_find val (some f) none h k =
      let (p, m, e) = find_operator-entry ops val h in
      let nothing = find_operator-none operator_map val p (f.0) k ((same (p, f.0)).0 m) in
      absurd (cc)
  same_find val (some f) (some g) h k =
      let (p, m, e) = find_operator-entry ops val h in
      let (q, n, i) = find_operator-entry operator_map val k in
      let u = entry_of-match p (f.0) val ((same (p, f.0)).0 m) e in
      let v = entry_of-match q (g.0) val n i in
      let pair : ◌≡◌ {A = String × String} (p, f.0) (q, g.0) = cc in
      let ops_same : f.0 ≡ g.0 = ap (λ z. z.1) pair in
      let moved : after_prefix q val ≡ some f.1 = rw (sym (ap (λ z. z.0) pair)) e in
      let rests : f.1 ≡ g.1 = cc in pairs_agree f g ops_same rests

  -- For any order `ops` of the entries of operatorMap, the loop over them finds the same operator and
  -- the same filter value, or as little, as the loop over operator_map's order.
  pub find_operator-order : (val : String) → find_operator ops val ≡ find_operator operator_map val
  find_operator-order val = same_find val _ _ refl refl
