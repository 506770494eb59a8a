-- ===== src/Provisioner/Policy/Operands.antt =====
-- Which clauses `translate_clause` accepts.
use zeep_orbit.Prelude.{
  String, true, false, not, ◌&&◌, ◌||◌, Option, some, List, [], ◌∷◌, map, ok, guard-eq-ok,
  bind-eq-ok, ◌==◌, ◌≡◌, ◌≢◌, ◌↔◌, ◌⊎◌, inl, inr, refl, arith, eq_iff, contains, is_empty, lookup,
  keys, lookup-of_in, in-of_lookup, In, All, contains-eq_true, contains-eq_false, contains-of_in,
  Bool-cases, Option-cases, or_true, eq_false,
}
use zeep_orbit.Prelude.Text.{concat}
use zeep_orbit.Prelude.Text.Quoting.{quote}
use zeep_orbit.Config.{ColumnConfig}
use zeep_orbit.Provisioner.Policy.{
  PolicyClause, is_ident, policy_operators, unary_operators, allowed_claims, split_value_list,
}
use zeep_orbit.Provisioner.Policy.Clause.{
  claim_expr, literal_expr, parenthesised, claim_exprs, is_list_operator, claim_operand,
  literal_operand, translate_operand, translate_checked, translate_clause,
}

abbrev pub TakesList : PolicyClause → Type 0
TakesList c = (c.operator ≡ "IN") ⊎ (c.operator ≡ "NOT IN")

abbrev pub parts : PolicyClause → List String
parts c = split_value_list c.value

-- The operand that a clause needs, by its operator and its value source.
pub data HasOperand (c : PolicyClause) : Type 0 where
  unary : In c.operator unary_operators → c.value_source ≡ "" → c.value ≡ "" → HasOperand c
  one_claim :
      ¬ In c.operator unary_operators
      → ¬ TakesList c
      → c.value_source ≡ "claim"
      → In c.value allowed_claims
      → HasOperand c
  claims :
      TakesList c
      → c.value_source ≡ "claim"
      → parts c ≢ []
      → All (λ p. In p allowed_claims) (parts c)
      → HasOperand c
  one_literal :
      ¬ In c.operator unary_operators
      → ¬ TakesList c
      → c.value_source ≡ "literal"
      → c.value ≢ ""
      → HasOperand c
  literals : TakesList c → c.value_source ≡ "literal" → parts c ≢ [] → HasOperand c

-- A clause on a known column, with a listed operator and the operand that it needs.
pub record IsValidClause (columns : String → Option ColumnConfig) (c : PolicyClause) : Type 0 where
  pub ident : is_ident c.column ≡ true
  pub column : ColumnConfig
  pub found : columns c.column ≡ some column
  pub operator : In c.operator (keys policy_operators)
  pub operand : HasOperand c

pub takes_list : (c : PolicyClause) → is_list_operator c.operator ≡ true → TakesList c
takes_list c h = ground (arith, eq_iff c.operator "IN", eq_iff c.operator "NOT IN")

pub takes_no_list : (c : PolicyClause) → is_list_operator c.operator ≡ false → ¬ TakesList c
takes_no_list c h = ground (arith, eq_iff c.operator "IN", eq_iff c.operator "NOT IN")

claim_exprs_sound :
    (ps : List String) (col : ColumnConfig) {es : List String}
    → claim_exprs ps col ≡ ok es
    → All (λ p. In p allowed_claims) ps
unfolding claim_exprs
claim_exprs_sound [] col h = tt
claim_exprs_sound (p ∷ ps) col h =
    let (c, h') = guard-eq-ok (contains p allowed_claims) _ _ h in
    let (rest, e, _) = bind-eq-ok (claim_exprs ps col) _ h' in
    (contains-eq_true p allowed_claims c, claim_exprs_sound ps col e)

claim_exprs_complete :
    (ps : List String) (col : ColumnConfig)
    → All (λ p. In p allowed_claims) ps
    → (es : List String) × (claim_exprs ps col ≡ ok es)
unfolding claim_exprs
claim_exprs_complete [] col h = ([], refl)
claim_exprs_complete (p ∷ ps) col h =
    let (es, e) = claim_exprs_complete ps col h.1 in
    (claim_expr p col ∷ es, rw (contains-of_in p allowed_claims h.0, e))

pub nonempty : (xs : List String) → not (is_empty xs) ≡ true → xs ≢ []
nonempty [] h = cc
nonempty (x ∷ xs) h = cc

pub not_empty : (xs : List String) → xs ≢ [] → not (is_empty xs) ≡ true
not_empty [] h = absurd (h refl)
not_empty (x ∷ xs) h = refl

module _ (c : PolicyClause) (col : ColumnConfig) where
  claim_operand_sound :
      ¬ In c.operator unary_operators
      → c.value_source ≡ "claim"
      → {s : String} → claim_operand c col ≡ ok s
      → HasOperand c
  unfolding claim_operand
  claim_operand_sound u v h =
      let (a, h') =
        guard-eq-ok (contains c.value allowed_claims || is_list_operator c.operator) _ _ h in
      elim (Bool-cases (is_list_operator c.operator)) [
        | inl e ↦
            let (n, k) = guard-eq-ok (not (is_empty (parts c))) _ _ (rw e at h') in
            let (es, q, _) = bind-eq-ok (claim_exprs (parts c) col) _ k in
            claims (takes_list c e) v (nonempty (parts c) n) (claim_exprs_sound (parts c) col q)
        | inr e ↦
            one_claim u (takes_no_list c e) v
              (contains-eq_true c.value allowed_claims (ground arith))
      ]

  literal_operand_sound :
      ¬ In c.operator unary_operators
      → c.value_source ≡ "literal"
      → {s : String} → literal_operand c col ≡ ok s
      → HasOperand c
  unfolding literal_operand
  literal_operand_sound u v h = elim (Bool-cases (is_list_operator c.operator)) [
    | inl e ↦
        let (n, _) = guard-eq-ok (not (is_empty (parts c))) _ _ (rw e at h) in
        literals (takes_list c e) v (nonempty (parts c) n)
    | inr e ↦
        let (n, _) = guard-eq-ok (not (c.value == "")) _ _ (rw e at h) in
        one_literal u (takes_no_list c e) v (ground (arith, eq_iff c.value ""))
  ]

  translate_checked_sound :
      (op : String) {s : String} → translate_checked c col op ≡ ok s → HasOperand c
  unfolding translate_checked translate_operand
  translate_checked_sound op h = elim (Bool-cases (contains c.operator unary_operators)) [
    | inl e ↦
        let (n, _) = guard-eq-ok (c.value_source == "" && c.value == "") _ _ (rw e at h) in
        unary (contains-eq_true c.operator unary_operators e)
          (ground (arith, eq_iff c.value_source "")) (ground (arith, eq_iff c.value ""))
    | inr e ↦
        let (s, q, _) = bind-eq-ok (translate_operand c col) _ (rw e at h) in
        let u = contains-eq_false c.operator unary_operators e in
        elim (Bool-cases (c.value_source == "claim")) [
          | inl f ↦ claim_operand_sound u ((eq_iff _ _).0 f) (rw f at q)
          | inr f ↦ elim (Bool-cases (c.value_source == "literal")) [
            | inl g ↦ literal_operand_sound u ((eq_iff _ _).0 g) (rw (f, g) at q)
            | inr g ↦ absurd (let z = rw (f, g) at q in cc)
          ]
        ]
  ]

list_operator : (c : PolicyClause) → TakesList c → is_list_operator c.operator ≡ true
list_operator c (inl e) = rw e
list_operator c (inr e) = rw e

no_list_operator : (c : PolicyClause) → ¬ TakesList c → is_list_operator c.operator ≡ false
no_list_operator c h = ground (arith, eq_iff c.operator "IN", eq_iff c.operator "NOT IN")

list_not_unary : (c : PolicyClause) → TakesList c → contains c.operator unary_operators ≡ false
list_not_unary c (inl e) = rw e
list_not_unary c (inr e) = rw e

not_unary :
    (c : PolicyClause)
    → ¬ In c.operator unary_operators
    → contains c.operator unary_operators ≡ false
not_unary c h = elim (Bool-cases (contains c.operator unary_operators)) [
  | inl e ↦ absurd (h (contains-eq_true c.operator unary_operators e))
  | inr e ↦ e
]

module _ (c : PolicyClause) (col : ColumnConfig) where
  operand_complete :
      contains c.operator unary_operators ≡ false
      → (operand : String) → translate_operand c col ≡ ok operand
      → (op : String) → (s : String) × (translate_checked c col op ≡ ok s)
  unfolding translate_checked
  operand_complete u operand e op =
      (concat (quote c.column ∷ " " ∷ op ∷ " " ∷ operand ∷ []), rw (u, e))

  is_source : (s : String) → c.value_source ≡ s → (c.value_source == s) ≡ true
  is_source s e = (eq_iff c.value_source s).1 e

  not_claim : c.value_source ≡ "literal" → (c.value_source == "claim") ≡ false
  not_claim e = ground (arith, eq_iff c.value_source "claim", eq_iff "literal" "claim")

  translate_checked_complete :
      HasOperand c → (op : String) → (s : String) × (translate_checked c col op ≡ ok s)
  unfolding translate_operand
  translate_checked_complete (unary u s v) op = (
    concat (quote c.column ∷ " " ∷ op ∷ []),
    unfold translate_checked in
        rw (contains-of_in c.operator unary_operators u, is_source "" s, (eq_iff c.value "").1 v),
  )
  translate_checked_complete (one_claim u l s v) op =
      operand_complete (not_unary c u) (claim_expr c.value col)
        (rw (is_source "claim" s, no_list_operator c l, contains-of_in c.value allowed_claims v)) op
  translate_checked_complete (claims l s n a) op =
      let (es, e) = claim_exprs_complete (parts c) col a in
      operand_complete (list_not_unary c l) (parenthesised es)
        (rw (is_source "claim" s, list_operator c l, or_true, not_empty (parts c) n, e)) op
  translate_checked_complete (one_literal u l s v) op =
      operand_complete (not_unary c u) (literal_expr c.value col)
        (rw (not_claim s, is_source "literal" s, no_list_operator c l, eq_false c.value "" v)) op
  translate_checked_complete (literals l s n) op =
      operand_complete (list_not_unary c l)
        (parenthesised (map (λ p. literal_expr p col) (parts c)))
        (rw (not_claim s, is_source "literal" s, list_operator c l, not_empty (parts c) n)) op

-- A clause is translated exactly if it is valid: its column is an identifier that the table has, its
-- operator is known, and its value is of the kind that the operator and the value source ask for.
pub translate_clause_iff :
    (columns : String → Option ColumnConfig) (c : PolicyClause)
    → ((s : String) × (translate_clause columns c ≡ ok s)) ↔ IsValidClause columns c
unfolding translate_clause
translate_clause_iff columns c = (
  λ r. sound r.0 r.1,
  λ v.
      let (op, e) = lookup-of_in c.operator policy_operators v.operator in
      let (s, q) = translate_checked_complete c v.column v.operand op in
      (s, rw (v.ident, v.found, e) q),
)
  where
    sound : (s : String) → translate_clause columns c ≡ ok s → IsValidClause columns c
    sound s h =
        let (i, h') = guard-eq-ok (is_ident c.column) _ _ h in
        elim (Option-cases (columns c.column)) [
          | inl n ↦ absurd (let z = rw n at h' in cc)
          | inr (col, f) ↦ elim (Option-cases (lookup c.operator policy_operators)) [
            | inl n ↦ absurd (let z = rw (f, n) at h' in cc)
            | inr (op, o) ↦ record {
              ident = i;
              column = col;
              found = f;
              operator = in-of_lookup c.operator policy_operators o;
              operand = translate_checked_sound c col op (rw (f, o) at h');
            }
          ]
        ]
