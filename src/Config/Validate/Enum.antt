-- ===== src/Config/Validate/Enum.antt =====
-- Which value sets ValidateEnumValues of internal/config/validate.go accepts.
use zeep_orbit.Prelude.{
  ℕ, suc, ◌≤◌, String, Bool, true, not, leb, List, [], ◌∷◌, length, In, All, Distinct, Result, ok,
  ◌>>◌, guard, guard-eq-ok, contains, contains-eq_true, contains-of_in, Bool-cases, String-cases,
  ◌==◌, ◌≡◌, ◌↔◌, inl, inr, refl, subst, arith, ◌∙◌,
}
use zeep_orbit.Config.Validate.{
  rune_count, check_values, validate_enum_values, EnumError, empty_value, too_long_value,
  duplicate_value, too_many_values, max_enum_value_len,
}

-- One to 100 characters.
abbrev pub HasFairLength : String → Type 0
HasFairLength v = (1 ≤ rune_count v) × (rune_count v ≤ 100)

-- Distinct values that are none of those seen.
abbrev pub IsFresh : List String → List String → Type 0
IsFresh seen [] = Unit
IsFresh seen (v ∷ vs) = ¬ In v seen × IsFresh (v ∷ seen) vs

rune_count-pos : (v : String) → not (v == "") ≡ true → 1 ≤ rune_count v
unfolding rune_count
rune_count-pos String.[] h = absurd (cc)
rune_count-pos (String.◌∷◌ x v) h = omega arith

not_blank-of_pos : (v : String) → 1 ≤ rune_count v → not (v == "") ≡ true
unfolding rune_count
not_blank-of_pos v h = elim (String-cases v "") [
  | inl (e, p) ↦
      (let w : 1 ≤ rune_count "" = subst (λ z. 1 ≤ rune_count z) p h in absurd (omega (arith, w)))
  | inr (e, p) ↦ rw e refl
]

not-in : (v : String) (seen : List String) → not (contains v seen) ≡ true → ¬ In v seen
not-in v seen h m = let w = contains-of_in v seen m in (let k = rw w at h in cc)

not-contains : (v : String) (seen : List String) → ¬ In v seen → not (contains v seen) ≡ true
not-contains v seen h = elim (Bool-cases (contains v seen)) [
  | inl e ↦ absurd (h (contains-eq_true v seen e))
  | inr e ↦ rw e refl
]

three_pass :
    (a b c : Bool) (e f g : EnumError) (k : Result EnumError (Unit {0}))
    → a ≡ true
    → b ≡ true
    → c ≡ true
    → (guard a e >> (guard b f >> (guard c g >> k))) ≡ k
three_pass a b c e f g k h i j = rw (h, i, j) refl

one_passes :
    (a : Bool) (e : EnumError) (k : Result EnumError (Unit {0})) → a ≡ true → (guard a e >> k) ≡ k
one_passes a e k h = rw h refl

check_values_iff :
    (i : ℕ) (seen vs : List String)
    → (check_values i seen vs ≡ ok tt) ↔ (All HasFairLength vs × IsFresh seen vs)
unfolding check_values
check_values_iff i seen [] = ((λ h. (tt, tt)), λ h. refl)
check_values_iff i seen (v ∷ vs) =
    let rest = check_values (suc i) (v ∷ seen) vs in
    let later = check_values_iff (suc i) (v ∷ seen) vs in
    let long = too_long_value i (rune_count v) in
    (
      (λ h.
          let (a, h1) = guard-eq-ok (not (v == "")) (empty_value i) _ h in
          let (b, h2) = guard-eq-ok (leb (rune_count v) max_enum_value_len) long _ h1 in
          let (c, h3) = guard-eq-ok (not (contains v seen)) (duplicate_value v) rest h2 in
          let (fair, fresh) = later.0 h3 in
          let short : rune_count v ≤ 100 = ground arith in
          (((rune_count-pos v a, short), fair), (not-in v seen c, fresh))),
      λ h.
          let ((low, high), fair) = h.0 in
          let short : leb (rune_count v) max_enum_value_len ≡ true = ground arith in
          three_pass (not (v == "")) (leb (rune_count v) max_enum_value_len) (not (contains v seen))
            (empty_value i) long (duplicate_value v) rest (not_blank-of_pos v low) short
            (not-contains v seen (h.1.0))
          ∙ later.1 (fair, h.1.1),
    )

-- Fresh values are distinct ones that were not seen.
IsFresh-iff :
    (seen vs : List String)
    → IsFresh seen vs ↔ (Distinct vs × ((v : String) → In v vs → ¬ In v seen))
IsFresh-iff seen [] = ((λ h. (tt, λ v m. elim m [ ])), λ h. tt)
IsFresh-iff seen (x ∷ vs) =
    let later = IsFresh-iff (x ∷ seen) vs in
    (
      (λ h.
          let (d, away) = later.0 h.1 in
          (
            ((λ m. away x m (inl refl)), d),
            λ v m. elim m [
              | inl p ↦ λ i. h.0 (subst (λ z. In z seen) p i)
              | inr m ↦ λ i. away v m (inr i)
            ],
          )),
      λ h. (
        h.1 x (inl refl),
        later.1 (
          h.0.1,
          λ v m i. elim i [ inl p ↦ h.0.0 (subst (λ z. In z vs) p m) | inr j ↦ h.1 v (inr m) j ],
        ),
      ),
    )

-- A value set is accepted exactly if it has 1 to 50 values, each of 1 to 100 characters, and no value
-- twice.
pub validate_enum_values_iff :
    (values : List String)
    → (validate_enum_values values ≡ ok tt)
      ↔ ((1 ≤ length values) × (length values ≤ 50) × All HasFairLength values × Distinct values)
unfolding validate_enum_values
validate_enum_values_iff [] = ((λ h. absurd (cc)), λ h. absurd (omega (arith, h.0)))
validate_enum_values_iff (v ∷ vs) =
    let count = length (v ∷ vs) in
    (
      (λ h.
          let (a, h1) = guard-eq-ok (leb count 50) (too_many_values count) _ h in
          let (fair, fresh) = (check_values_iff 0 [] (v ∷ vs)).0 h1 in
          let few : count ≤ 50 = ground arith in
          (omega arith, few, fair, ((IsFresh-iff [] (v ∷ vs)).0 fresh).0)),
      λ h.
          let (low, few, fair, distinct) = h in
          let short : leb count 50 ≡ true = ground arith in
          let fresh = (IsFresh-iff [] (v ∷ vs)).1 (distinct, λ w m i. elim i [ ]) in
          one_passes (leb count 50) (too_many_values count) (check_values 0 [] (v ∷ vs)) short
          ∙ (check_values_iff 0 [] (v ∷ vs)).1 (fair, fresh),
    )
