-- ===== src/Query/Values/Integers.antt =====
-- Which numbers NormalizeInteger of internal/query/builder.go lets through.
use native.Mathlib.Nat.{one-le-pow, div-add-mod', mul-div_cancel, mul-mod_left}
use zeep_orbit.Prelude.{
  eq_iff, ℕ, ◌*◌, ◌/◌, ◌%◌, ◌^◌, ◌≤◌, ◌<◌, String, Bool, true, false, ltb, leb, eqb_iff, [], ◌∷◌,
  ok, ◌>>◌, guard, guard-eq-ok, In, ◌==◌, if◌then◌else◌, ◌≡◌, ◌↔◌, inl, inr, refl, sym, ap, subst,
  arith, ◌∙◌,
}
use zeep_orbit.Registry.{Column}
use zeep_orbit.Query.{Number, Value, number, QueryError, not_whole, out_of_range}
use zeep_orbit.Query.Values.{is_whole, in_range, normalize_number, normalize_integer}

-- The number is a whole one of a two's complement type: -low, ..., low - 1.
pub record Fits (low : ℕ) (f : Number) : Type 0 where
  pub magnitude : ℕ
  pub is_exact : f.numerator ≡ magnitude * 2 ^ f.halvings
  pub negative_le : f.is_negative ≡ true → magnitude ≤ low
  pub positive_lt : f.is_negative ≡ false → magnitude < low

pow_positive : (k : ℕ) → 0 < 2 ^ k
pow_positive k = one-le-pow k 2 (omega arith)

is_whole-exact :
    (f : Number) → is_whole f ≡ true → f.numerator ≡ f.numerator / 2 ^ f.halvings * 2 ^ f.halvings
unfolding is_whole
is_whole-exact f h =
    let d = div-add-mod' f.numerator (2 ^ f.halvings) in
    let r = (eqb_iff (f.numerator % 2 ^ f.halvings) 0).0 h in omega (arith, d, r)

in_range_sign :
    (low m : ℕ) (s : Bool)
    → (if s then leb m low else ltb m low) ≡ true
    → (s ≡ true → m ≤ low) × (s ≡ false → m < low)
in_range_sign low m true h = (λ e. ground arith, λ e. absurd (cc))
in_range_sign low m false h = ((λ e. absurd (cc)), λ e. ground arith)

in_range_back :
    (low m : ℕ) (s : Bool)
    → (s ≡ true → m ≤ low)
    → (s ≡ false → m < low)
    → (if s then leb m low else ltb m low) ≡ true
in_range_back low m true h k = let x = h refl in ground arith
in_range_back low m false h k = let x = k refl in ground arith

both_pass :
    (b c : Bool) (e e' : QueryError) (v : Value)
    → b ≡ true
    → c ≡ true
    → (guard b e >> (guard c e' >> ok v)) ≡ ok v
both_pass b c e e' v h k = rw (h, k) refl

checks_iff :
    (low : ℕ) (f : Number) (e e' : QueryError) (v : Value)
    → ((guard (is_whole f) e >> (guard (in_range low f) e' >> ok v)) ≡ ok v) ↔ Fits low f
unfolding is_whole in_range
checks_iff low f e e' v = (
  (λ h.
      let (whole, k) = guard-eq-ok (is_whole f) e (guard (in_range low f) e' >> ok v) h in
      let (range, l) = guard-eq-ok (in_range low f) e' (ok v) k in
      let (neg, pos) = in_range_sign low (f.numerator / 2 ^ f.halvings) f.is_negative range in
      record {
        magnitude = f.numerator / 2 ^ f.halvings;
        is_exact = is_whole-exact f whole;
        negative_le = neg;
        positive_lt = pos;
      }),
  λ h.
      let size : f.numerator / 2 ^ f.halvings ≡ h.magnitude =
        ap (λ n. n / 2 ^ f.halvings) h.is_exact
        ∙ mul-div_cancel h.magnitude (pow_positive f.halvings) in
      let rest : f.numerator % 2 ^ f.halvings ≡ 0 =
        ap (λ n. n % 2 ^ f.halvings) h.is_exact ∙ mul-mod_left h.magnitude (2 ^ f.halvings) in
      let whole : is_whole f ≡ true = (eqb_iff (f.numerator % 2 ^ f.halvings) 0).1 rest in
      let range : in_range low f ≡ true =
        subst (λ m. (if f.is_negative then leb m low else ltb m low) ≡ true) (sym size)
          (in_range_back low h.magnitude f.is_negative h.negative_le h.positive_lt) in
      both_pass (is_whole f) (in_range low f) e e' v whole range,
)

-- A number passes for an integer or bigint column exactly if it is a whole number of the column's
-- type: from -2^31 to 2^31 - 1, and from -2^63 to 2^63 - 1. It is not changed.
pub normalize_integer_iff :
    (col : Column) (low : ℕ) (f : Number)
    → In {A = String × ℕ} (col.type, low) (("integer", 2 ^ 31) ∷ ("bigint", 2 ^ 63) ∷ [])
    → (normalize_integer col (number f) ≡ ok (number f)) ↔ Fits low f
unfolding normalize_integer normalize_number
normalize_integer_iff col low f (inl e) =
    let is_integer : (col.type == "integer") ≡ true =
      (eq_iff col.type "integer").1 (ap (λ z. z.0) e) in
    let low_is : low ≡ 2 ^ 31 = ap (λ z. z.1) e in
    rw (is_integer, low_is)
      (checks_iff (2 ^ 31) f (not_whole col.name) (out_of_range col.name "integer") (number f))
normalize_integer_iff col low f (inr (inl e)) =
    let is_bigint : (col.type == "bigint") ≡ true =
      (eq_iff col.type "bigint").1 (ap (λ z. z.0) e) in
    let not_integer : (col.type == "integer") ≡ false =
      subst (λ z. (z == "integer") ≡ false) (sym (ap (λ z. z.0) e)) refl in
    let low_is : low ≡ 2 ^ 63 = ap (λ z. z.1) e in
    rw (not_integer, is_bigint, low_is)
      (checks_iff (2 ^ 63) f (not_whole col.name) (out_of_range col.name "bigint") (number f))
normalize_integer_iff col low f (inr (inr m)) = elim m [ ]
