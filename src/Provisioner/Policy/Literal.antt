-- ===== src/Provisioner/Policy/Literal.antt =====
-- Literals in policies: what Postgres reads back from `quote_literal`.
use Prim.Native.String.{[], ◌∷◌}
use text.Mathlib.TextEquality.{Char-path}
use text.Mathlib.TextLemmas.{nil-append, cons-append, append_assoc}
use zeep_orbit.Prelude.{
  ℕ, Char, code, String, Bool, true, false, ◌&&◌, Option, none, some, ◌≡◌, ◌≢◌, refl, ap, ◌∙◌, inl,
  inr, arith, eqb, eqb_iff, Bool-cases, if◌then◌else◌, sym,
}
use zeep_orbit.Prelude.Text.{cat, contains_char, replace_all}
use zeep_orbit.Provisioner.Policy.{quote_literal}

data Mode : Type 0 where
  plain after_quote after_backslash : Mode

abbrev with_char : Char → Option (String × String) → Option (String × String)
with_char x none = none
with_char x (some (value, rest)) = some (x ∷ value, rest)

-- The inside of a string constant of Postgres, up to the quote that closes it: two quotes stand for
-- one. With `escapes`, as in E'…', two backslashes stand for one; the other escapes are refused. The
-- value and what follows the constant.
read_inside : Bool → Mode → String → Option (String × String)
read_inside escapes plain [] = none
read_inside escapes plain (x ∷ s) =
    let closing = read_inside escapes after_quote s in
    let escaped = read_inside escapes after_backslash s in
    let kept = with_char x (read_inside escapes plain s) in
    if eqb (code x) b'\'' then closing else if escapes && eqb (code x) b'\\' then escaped else kept
read_inside escapes after_quote [] = some ("", "")
read_inside escapes after_quote (x ∷ s) =
    let kept = with_char x (read_inside escapes plain s) in
    if eqb (code x) b'\'' then kept else some ("", x ∷ s)
read_inside escapes after_backslash [] = none
read_inside escapes after_backslash (x ∷ s) =
    let kept = with_char x (read_inside escapes plain s) in
    if eqb (code x) b'\\' then kept else none

-- What follows E.
read_opened : String → Option (String × String)
read_opened [] = none
read_opened (x ∷ s) =
    let constant = read_inside true plain s in if eqb (code x) b'\'' then constant else none

-- A string constant, '…' or E'…', as Postgres reads it with standard_conforming_strings.
pub read_literal : String → Option (String × String)
unfolding read_inside read_opened
read_literal [] = none
read_literal (x ∷ s) =
    if eqb (code x) b'\''
    then read_inside false plain s
    else if eqb (code x) b'E'
    then read_opened s
    else none

-- The text does not begin with a quote, which would go on with a constant before it.
abbrev pub StartsNoQuote : String → Type 0
StartsNoQuote [] = Unit
StartsNoQuote (x ∷ s) = code x ≢ b'\''

ends_literal :
    (escapes : Bool) (rest : String)
    → StartsNoQuote rest
    → read_inside escapes after_quote rest ≡ some ("", rest)
unfolding read_inside
ends_literal escapes [] h = refl
ends_literal escapes (x ∷ s) h = ground arith

module _ (escapes : Bool) (x : Char) (s : String) where
  read-two_quotes :
      code x ≡ b'\''
      → read_inside escapes plain (cat "''" s) ≡ with_char x (read_inside escapes plain s)
  unfolding read_inside
  read-two_quotes e =
      rw (cons-append, cons-append, nil-append)
        (ap (λ y. with_char y (read_inside escapes plain s)) (sym (Char-path x _ e)))

  read-other :
      eqb (code x) b'\'' ≡ false
      → (escapes && eqb (code x) b'\\') ≡ false
      → read_inside escapes plain (x ∷ s) ≡ with_char x (read_inside escapes plain s)
  unfolding read_inside
  read-other e f = rw (e, f, read_inside)

read-two_backslashes :
    (x : Char) (s : String)
    → code x ≡ b'\\'
    → read_inside true plain (cat "\\\\" s) ≡ with_char x (read_inside true plain s)
unfolding read_inside
read-two_backslashes x s e =
    rw (cons-append, cons-append, nil-append)
      (ap (λ y. with_char y (read_inside true plain s)) (sym (Char-path x _ e)))

module _ (c : ℕ) (new : String) (x : Char) (s : String) where
  replace_all-hit :
      eqb (code x) c ≡ true → replace_all c new (x ∷ s) ≡ cat new (replace_all c new s)
  unfolding replace_all
  replace_all-hit e = rw (e, replace_all)

  replace_all-miss : eqb (code x) c ≡ false → replace_all c new (x ∷ s) ≡ x ∷ replace_all c new s
  unfolding replace_all
  replace_all-miss e = rw (e, replace_all)

-- Without escapes a text with its quotes doubled is read back.
read-doubled :
    (v rest : String)
    → StartsNoQuote rest
    → read_inside false plain (cat (replace_all b'\'' "''" v) (cat "'" rest)) ≡ some (v, rest)
read-doubled [] rest h =
    unfold replace_all read_inside in
    rw (nil-append, cons-append, nil-append) (ends_literal false rest h)
read-doubled (x ∷ v) rest h = elim (Bool-cases (eqb (code x) b'\'')) [
  | inl e ↦
      rw (replace_all-hit b'\'' "''" x v e, append_assoc)
        (read-two_quotes false x _ ((eqb_iff (code x) b'\'').0 e)
          ∙ ap (with_char x) (read-doubled v rest h))
  | inr e ↦
      rw (replace_all-miss b'\'' "''" x v e, cons-append)
        (read-other false x _ e refl ∙ ap (with_char x) (read-doubled v rest h))
]

replace_all-two_quotes :
    (s : String) → replace_all b'\\' "\\\\" (cat "''" s) ≡ cat "''" (replace_all b'\\' "\\\\" s)
unfolding replace_all
replace_all-two_quotes s =
    rw (cons-append, cons-append, nil-append, cons-append, cons-append, nil-append)

abbrev escaped : String → String
escaped v = replace_all b'\\' "\\\\" (replace_all b'\'' "''" v)

-- With escapes a text with its quotes and backslashes doubled is read back.
read-escaped :
    (v rest : String)
    → StartsNoQuote rest
    → read_inside true plain (cat (escaped v) (cat "'" rest)) ≡ some (v, rest)
read-escaped [] rest h =
    unfold replace_all read_inside in
    rw (nil-append, cons-append, nil-append) (ends_literal true rest h)
read-escaped (x ∷ v) rest h = elim (Bool-cases (eqb (code x) b'\'')) [
  | inl e ↦
      rw (replace_all-hit b'\'' "''" x v e, replace_all-two_quotes, append_assoc)
        (read-two_quotes true x _ ((eqb_iff (code x) b'\'').0 e)
          ∙ ap (with_char x) (read-escaped v rest h))
  | inr e ↦ elim (Bool-cases (eqb (code x) b'\\')) [
    | inl f ↦
        rw
          (
            replace_all-miss b'\'' "''" x v e,
            replace_all-hit b'\\' "\\\\" x (replace_all b'\'' "''" v) f,
            append_assoc,
          )
          (read-two_backslashes x _ ((eqb_iff (code x) b'\\').0 f)
            ∙ ap (with_char x) (read-escaped v rest h))
    | inr f ↦
        rw
          (
            replace_all-miss b'\'' "''" x v e,
            replace_all-miss b'\\' "\\\\" x (replace_all b'\'' "''" v) f,
            cons-append,
          )
          (read-other true x _ e f ∙ ap (with_char x) (read-escaped v rest h))
  ]
]

read_quoted :
    (s rest : String)
    → read_literal (cat (cat "'" (cat s "'")) rest) ≡ read_inside false plain (cat s (cat "'" rest))
unfolding read_literal
read_quoted s rest =
    rw (cons-append, nil-append, cons-append)
      (ap (read_inside false plain) (append_assoc s "'" rest))

read_escape_quoted :
    (s rest : String)
    → read_literal (cat (cat "E'" (cat s "'")) rest) ≡ read_inside true plain (cat s (cat "'" rest))
unfolding read_literal
read_escape_quoted s rest =
    rw (append_assoc, cons-append, cons-append, nil-append)
      (ap (read_inside true plain) (append_assoc s "'" rest))

-- A text in quotes, with its own doubled.
pub read_literal-doubled :
    (value rest : String)
    → StartsNoQuote rest
    → read_literal (cat (cat "'" (cat (replace_all b'\'' "''" value) "'")) rest)
      ≡ some (value, rest)
read_literal-doubled value rest h =
    read_quoted (replace_all b'\'' "''" value) rest ∙ read-doubled value rest h

-- Whatever the value, Postgres reads the literal as that value and goes on behind it: no value can
-- end the constant early.
pub read_literal-quote_literal :
    (value rest : String)
    → StartsNoQuote rest
    → read_literal (cat (quote_literal value) rest) ≡ some (value, rest)
unfolding quote_literal
read_literal-quote_literal value rest h = elim (Bool-cases (contains_char b'\\' value)) [
  | inl e ↦ rw e (read_escape_quoted (escaped value) rest ∙ read-escaped value rest h)
  | inr e ↦ rw e (read_literal-doubled value rest h)
]
