-- ===== src/Provisioner/Topsort/Release.antt =====
-- The inner loop of `topo_sort_tables`: what `release` makes of the in-degrees and the queue.
use mathlib.Core.List.{append_assoc}
use zeep_orbit.Prelude.{
  put, ℕ, suc, ◌+◌, String, true, List, [], ◌∷◌, ◌++◌, ◌≡◌, ◌≢◌, refl, sym, ap, ◌∙◌, inl, inr,
  arith, In, Distinct, in-append_left, in-append_right, in-append_cases, String-cases, Bool-cases,
  eq_refl,
}
use zeep_orbit.Prelude.Int.{ℤ, pos, dec, is_zero}
use zeep_orbit.Provisioner.Topsort.{release}
use zeep_orbit.Provisioner.Topsort.Edges.{count}

distinct-snoc : (xs : List String) (d : String) → Distinct xs → ¬ In d xs → Distinct (xs ++ d ∷ [])
distinct-snoc [] d h k = ((λ x. x), tt)
distinct-snoc (x ∷ xs) d h k = (
  λ m. elim (in-append_cases x xs (d ∷ []) m) [
    | inl a ↦ h.0 a
    | inr b ↦ elim b [ inl e ↦ k (inl (sym e)) | inr z ↦ z ]
  ],
  distinct-snoc xs d h.1 (λ m. k (inr m)),
)

module _ (base : String → ℕ) (known : List String) where
  -- `seen` is what has been queued, in order. `ds` are the dependents still to be released.
  pub record IsSettled (ds : List String) (degree : String → ℤ) (seen : List String) : Type 0 where
    pub degrees : (n : String) → degree n ≡ pos (base n + count n ds)
    pub distinct : Distinct seen
    pub zeros : (n : String) → In n seen → base n + count n ds ≡ 0
    pub complete : (n : String) → In n known → base n + count n ds ≡ 0 → In n seen
    pub inside : (n : String) → In n seen → In n known

  module _ {d : String} {ds : List String} {degree : String → ℤ} {seen : List String}
      (s : IsSettled (d ∷ ds) degree seen) where
    lowered : dec (degree d) ≡ pos (base d + count d ds)
    lowered =
        let one : degree d ≡ pos (suc (base d + count d ds)) =
          s.degrees d ∙ ap pos (rw eq_refl (omega arith)) in
        rw one

    new : ¬ In d seen
    new m = let z : base d + (1 + count d ds) ≡ 0 = rw eq_refl at (s.zeros d m) in omega arith

    step_degrees : (n : String) → put degree d (dec (degree d)) n ≡ pos (base n + count n ds)
    step_degrees n = elim (String-cases d n) [
      | inl (e, p) ↦ rw (e, lowered, p)
      | inr (e, p) ↦
          let old : degree n ≡ pos (base n + (0 + count n ds)) = rw e at (s.degrees n) in
          rw e (old ∙ ap pos (omega arith))
    ]

    step_zeros : (n : String) → In n seen → base n + count n ds ≡ 0
    step_zeros n m = omega (arith, s.zeros n m)

    step_pushed :
        base d + count d ds ≡ 0
        → In d known
        → IsSettled ds (put degree d (dec (degree d))) (seen ++ d ∷ [])
    step_pushed z k = record {
      degrees = step_degrees;
      distinct = distinct-snoc seen d s.distinct new;
      zeros = λ n m. elim (in-append_cases n seen (d ∷ []) m) [
        | inl a ↦ step_zeros n a
        | inr b ↦ elim b [ inl e ↦ rw e z | inr z ↦ absurd z ]
      ];
      complete = λ n i h. elim (String-cases d n) [
        | inl (e, p) ↦ in-append_right n seen (d ∷ []) (inl (sym p))
        | inr (e, p) ↦ in-append_left n seen (d ∷ []) (s.complete n i (rw e (omega arith)))
      ];
      inside = λ n m. elim (in-append_cases n seen (d ∷ []) m) [
        | inl a ↦ s.inside n a
        | inr b ↦ elim b [ inl e ↦ rw e k | inr z ↦ absurd z ]
      ];
    }

    step_kept : base d + count d ds ≢ 0 → IsSettled ds (put degree d (dec (degree d))) seen
    step_kept nz = record {
      degrees = step_degrees;
      distinct = s.distinct;
      zeros = step_zeros;
      complete = λ n i h. elim (String-cases d n) [
        | inl (e, p) ↦ absurd (nz (rw p h))
        | inr (e, p) ↦ s.complete n i (rw e (omega arith))
      ];
      inside = s.inside;
    }

  is_zero-pos : (k : ℕ) → is_zero (pos k) ≡ true → k ≡ 0
  is_zero-pos k h = ground arith

  pub release-IsSettled :
      (ds : List String) (degree : String → ℤ) (done queue : List String)
      → ((d : String) → In d ds → In d known)
      → IsSettled ds degree (done ++ queue)
      → IsSettled [] (release ds degree queue).0 (done ++ (release ds degree queue).1)
  unfolding release
  release-IsSettled [] degree done queue k s = s
  release-IsSettled (d ∷ ds) degree done queue k s = elim (Bool-cases (is_zero (dec (degree d)))) [
    | inl e ↦
        rw (e, release)
          (release-IsSettled ds (put degree d (dec (degree d))) done (queue ++ d ∷ [])
            (λ x m. k x (inr m))
            (rw (← append_assoc)
              (step_pushed s (is_zero-pos _ (rw (lowered s) at e)) (k d (inl refl)))))
    | inr e ↦
        rw (e, release)
          (release-IsSettled ds (put degree d (dec (degree d))) done queue (λ x m. k x (inr m))
            (step_kept s (λ z. cc (rw (lowered s, z) at e))))
  ]
