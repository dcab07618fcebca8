-- ===== src/AdminApi/Token.antt =====
-- Which header passes (services/bridge/src/api/admin.ts).
use faircoin_bridge.AdminApi.{
  after_prefix, authorize, bearer, bytes_eq, of_comparison, of_presented, or_empty, passes, same,
  timing_safe_equal, utf8, utf8_unit,
}
use faircoin_bridge.Decimal.{Text}
use faircoin_bridge.Prelude.{
  Bool, Option, [], ap, arith, false, none, refl, some, some-injective, sym, true, ℕ, ◌++◌, ◌↔◌,
  ◌∙◌, ◌∷◌, ◌≡◌, ◌≢◌,
}

same_iff : (s t : Text) → (same s t ≡ true) ↔ (s ≡ t)
unfolding same
same_iff [] [] = (λ _. refl, λ _. refl)
same_iff [] (b ∷ t) = (λ h. absurd (cc), λ h. absurd (cc))
same_iff (a ∷ s) [] = (λ h. absurd (cc), λ h. absurd (cc))
same_iff (a ∷ s) (b ∷ t) =
    (λ h. ground (arith, h, (same_iff s t).0), λ h. ground (arith, h, (same_iff s t).1))

after_prefix-some : (p s r : Text) → after_prefix p s ≡ some r → s ≡ p ++ r
unfolding after_prefix
after_prefix-some [] s r h = some-injective _ _ h
after_prefix-some (c ∷ p) [] r h = absurd (cc)
after_prefix-some (c ∷ p) (d ∷ s) r h = ground (arith, after_prefix-some p s r)

after_prefix-append : (p r : Text) → after_prefix p (p ++ r) ≡ some r
unfolding after_prefix
after_prefix-append [] r = refl
after_prefix-append (c ∷ p) r = ground (arith, after_prefix-append p r)

-- UTF-8 can be read back, one code unit after the other.
utf8_unit-injective :
    (c d : ℕ) (s t : Text) → utf8_unit c ++ s ≡ utf8_unit d ++ t → (c ≡ d) × (s ≡ t)
unfolding utf8_unit
utf8_unit-injective c d s t h = ground arith

utf8_unit-ne-nil : (c : ℕ) (s : Text) → utf8_unit c ++ s ≢ []
unfolding utf8_unit
utf8_unit-ne-nil c s h = ground arith

utf8-injective : (s t : Text) → utf8 s ≡ utf8 t → s ≡ t
unfolding utf8
utf8-injective [] [] h = refl
utf8-injective [] (d ∷ t) h = absurd (utf8_unit-ne-nil d (utf8 t) (sym h))
utf8-injective (c ∷ s) [] h = absurd (utf8_unit-ne-nil c (utf8 s) h)
utf8-injective (c ∷ s) (d ∷ t) h =
    let (e, rest) = utf8_unit-injective c d (utf8 s) (utf8 t) h in
    let tail = utf8-injective s t rest in cc

bytes_eq-passes : (s t : Text) → (bytes_eq s t ≡ some true) ↔ (s ≡ t)
unfolding bytes_eq timing_safe_equal
bytes_eq-passes s t = (
  λ h. utf8-injective s t (ground (arith, (same_iff (utf8 s) (utf8 t)).0)),
  λ e. rw e (ground (arith, (same_iff (utf8 t) (utf8 t)).1 refl)),
)

of_comparison-passes : (b : Option Bool) → of_comparison b ≡ passes → b ≡ some true
unfolding of_comparison
of_comparison-passes none h = absurd (cc)
of_comparison-passes (some true) h = refl
of_comparison-passes (some false) h = absurd (cc)

of_presented-passes :
    (token : Text) (presented : Option Text)
    → of_presented token presented ≡ passes
    → presented ≡ some token
unfolding of_presented
of_presented-passes token none h = absurd (cc)
of_presented-passes token (some s) h =
    ap some ((bytes_eq-passes s token).0 (of_comparison-passes (bytes_eq s token) h))

of_presented_self : (token : Text) → of_presented token (some token) ≡ passes
unfolding of_presented of_comparison
of_presented_self token = rw ((bytes_eq-passes token token).1 refl)

or_empty-cons :
    (header : Option Text) (c : ℕ) (s : Text) → or_empty header ≡ c ∷ s → header ≡ some (c ∷ s)
unfolding or_empty
or_empty-cons none c s h = absurd (cc)
or_empty-cons (some x) c s h = ap some h

-- The middleware lets a request pass exactly when a token is configured and is not empty, and the
-- request's header is that token behind "Bearer ".
pub authorize-passes :
    (token header : Option Text)
    → (authorize token header ≡ passes)
      ↔ ((t : Text) × (token ≡ some t) × (t ≢ []) × (header ≡ some (bearer ++ t)))
authorize-passes token header = (there token, back token)
  where
    there :
        (token : Option Text)
        → authorize token header ≡ passes
        → (t : Text) × (token ≡ some t) × (t ≢ []) × (header ≡ some (bearer ++ t))
    there none h = unfold authorize in absurd (cc)
    there (some []) h = unfold authorize in absurd (cc)
    there (some (c ∷ t)) h = (
      c ∷ t,
      refl,
      λ e. cc,
      or_empty-cons header _ _ (
          after_prefix-some bearer (or_empty header) (c ∷ t) (
            of_presented-passes (c ∷ t) (after_prefix bearer (or_empty header))
              (unfold authorize in h))),
    )

    back :
        (token : Option Text)
        → ((t : Text) × (token ≡ some t) × (t ≢ []) × (header ≡ some (bearer ++ t)))
        → authorize token header ≡ passes
    back none (t, e, n, h) = absurd (cc)
    back (some []) (t, e, n, h) = absurd (n (sym (some-injective _ _ e)))
    back (some (c ∷ s)) (t, e, n, h) =
        let e' : c ∷ s ≡ t = some-injective _ _ e in
        unfold authorize in
        ap (λ o. of_presented (c ∷ s) (after_prefix bearer (or_empty o)))
          (h ∙ ap (λ r. some (bearer ++ r)) (sym e'))
        ∙ (ap (of_presented (c ∷ s)) (after_prefix-append bearer (c ∷ s))
            ∙ of_presented_self (c ∷ s))
