-- ===== src/Auth/Session/Signed.antt =====
-- Which session values are accepted.
use text.Mathlib.TextLemmas.{append-ne-nil_of_right_ne-nil, cons-ne-nil}
use arkain.Prelude.{
  ◌≡◌, ◌≢◌, ◌↔◌, ◌∙◌, sym, ap, refl, String, Bool, true, false, Option, some, none, arith,
  holds-yes, holds-no, holds, inl, inr, String-discrete, if◌then◌else◌, true_of_holds,
  false_of_holds, Bool-cases,
}
use arkain.Prelude.Text.{has, append, split_last-append, split_last-some, one-append, split_last}
use arkain.Auth.Session.{sign_session_value, verify_session_value, check_parts, sign, is_empty}

-- What `check_parts` answers, by the outcomes of its tests.
abbrev checked : String → Bool → Bool → Option String
checked seller_id empty same = if empty then none else if same then some seller_id else none

checked-some :
    (a s : String) (empty same : Bool)
    → checked a empty same ≡ some s
    → (empty ≡ false) × (same ≡ true) × (a ≡ s)
checked-some a s empty same h = ground arith

module _ (hmac : String → String → String) (secret : String) where
  checked_lem :
      (a b s : String)
      → check_parts hmac secret (some (a, b)) ≡ some s
      → (s ≢ "") × (a ≡ s) × (b ≡ hmac secret s)
  unfolding check_parts
  checked_lem a b s h =
      let (full, same, e) =
        checked-some a s (is_empty a) (holds (String-discrete b (hmac secret a))) h in
      let at : a ≡ s = e in
      let signed : b ≡ hmac secret a = true_of_holds (String-discrete b (hmac secret a)) same in
      (λ p. false_of_holds (String-discrete a "") full (at ∙ p), at, signed ∙ ap (hmac secret) at)

  signed : String → String
  signed seller_id = sign_session_value hmac seller_id secret

  accepted_lem :
      (value seller_id : String) (o : Option (String × String))
      → split_last "." value ≡ o
      → check_parts hmac secret o ≡ some seller_id
      → (seller_id ≢ "") × (value ≡ sign_session_value hmac seller_id secret)
  accepted_lem value seller_id none e h = unfold check_parts in cc
  accepted_lem value seller_id (some (a, b)) e h =
      let (full, at, sig) = checked_lem a b seller_id h in
      (
        full,
        unfold sign_session_value in
            unfold sign in
            (split_last-some "." value a b e
              ∙ ap (λ x. append x (String.◌∷◌ "." b)) at
              ∙ ap (λ y. append seller_id (String.◌∷◌ "." y)) sig
              ∙ ap (append seller_id) (sym (one-append "." (hmac secret seller_id)))),
      )

  own_lem :
      (seller_id : String)
      → has "." (hmac secret seller_id) ≡ false
      → seller_id ≢ ""
      → check_parts hmac secret (split_last "." (sign_session_value hmac seller_id secret))
        ≡ some seller_id
  unfolding sign_session_value sign check_parts
  own_lem seller_id hex full =
      rw
        (
          one-append "." (hmac secret seller_id),
          split_last-append "." seller_id (hmac secret seller_id) hex,
          holds-no (String-discrete seller_id "") full,
          holds-yes (String-discrete (hmac secret seller_id) (hmac secret seller_id)) refl,
        )
        refl

  full_lem : (seller_id : String) → sign_session_value hmac seller_id secret ≢ ""
  unfolding sign_session_value
  full_lem seller_id e =
      append-ne-nil_of_right_ne-nil seller_id
        (λ p.
          cons-ne-nil "." (sign hmac seller_id secret)
            (sym (one-append "." (sign hmac seller_id secret)) ∙ p))
        e

  -- With signatures that have no dot, as hexadecimal has none: a session value is accepted for a
  -- seller exactly when it is the value that was signed for that seller, and the seller's id is
  -- not empty.
  pub verify_session_value_iff :
      ((s : String) → has "." (hmac secret s) ≡ false)
      → (value seller_id : String)
      → (verify_session_value hmac (some value) secret ≡ some seller_id)
        ↔ ((seller_id ≢ "") × (value ≡ sign_session_value hmac seller_id secret))
  unfolding verify_session_value
  verify_session_value_iff hex value seller_id = (
    (λ h. elim (Bool-cases (is_empty value)) [
      | inl e ↦
          let none_some : ◌≡◌ {A = Option String} none (some seller_id) = rw e at h in absurd (cc)
      | inr e ↦ accepted_lem value seller_id (split_last "." value) refl (rw e at h)
    ]),
    (λ p.
        rw
          (
            p.1,
            holds-no (String-discrete (sign_session_value hmac seller_id secret) "")
                (full_lem seller_id),
          )
          (own_lem seller_id (hex seller_id) p.0)),
  )
