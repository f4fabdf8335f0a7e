-- ===== src/Webhook/Headers.antt =====
-- The signatures of `WebhookService` and the header that carries them.
use sfa_routing.Prelude.{
  ℕ, suc, ◌+◌, ◌-◌, ◌≤◌, ◌<◌, ◌≡◌, refl, ap, true, false, ◌||◌, [], ◌∷◌, ◌++◌, inl, inr, arith, ltb,
  Bool-cases, length, length-append, drop,
}
use sfa_routing.Webhook.{
  Text, WebhookSubscription, texts_equal, prefix, no_secret, or_text, generate_signature,
  verify_signature, build_request,
}

texts_equal_refl : (xs : Text) → texts_equal xs xs ≡ true
texts_equal_refl [] = refl
texts_equal_refl (x ∷ xs) = ground (arith, texts_equal_refl xs)

texts_equal-length : (xs ys : Text) → texts_equal xs ys ≡ true → length xs ≡ length ys
texts_equal-length [] [] h = refl
texts_equal-length [] (y ∷ ys) h = absurd (ground (arith, h))
texts_equal-length (x ∷ xs) [] h = absurd (ground (arith, h))
texts_equal-length (x ∷ xs) (y ∷ ys) h = ap suc (texts_equal-length xs ys (ground (arith, h)))

texts_equal-append : (xs ys : Text) → 0 < length ys → texts_equal xs (ys ++ xs) ≡ false
texts_equal-append xs ys some_text = elim (Bool-cases (texts_equal xs (ys ++ xs))) [
  | inl same ↦
      absurd (omega (arith, some_text, texts_equal-length xs (ys ++ xs) same, length-append ys xs))
  | inr other ↦ other
]

module _ (hmac : Text → ℕ × Text → Text) (global_secret : Text) (sub : WebhookSubscription)
    (payload : Text) (timestamp event now tolerance : ℕ) where
  abbrev signature : Text
  signature = (build_request hmac global_secret sub payload timestamp event).signature

  abbrev used_secret : Text
  used_secret = or_text (or_text sub.secret global_secret) no_secret

  -- At most `tolerance` seconds before or after its timestamp, a request that was sent is accepted
  -- with the signature behind the prefix of its header; with the header's value itself it is
  -- refused.
  pub verify_signature-header :
      now ≤ timestamp + tolerance
      → timestamp ≤ now + tolerance
      → (verify_signature hmac now used_secret payload timestamp (drop 7 signature) tolerance
          ≡ true)
        × (verify_signature hmac now used_secret payload timestamp signature tolerance ≡ false)
  unfolding verify_signature build_request
  verify_signature-header early late =
      let mac = generate_signature hmac used_secret payload timestamp in
      let in_time : (ltb tolerance (now - timestamp) || ltb tolerance (timestamp - now)) ≡ false =
        ground arith in
      (
        rw (in_time) (texts_equal_refl mac),
        rw (in_time) (texts_equal-append mac prefix (omega arith)),
      )
