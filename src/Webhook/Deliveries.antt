-- ===== src/Webhook/Deliveries.antt =====
-- The attempts of `_deliver_to_subscription`.
use sfa_routing.Prelude.{
  ℕ, zero, suc, ◌+◌, ◌-◌, ◌<◌, ◌≡◌, refl, sym, subst, true, false, Option, none, some, List, [],
  ◌∷◌, ◌++◌, ◌⊎◌, inl, inr, arith, ltb, if◌then◌else◌, take, get_or,
}
use sfa_routing.Webhook.{
  Text, WebhookSubscription, WebhookDeliveryResult, DeliveryError, Request, Reply, Verdict,
  delivered, raised, failed, judge, Delivery, returned, exception, max_retries, retry_delays,
  build_request, try_deliver, deliver_to_subscription,
}

-- The attempts before `n` fail in a way that is tried again.
abbrev pub Fail : (ℕ → Verdict) → ℕ → Type 0
Fail verdict zero = Unit {0}
Fail verdict (suc n) = Fail verdict n × (e : DeliveryError) × (verdict n ≡ failed e)

abbrev pub success_result : WebhookSubscription → ℕ → ℕ → WebhookDeliveryResult
success_result sub status attempts = record {
  subscription_id = sub.id;
  url = sub.url;
  success = true;
  status_code = some status;
  error = none;
  attempts = attempts;
}

abbrev pub failure_result : WebhookSubscription → Option DeliveryError → ℕ → WebhookDeliveryResult
failure_result sub e attempts = record {
  subscription_id = sub.id;
  url = sub.url;
  success = false;
  status_code = none;
  error = e;
  attempts = attempts;
}

-- What the verdicts of the attempts make of a delivery: the first attempt, of three, that does not
-- fail decides, after the waits of the ones before it.
pub data IsDelivery (verdict : ℕ → Verdict) (sub : WebhookSubscription) : Delivery → Type 0 where
  arrives :
      (n status : ℕ)
      → n < 3
      → Fail verdict n
      → verdict n ≡ delivered status
      → IsDelivery verdict sub (returned (success_result sub status (n + 1)) (take n retry_delays))
  crashes :
      (n error : ℕ)
      → n < 3
      → Fail verdict n
      → verdict n ≡ raised error
      → IsDelivery verdict sub (exception error (take n retry_delays))
  gives_up :
      (e : DeliveryError)
      → Fail verdict 3
      → verdict 2 ≡ failed e
      → IsDelivery verdict sub (returned (failure_result sub (some e) 3) (take 2 retry_delays))

Verdict-cases :
    (v : Verdict)
    → ((status : ℕ) × (v ≡ delivered status))
      ⊎ ((n : ℕ) × (v ≡ raised n))
      ⊎ ((e : DeliveryError) × (v ≡ failed e))
Verdict-cases (delivered status) = inl (status, refl)
Verdict-cases (raised n) = inr (inl (n, refl))
Verdict-cases (failed e) = inr (inr (e, refl))

module _ (hmac : Text → ℕ × Text → Text) (post : Request → ℕ → Reply) (sub : WebhookSubscription)
    (request : Request) where
  abbrev verdict : ℕ → Verdict
  verdict n = judge (post request n)

  try_deliver-delivered :
      (left n status : ℕ) (e : Option DeliveryError) (waits : List ℕ)
      → verdict n ≡ delivered status
      → try_deliver hmac post sub request (suc left) n e waits
        ≡ returned (success_result sub status (n + 1)) waits
  unfolding try_deliver
  try_deliver-delivered left n status e waits h = rw (try_deliver, h) refl

  try_deliver-raised :
      (left n error : ℕ) (e : Option DeliveryError) (waits : List ℕ)
      → verdict n ≡ raised error
      → try_deliver hmac post sub request (suc left) n e waits ≡ exception error waits
  unfolding try_deliver
  try_deliver-raised left n error e waits h = rw (try_deliver, h) refl

  try_deliver-failed :
      (left n : ℕ) (last : DeliveryError) (e : Option DeliveryError) (waits : List ℕ)
      → verdict n ≡ failed last
      → try_deliver hmac post sub request (suc left) n e waits
        ≡ try_deliver hmac post sub request left
            (n + 1)
            (some last)
            (if ltb n (max_retries - 1) then waits ++ get_or retry_delays n 0 ∷ [] else waits)
  unfolding try_deliver
  try_deliver-failed left n last e waits h = rw (try_deliver, h) refl

  -- One attempt, given what follows when it fails.
  attempt_from :
      (left n : ℕ) (e : Option DeliveryError)
      → n < 3
      → Fail verdict n
      → ((last : DeliveryError)
          → verdict n ≡ failed last
          → IsDelivery verdict sub (
              try_deliver hmac post sub request left (n + 1) (some last) (
                if ltb n (max_retries - 1)
                then take n retry_delays ++ get_or retry_delays n 0 ∷ []
                else take n retry_delays)))
      → IsDelivery verdict sub
          (try_deliver hmac post sub request (suc left) n e (take n retry_delays))
  attempt_from left n e h before next = elim (Verdict-cases (verdict n)) [
    | inl (status, at) ↦
        subst (IsDelivery verdict sub)
          (sym (try_deliver-delivered left n status e (take n retry_delays) at))
          (arrives n status h before at)
    | inr (inl (error, at)) ↦
        subst (IsDelivery verdict sub)
          (sym (try_deliver-raised left n error e (take n retry_delays) at))
          (crashes n error h before at)
    | inr (inr (last, at)) ↦
        subst (IsDelivery verdict sub)
          (sym (try_deliver-failed left n last e (take n retry_delays) at)) (next last at)
  ]

  try_deliver-IsDelivery :
      IsDelivery verdict sub (try_deliver hmac post sub request max_retries 0 none [])
  unfolding try_deliver
  try_deliver-IsDelivery = attempt_from 2 0 none (omega arith) tt (λ e0 h0.
      attempt_from 1 1 (some e0) (omega arith) (tt, e0, h0)
        (λ e1 h1.
          attempt_from 0 2 (some e1) (omega arith) ((tt, e0, h0), e1, h1)
            (λ e2 h2. gives_up e2 (((tt, e0, h0), e1, h1), e2, h2) h2)))

-- A delivery is made by at most three attempts, until the first one that is answered below 400 or
-- raises an exception that is not one of the HTTP client; the waits before it are 1 and 2 seconds.
-- When all three fail, the result has the error of the last one.
pub deliver_to_subscription-IsDelivery :
    (hmac : Text → ℕ × Text → Text) (post : Request → ℕ → Reply) (global_secret : Text)
    (sub : WebhookSubscription) (payload : Text) (timestamp event : ℕ)
    → IsDelivery
        (λ n. judge (post (build_request hmac global_secret sub payload timestamp event) n))
        sub
        (deliver_to_subscription hmac post global_secret sub payload timestamp event)
unfolding deliver_to_subscription
deliver_to_subscription-IsDelivery hmac post global_secret sub payload timestamp event =
    try_deliver-IsDelivery hmac post sub
      (build_request hmac global_secret sub payload timestamp event)
