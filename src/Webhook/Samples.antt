-- ===== src/Webhook/Samples.antt =====
-- Inputs and tests of `WebhookService`.
use sfa_routing.Prelude.{ℕ, zero, suc, ◌≡◌, refl, Bool, true, false, [], ◌∷◌, ◌++◌, map}
use sfa_routing.Greedy.{contains}
use sfa_routing.Webhook.{
  Text, WebhookSubscription, WebhookDeliveryResult, Request, Reply, response, timed_out, judge,
  build_request, try_deliver, deliver_to_subscription, target_subscriptions, to_result, deliver_all,
  dispatch_event,
}
use sfa_routing.Webhook.Deliveries.{IsDelivery, deliver_to_subscription-IsDelivery}

abbrev mix : Text → ℕ × Text → Text
mix secret (timestamp, payload) = timestamp ∷ (secret ++ payload)

abbrev hook : WebhookSubscription
hook = record { id = 4; url = 104 ∷ []; secret = 115 ∷ []; is_active = true; events = 1 ∷ 2 ∷ [] }

abbrev paused : WebhookSubscription
paused = record hook { id = 5; is_active = false }

-- The first attempt runs into the timeout, the second one arrives.
abbrev late_answer : Request → ℕ → Reply
late_answer r zero = timed_out 10
late_answer r (suc n) = response 200

abbrev body : Text
body = 123 ∷ 125 ∷ []

abbrev summary : WebhookDeliveryResult → ℕ × Bool × ℕ
summary r = (r.subscription_id, r.success, r.attempts)

dispatch_runs :
    map summary (dispatch_event mix late_answer [] (paused ∷ hook ∷ []) 1 body 1000)
    ≡ (4, true, 2) ∷ []
unfolding dispatch_event target_subscriptions deliver_all to_result deliver_to_subscription
    try_deliver judge contains
dispatch_runs = refl

deliver_to_subscription-IsDelivery_example :
    IsDelivery
      (λ n. judge (late_answer (build_request mix [] hook body 1000 1) n))
      hook
      (deliver_to_subscription mix late_answer [] hook body 1000 1)
deliver_to_subscription-IsDelivery_example =
    deliver_to_subscription-IsDelivery mix late_answer [] hook body 1000 1
