-- ===== src/Webhook.antt =====
-- `WebhookService` of backend/app/services/webhook_service.py.
-- Texts are lists of character codes. `hmac` is HMAC-SHA256 with its hexadecimal output, over a
-- message that is the pair of its two parts, the timestamp and the payload, since the first dot of
-- the text separates them. `post` is what the HTTP client does in an attempt. Clocks count seconds;
-- the durations and the log are left out.
pub mod Deliveries
pub mod Headers
pub mod Samples
use sfa_routing.Prelude.{
  ℕ, zero, suc, ◌+◌, ◌-◌, Bool, true, false, ◌&&◌, ◌||◌, Option, none, some, List, [], ◌∷◌, ◌++◌,
  ltb, ◌==◌, if◌then◌else◌, get_or,
}
use sfa_routing.Greedy.{contains}

abbrev pub Text : Type 0
Text = List ℕ

pub record WebhookSubscription : Type 0 where
  pub id : ℕ
  pub url : Text
  pub secret : Text
  pub is_active : Bool
  pub events : List ℕ

pub data DeliveryError : Type 0 where
  http timeout request_error unexpected : ℕ → DeliveryError

pub record WebhookDeliveryResult : Type 0 where
  pub subscription_id : ℕ
  pub url : Text
  pub success : Bool
  pub status_code : Option ℕ
  pub error : Option DeliveryError
  pub attempts : ℕ

abbrev pub max_retries : ℕ
max_retries = 3

abbrev pub retry_delays : List ℕ
retry_delays = 1 ∷ 2 ∷ 4 ∷ []

-- The headers that are compared or vary.
pub record Request : Type 0 where
  pub url : Text
  pub payload : Text
  pub webhook_id : ℕ
  pub event : ℕ
  pub timestamp : ℕ
  pub signature : Text

-- What one attempt comes to: a response, an exception of `httpx`, or another exception.
pub data Reply : Type 0 where
  response timed_out request_failed crashed : ℕ → Reply

-- What an attempt means for the loop: the delivery, an error before the next attempt, or an exception.
pub data Verdict : Type 0 where
  delivered raised : ℕ → Verdict
  failed : DeliveryError → Verdict

pub judge : Reply → Verdict
judge (response status) = if ltb status 400 then delivered status else failed (http status)
judge (timed_out n) = failed (timeout n)
judge (request_failed n) = failed (request_error n)
judge (crashed n) = raised n

-- What `_deliver_to_subscription` comes to, with the waits between the attempts.
pub data Delivery : Type 0 where
  returned : WebhookDeliveryResult → List ℕ → Delivery
  exception : ℕ → List ℕ → Delivery

abbrev pub texts_equal : Text → Text → Bool
texts_equal [] [] = true
texts_equal (x ∷ xs) (y ∷ ys) = x == y && texts_equal xs ys
texts_equal _ _ = false

-- `sha256=`
abbrev pub prefix : Text
prefix = 115 ∷ 104 ∷ 97 ∷ 50 ∷ 53 ∷ 54 ∷ 61 ∷ []

-- `no-secret`
abbrev pub no_secret : Text
no_secret = 110 ∷ 111 ∷ 45 ∷ 115 ∷ 101 ∷ 99 ∷ 114 ∷ 101 ∷ 116 ∷ []

abbrev pub or_text : Text → Text → Text
or_text [] other = other
or_text (x ∷ xs) other = x ∷ xs

module _ (hmac : Text → ℕ × Text → Text) where
  pub generate_signature : Text → Text → ℕ → Text
  generate_signature secret payload timestamp = hmac secret (timestamp, payload)

  -- At the time `now`.
  pub verify_signature : ℕ → Text → Text → ℕ → Text → ℕ → Bool
  verify_signature now secret payload timestamp signature tolerance =
      if ltb tolerance (now - timestamp) || ltb tolerance (timestamp - now)
      then false
      else texts_equal (generate_signature secret payload timestamp) signature

  -- `global_secret` is `settings.WEBHOOK_SECRET_KEY`.
  pub build_request : Text → WebhookSubscription → Text → ℕ → ℕ → Request
  build_request global_secret sub payload timestamp event =
      let secret = or_text (or_text sub.secret global_secret) no_secret in
      record {
        url = sub.url;
        payload = payload;
        webhook_id = sub.id;
        event = event;
        timestamp = timestamp;
        signature = prefix ++ generate_signature secret payload timestamp;
      }

  module _ (post : Request → ℕ → Reply) where
    -- The loop from `attempt` on, with `left` attempts left, the last error and the waits so far.
    pub try_deliver :
        WebhookSubscription → Request → ℕ → ℕ → Option DeliveryError → List ℕ → Delivery
    try_deliver sub request zero attempt last_error waits =
        returned
          (record {
            subscription_id = sub.id;
            url = sub.url;
            success = false;
            status_code = none;
            error = last_error;
            attempts = attempt;
          })
          waits
    try_deliver sub request (suc left) attempt last_error waits =
        elim (judge (post request attempt)) [
          | delivered status ↦
              returned
                (record {
                  subscription_id = sub.id;
                  url = sub.url;
                  success = true;
                  status_code = some status;
                  error = none;
                  attempts = attempt + 1;
                })
                waits
          | raised n ↦ exception n waits
          | failed e ↦ try_deliver sub request left (attempt + 1) (some e) (
              if ltb attempt (max_retries - 1)
              then waits ++ get_or retry_delays attempt 0 ∷ []
              else waits)
        ]

    pub deliver_to_subscription : Text → WebhookSubscription → Text → ℕ → ℕ → Delivery
    deliver_to_subscription global_secret sub payload timestamp event =
        try_deliver sub (build_request global_secret sub payload timestamp event) max_retries 0 none
          []

    pub target_subscriptions : ℕ → List WebhookSubscription → List WebhookSubscription
    target_subscriptions event [] = []
    target_subscriptions event (sub ∷ subs) =
        let rest = target_subscriptions event subs in
        if sub.is_active && contains sub.events event then sub ∷ rest else rest

    -- `gather(return_exceptions=True)`: an exception becomes a result of its own.
    pub to_result : WebhookSubscription → Delivery → WebhookDeliveryResult
    to_result sub (returned result waits) = result
    to_result sub (exception n waits) = record {
      subscription_id = sub.id;
      url = sub.url;
      success = false;
      status_code = none;
      error = some (unexpected n);
      attempts = 1;
    }

    pub deliver_all : Text → List WebhookSubscription → Text → ℕ → ℕ → List WebhookDeliveryResult
    deliver_all global_secret [] payload timestamp event = []
    deliver_all global_secret (sub ∷ subs) payload timestamp event =
        to_result sub (deliver_to_subscription global_secret sub payload timestamp event)
        ∷ deliver_all global_secret subs payload timestamp event

    pub dispatch_event : Text → List WebhookSubscription → ℕ → Text → ℕ → List WebhookDeliveryResult
    dispatch_event global_secret subs event payload timestamp =
        deliver_all global_secret (target_subscriptions event subs) payload timestamp event
