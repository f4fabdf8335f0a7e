-- ===== src/WebSocket/Delivery.antt =====
-- Who gets the messages of a topic, in every state that the operations reach.
use sfa_routing.Prelude.{
  ℕ, ◌+◌, ◌-◌, ◌≤◌, ◌≡◌, refl, sym, ap, ◌∙◌, true, false, some, List, [], ◌∷◌, ◌++◌, arith, ◌==◌,
  if◌then◌else◌, inl, inr, Bool-cases,
}
use sfa_routing.WebSocket.{
  Table, Manager, new_manager, holds, remove_first, entry, modify, add_new, connect, subscribe,
  unsubscribe_all, disconnect, broadcast,
}

-- How often a socket is in a list.
pub copies : ℕ → List ℕ → ℕ
copies w [] = 0
copies w (x ∷ xs) = (if x == w then 1 else 0) + copies w xs

copies-append : (w : ℕ) (xs ys : List ℕ) → copies w (xs ++ ys) ≡ copies w xs + copies w ys
unfolding copies
copies-append w [] ys = omega arith
copies-append w (x ∷ xs) ys = omega (arith, copies-append w xs ys)

copies-remove_first :
    (w v : ℕ) (xs : List ℕ)
    → copies v (remove_first w xs) ≡ (if v == w then copies v xs - 1 else copies v xs)
unfolding copies remove_first
copies-remove_first w v [] = ground arith
copies-remove_first w v (x ∷ xs) = ground (arith, copies-remove_first w v xs)

copies-holds : (w : ℕ) (xs : List ℕ) → holds w xs ≡ false → copies w xs ≡ 0
unfolding copies holds
copies-holds w [] h = refl
copies-holds w (x ∷ xs) h = ground (arith, copies-holds w xs)

holds-copies : (w : ℕ) (xs : List ℕ) → holds w xs ≡ true → 1 ≤ copies w xs
unfolding copies holds
holds-copies w [] h = cc
holds-copies w (x ∷ xs) h = ground (arith, holds-copies w xs)

-- No socket is twice in a topic.
abbrev pub IsTidyList : List ℕ → Type 0
IsTidyList ws = (w : ℕ) → copies w ws ≤ 1

abbrev pub IsTidy : Table → Type 0
IsTidy [] = Unit {0}
IsTidy ((j, ws) ∷ t) = IsTidyList ws × IsTidy t

copies-one : (v w : ℕ) → copies v (w ∷ []) ≡ (if v == w then 1 else 0)
unfolding copies
copies-one v w = ground arith

add_new-IsTidyList : (w : ℕ) (ws : List ℕ) → IsTidyList ws → IsTidyList (add_new w ws)
add_new-IsTidyList w ws h v = elim (Bool-cases (holds w ws)) [
  | inl held ↦ rw held (h v)
  | inr fresh ↦
      let none_yet = copies-holds w ws fresh in
      let sum = copies-append v ws (w ∷ []) in
      let one = copies-one v w in
      let bound = h v in
      rw fresh (elim (Bool-cases (v == w)) [
        | inl same ↦
            let e : v ≡ w = ground arith in
            let none_of_v : copies v ws ≡ 0 = rw e none_yet in ground arith
        | inr differs ↦ ground arith
      ])
]

remove_first-IsTidyList : (w : ℕ) (ws : List ℕ) → IsTidyList ws → IsTidyList (remove_first w ws)
remove_first-IsTidyList w ws h v = let bound = h v in ground (arith, copies-remove_first w v ws)

nil-IsTidyList : IsTidyList []
unfolding copies
nil-IsTidyList w = omega arith

subscribe-IsTidy : (w topic : ℕ) (t : Table) → IsTidy t → IsTidy (modify topic (add_new w) t)
unfolding modify
subscribe-IsTidy w topic [] h = (add_new-IsTidyList w [] nil-IsTidyList, tt)
subscribe-IsTidy w topic ((j, ws) ∷ t) h = elim (Bool-cases (j == topic)) [
  | inl here ↦ rw here (add_new-IsTidyList w ws (h.0), h.1)
  | inr away ↦ rw away (h.0, subscribe-IsTidy w topic t (h.1))
]

unsubscribe_all-IsTidy : (w : ℕ) (t : Table) → IsTidy t → IsTidy (unsubscribe_all w t)
unfolding unsubscribe_all
unsubscribe_all-IsTidy w [] h = tt
unsubscribe_all-IsTidy w ((j, ws) ∷ t) h =
    (remove_first-IsTidyList w ws (h.0), unsubscribe_all-IsTidy w t (h.1))

-- The states that the operations reach from the empty one.
pub data Reachable : Manager → Type 0 where
  initial : {m : Manager} → m ≡ new_manager → Reachable m
  connected : {m n : Manager} (w user : ℕ) → Reachable m → n ≡ connect w user m → Reachable n
  disconnected : {m n : Manager} (w user : ℕ) → Reachable m → n ≡ disconnect w user m → Reachable n
  subscribed : {m n : Manager} (w topic : ℕ) → Reachable m → n ≡ subscribe w topic m → Reachable n

Reachable-IsTidy : {m : Manager} → Reachable m → IsTidy m.subscriptions
unfolding connect disconnect subscribe
Reachable-IsTidy (initial e) = rw e tt
Reachable-IsTidy (connected w user r e) = rw e (Reachable-IsTidy r)
Reachable-IsTidy (disconnected {m = m} w user r e) =
    rw e (unsubscribe_all-IsTidy w m.subscriptions (Reachable-IsTidy r))
Reachable-IsTidy (subscribed {m = m} w topic r e) =
    rw e (subscribe-IsTidy w topic m.subscriptions (Reachable-IsTidy r))

entry-IsTidy : (topic : ℕ) (t : Table) → IsTidy t → IsTidyList (entry topic t)
unfolding entry
entry-IsTidy topic [] h = nil-IsTidyList
entry-IsTidy topic ((j, ws) ∷ t) h = elim (Bool-cases (j == topic)) [
  | inl here ↦ rw here (h.0)
  | inr away ↦ rw away (entry-IsTidy topic t (h.1))
]

remove_first-nil : (w : ℕ) → remove_first w [] ≡ []
unfolding remove_first
remove_first-nil w = refl

entry-unsubscribe_all :
    (w topic : ℕ) (t : Table) → entry topic (unsubscribe_all w t) ≡ remove_first w (entry topic t)
unfolding entry unsubscribe_all
entry-unsubscribe_all w topic [] = sym (remove_first-nil w)
entry-unsubscribe_all w topic ((j, ws) ∷ t) = elim (Bool-cases (j == topic)) [
  | inl here ↦ rw here refl
  | inr away ↦ rw away (entry-unsubscribe_all w topic t)
]

-- In a state that can be reached: a socket that is disconnected gets the messages of no topic, and
-- every other socket gets those that it got before.
pub broadcast-disconnect :
    {m : Manager}
    → Reachable m
    → (w user topic v : ℕ)
    → copies v (broadcast (some topic) (disconnect w user m))
      ≡ (if v == w then 0 else copies v (broadcast (some topic) m))
unfolding broadcast disconnect
broadcast-disconnect {m} r w user topic v =
    let tidy = entry-IsTidy topic m.subscriptions (Reachable-IsTidy r) v in
    let gone = copies-remove_first w v (entry topic m.subscriptions) in
    ap (copies v) (entry-unsubscribe_all w topic m.subscriptions) ∙ ground arith

entry-modify :
    (k j : ℕ) (f : List ℕ → List ℕ) (t : Table)
    → entry j (modify k f t) ≡ (if j == k then f (entry j t) else entry j t)
unfolding entry modify
entry-modify k j f [] = ground arith
entry-modify k j f ((i, ws) ∷ t) = ground (arith, entry-modify k j f t)

copies-add_new :
    (w v : ℕ) (ws : List ℕ)
    → IsTidyList ws
    → copies v (add_new w ws) ≡ (if v == w then 1 else copies v ws)
copies-add_new w v ws h = elim (Bool-cases (holds w ws)) [
  | inl held ↦
      let some_yet = holds-copies w ws held in
      let bound = h w in
      rw held (elim (Bool-cases (v == w)) [
        | inl same ↦ let e : v ≡ w = ground arith in rw (same, e) (omega arith)
        | inr differs ↦ rw differs refl
      ])
  | inr fresh ↦
      let none_yet = copies-holds w ws fresh in
      let sum = copies-append v ws (w ∷ []) in
      let one = copies-one v w in
      rw fresh (elim (Bool-cases (v == w)) [
        | inl same ↦
            let e : v ≡ w = ground arith in
            let none_of_v : copies v ws ≡ 0 = rw e none_yet in ground arith
        | inr differs ↦ ground arith
      ])
]

-- In a state that can be reached: after a subscription the socket gets each message of the topic
-- exactly once, however often it subscribed, and nothing else changes for any socket and topic.
pub broadcast-subscribe :
    {m : Manager}
    → Reachable m
    → (w topic other v : ℕ)
    → copies v (broadcast (some other) (subscribe w topic m)) ≡ (
        if other == topic
        then (if v == w then 1 else copies v (broadcast (some other) m))
        else copies v (broadcast (some other) m))
unfolding broadcast subscribe
broadcast-subscribe {m} r w topic other v =
    let tidy = entry-IsTidy other m.subscriptions (Reachable-IsTidy r) in
    let added = copies-add_new w v (entry other m.subscriptions) tidy in
    ap (copies v) (entry-modify topic other (add_new w) m.subscriptions)
    ∙ elim (Bool-cases (other == topic)) [ inl here ↦ rw here added | inr away ↦ rw away refl ]
