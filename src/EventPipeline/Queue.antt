-- ===== src/EventPipeline/Queue.antt =====
-- The queue of the event pipeline, `asyncio.PriorityQueue` with tuples of priority and time.
use mathlib.Core.List.Perm
use sfa_routing.Prelude.{
  ◌≡◌, refl, Bool, true, false, List, [], ◌∷◌, Perm, arith, if◌then◌else◌, All, length,
}
use sfa_routing.Prelude.Perms.{length-perm}
use sfa_routing.EventPipeline.{RoutingEvent, before, pick}

-- Python's order on (-priority, timestamp) is a total preorder.
before_trans : (a b c : RoutingEvent) → before b a ≡ false → before c b ≡ false → before c a ≡ false
unfolding before
before_trans a b c h k = ground arith

before_asymm : (a b : RoutingEvent) → before a b ≡ true → before b a ≡ false
unfolding before
before_asymm a b h = ground arith

before_irrefl : (a : RoutingEvent) → before a a ≡ false
unfolding before
before_irrefl a = ground arith

-- Nothing is before the event that is taken, and the others stay.
pub record IsPicked (e : RoutingEvent) (es : List RoutingEvent)
    (picked : RoutingEvent × List RoutingEvent) : Type 0 where
  pub perm : Perm (picked.0 ∷ picked.1) (e ∷ es)
  pub best : All (λ other. before other (picked.0) ≡ false) (e ∷ es)

exchanged-perm :
    (b : Bool) (e x : RoutingEvent) (xs : List RoutingEvent)
    → Perm ((if b then e else x) ∷ (if b then x else e) ∷ xs) (e ∷ x ∷ xs)
exchanged-perm true e x xs = Perm.refl (e ∷ x ∷ xs)
exchanged-perm false e x xs = Perm.swap e x xs

pub pick-IsPicked : (e : RoutingEvent) (es : List RoutingEvent) → IsPicked e es (pick e es)
unfolding pick
pick-IsPicked e [] = record { perm = Perm.refl (e ∷ []); best = (before_irrefl e, tt) }
pick-IsPicked e (x ∷ xs) =
    let b : Bool = before x e in
    let next : RoutingEvent = if b then x else e in
    let other : RoutingEvent = if b then e else x in
    let ih = pick-IsPicked next xs in
    let top = (pick next xs).0 in
    let two = chosen b refl top (ih.best.0) in
    record {
      perm =
          Perm.trans (Perm.swap other top (pick next xs).1)
            (Perm.trans (Perm.cons other (ih.perm)) (exchanged-perm b e x xs));
      best = (two.0, (two.1, ih.best.1));
    }
  where
    chosen :
        (b : Bool)
        → before x e ≡ b
        → (top : RoutingEvent) → before (if b then x else e) top ≡ false
        → (before e top ≡ false) × (before x top ≡ false)
    chosen true q top h = (before_trans top x e h (before_asymm x e q), h)
    chosen false q top h = (h, before_trans top e x h q)

pub length-pick : (e : RoutingEvent) (es : List RoutingEvent) → length (pick e es).1 ≡ length es
length-pick e es = omega (arith, length-perm (pick-IsPicked e es).perm)
