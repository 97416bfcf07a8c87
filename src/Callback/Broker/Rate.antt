-- ===== src/Callback/Broker/Rate.antt =====
-- How many opens a project gets through, whatever arrives on its socket and on others.
use mathlib.Core.Path.{subst}
use agent_cockpit.Base.{
  ℕ, ◌+◌, ◌-◌, ◌*◌, ◌≤◌, ◌≡◌, refl, ◌∙◌, ap, Bool, false, Option, none, some, List, [], ◌∷◌, arith,
  inl, inr,
}
use agent_cockpit.Base.{Text, text_eq, text_eq_iff, text_eq_refl, Bool-cases}
use agent_cockpit.Base.Maps.{get, get-set, get-set_self}
use agent_cockpit.Limiter.{TokenBucket, create, try_take}
use agent_cockpit.Limiter.Rate.{elapsed, try_take_budget, try_take_keeps}
use agent_cockpit.Callback.Broker.{
  CallbackBroker, Dispatch, Decision, limiter_for, with_limiter, handle,
}
use agent_cockpit.Callback.Broker.Runs.{
  Request, with_dispatch, requests, opens_of, times_of, span, granted_by, Costs, Takes,
  handle-Takes,
}

-- A later start only shortens what has elapsed.
elapsed_later : (a t : ℕ) (ts : List ℕ) → elapsed a ts ≤ (t - a) + elapsed t ts
elapsed_later a t [] = omega arith
elapsed_later a t (u ∷ ts) = omega arith

-- What a project may still dispatch, by the bucket it has.
abbrev Spends : Text → List Request → CallbackBroker → Type 0
Spends p rs b =
    (l : TokenBucket)
    → get p b.limiters ≡ some l
    → l.per_second ≡ 10
    → opens_of p (requests rs b).1 * 1000 ≤ l.tokens + elapsed l.last (times_of p rs) * 10

opens_own :
    (p project : Text) (granted : Bool) (o : Option Dispatch) (ds : List Dispatch)
    → Costs project granted o
    → opens_of p (with_dispatch o ds) ≤ granted_by granted + opens_of p ds
opens_own p project granted none ds c = ground arith
opens_own p project granted (some d) ds (g, e) = rw g (ground arith)

opens_other :
    (p project : Text) (granted : Bool) (o : Option Dispatch) (ds : List Dispatch)
    → text_eq project p ≡ false
    → Costs project granted o
    → opens_of p (with_dispatch o ds) ≡ opens_of p ds
opens_other p project granted none ds n c = refl
opens_other p project granted (some d) ds n (g, e) = rw (e, n) refl

-- A request leaves the bucket of another project.
get-other :
    (p : Text) (r : Request) (bucket : TokenBucket) (b : CallbackBroker)
    → text_eq r.project p ≡ false
    → get p (with_limiter r.project bucket b).limiters ≡ get p b.limiters
get-other p r bucket b n = rw (get-set r.project p bucket b.limiters, n) refl

-- One call of the bucket pays for one open.
paid :
    (t m n : ℕ) (ts : List ℕ) (l : TokenBucket)
    → l.per_second ≡ 10
    → m ≤ granted_by (try_take t l).1 + n
    → n * 1000 ≤ (try_take t l).0.tokens + elapsed (try_take t l).0.last ts * 10
    → m * 1000 ≤ l.tokens + elapsed l.last (t ∷ ts) * 10
paid t m n ts l k h i =
    let (last, _, _) = try_take_keeps t l in
    let budget =
      subst
        (λ x.
          granted_by (try_take t l).1 * 1000 + (try_take t l).0.tokens
          ≤ l.tokens + (t - l.last) * x)
        k (try_take_budget t l) in
    let spent = rw last at i in omega (arith, budget, spent, h)

module _ (p : Text) (r : Request) (rs : List Request) (b : CallbackBroker) where
  abbrev Goal : CallbackBroker × Decision → TokenBucket → Type 0
  Goal x l =
      opens_of p (with_dispatch x.1.dispatch (requests rs x.0).1) * 1000
      ≤ l.tokens + elapsed l.last (times_of p (r ∷ rs)) * 10

  idle :
      (l : TokenBucket)
      → opens_of p (requests rs b).1 * 1000 ≤ l.tokens + elapsed l.last (times_of p rs) * 10
      → opens_of p (requests rs b).1 * 1000 ≤ l.tokens + elapsed l.last (times_of p (r ∷ rs)) * 10
  idle l h = elim (Bool-cases (text_eq r.project p)) [
    | inl e ↦ rw e (omega (arith, elapsed_later l.last r.now (times_of p rs)))
    | inr e ↦ rw e h
  ]

  own :
      (x : CallbackBroker × Decision) (l : TokenBucket)
      → Spends p rs x.0
      → r.project ≡ p
      → limiter_for r.project r.now b ≡ l
      → l.per_second ≡ 10
      → x.0 ≡ with_limiter r.project (try_take r.now (limiter_for r.project r.now b)).0 b
      → Costs r.project (try_take r.now (limiter_for r.project r.now b)).1 x.1.dispatch
      → Goal x l
  own x l spends e which k q c =
      let q' = rw which at q in
      let c' = rw which at c in
      let taken = try_take r.now l in
      let here : get p x.0.limiters ≡ some taken.0 =
        ap (λ y. get p y.limiters) q' ∙ rw (e, get-set_self p taken.0 b.limiters) refl in
      let (_, rate, _) = try_take_keeps r.now l in
      rw (e, text_eq_refl p)
        (paid r.now (opens_of p (with_dispatch x.1.dispatch (requests rs x.0).1))
          (opens_of p (requests rs x.0).1) (times_of p rs) l k
          (opens_own p r.project taken.1 x.1.dispatch (requests rs x.0).1 c')
          (spends taken.0 here (rate ∙ k)))

  other :
      (x : CallbackBroker × Decision) (l : TokenBucket)
      → Spends p rs x.0
      → text_eq r.project p ≡ false
      → get p b.limiters ≡ some l
      → l.per_second ≡ 10
      → (bucket : TokenBucket) (granted : Bool) → x.0 ≡ with_limiter r.project bucket b
      → Costs r.project granted x.1.dispatch
      → Goal x l
  other x l spends n g k bucket granted q c =
      let here : get p x.0.limiters ≡ some l =
        ap (λ y. get p y.limiters) q ∙ (get-other p r bucket b n ∙ g) in
      rw (opens_other p r.project granted x.1.dispatch (requests rs x.0).1 n c, n) (spends l here k)

  step :
      (x : CallbackBroker × Decision) (l : TokenBucket)
      → ((c : CallbackBroker) → Spends p rs c)
      → get p b.limiters ≡ some l
      → l.per_second ≡ 10
      → Takes r.now r.project b x
      → Goal x l
  step x l spends g k (inl (same, quiet)) = rw quiet (rw same (idle l (spends b l g k)))
  step x l spends g k (inr (q, c)) = elim (Bool-cases (text_eq r.project p)) [
    | inl e ↦
        own x l (spends x.0) ((text_eq_iff r.project p).0 e)
          (rw ((text_eq_iff r.project p).0 e, g) refl) k q c
    | inr n ↦
        other x l (spends x.0) n g k (try_take r.now (limiter_for r.project r.now b)).0
          (try_take r.now (limiter_for r.project r.now b)).1 q c
  ]

requests-Spends : (p : Text) (rs : List Request) (b : CallbackBroker) → Spends p rs b
unfolding requests
requests-Spends p [] b l g k = omega arith
requests-Spends p (r ∷ rs) b l g k =
    step p r rs b (handle r.status r.now r.project r.raw b) l (requests-Spends p rs) g k
      (handle-Takes r.status r.now r.project r.raw b)

span_le : (t : ℕ) (ts : List ℕ) → span ts ≤ elapsed t ts
span_le t [] = omega arith
span_le t (u ∷ ts) = omega arith

-- What a project without a bucket may dispatch.
abbrev Starts : Text → List Request → CallbackBroker → Type 0
Starts p rs b =
    get p b.limiters ≡ none
    → opens_of p (requests rs b).1 * 1000 ≤ 10 * 1000 + span (times_of p rs) * 10

start :
    (p : Text) (r : Request) (rs : List Request) (b : CallbackBroker)
    (x : CallbackBroker × Decision)
    → ((c : CallbackBroker) → Starts p rs c)
    → get p b.limiters ≡ none
    → Takes r.now r.project b x
    → opens_of p (with_dispatch x.1.dispatch (requests rs x.0).1) * 1000
      ≤ 10 * 1000 + span (times_of p (r ∷ rs)) * 10
unfolding create
start p r rs b x starts h (inl (same, quiet)) =
    let rest = starts b h in
    rw quiet (
      rw same (elim (Bool-cases (text_eq r.project p)) [
        | inl e ↦ rw e (omega (arith, rest, span_le r.now (times_of p rs)))
        | inr n ↦ rw n rest
      ]))
start p r rs b x starts h (inr (q, c)) = elim (Bool-cases (text_eq r.project p)) [
  | inl e ↦
      let same = (text_eq_iff r.project p).0 e in
      let fresh =
        own p r rs b x (create 10 10 r.now) (requests-Spends p rs x.0) same (rw (same, h) refl) refl
          q c in
      rw e (omega (arith, rw e at fresh))
  | inr n ↦
      let taken = try_take r.now (limiter_for r.project r.now b) in
      let here : get p x.0.limiters ≡ none =
        ap (λ y. get p y.limiters) q ∙ (get-other p r taken.0 b n ∙ h) in
      rw (opens_other p r.project taken.1 x.1.dispatch (requests rs x.0).1 n c, n) (starts x.0 here)
]

-- Over any sequence of requests of any projects, at whatever times and in whatever states of the
-- connections, the opens dispatched for a project that has no bucket yet are at most ten, and ten more for
-- every second by which the clock moved forward over its requests.
pub requests_rate :
    (p : Text) (rs : List Request) (b : CallbackBroker)
    → get p b.limiters ≡ none
    → opens_of p (requests rs b).1 * 1000 ≤ 10 * 1000 + span (times_of p rs) * 10
unfolding requests
requests_rate p [] b h = omega arith
requests_rate p (r ∷ rs) b h =
    start p r rs b (handle r.status r.now r.project r.raw b) (requests_rate p rs) h
      (handle-Takes r.status r.now r.project r.raw b)
