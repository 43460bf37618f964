-- ===== src/Promise/Kept.antt =====
-- What each operation keeps: who may settle a promise, and the promises that are settled.
use sobek.Base.{
  ℕ, ◌+◌, ◌≤◌, Bool, true, false, List, [], ◌∷◌, Option, none, some, ◌≡◌, inl, inr, refl, arith,
  ◌==◌, ==→≡, if◌then◌else◌, Bool-cases, ◌∙◌, sym,
}
use sobek.Value.{
  Value, undefined, null, bool, int, float, string, symbol, big_int, object, Objects, same_as, bool,
  int, float, string, symbol, big_int,
}
use sobek.Promise.{
  Promise, PromiseState, PromiseReaction, ResolvingFunctions, Job, resolve_thenable_job, Runtime,
  reject, resolve, resolve_object, resolve_value, ThenAction, then_threw, then_callable, then_other,
  new_promise, add_reactions, reaction_job_on,
}
use sobek.Promise.Owners.{owners, pairs, thenables, count, Owned, pairs-append, thenables-append}
use sobek.Promise.Settling.{
  Stays, Settled, fulfill-Settled, reject-Settled, settle-Owned, settle-Stays,
}

-- The owners are in order afterwards, and no settled promise has changed.
abbrev pub Kept : List ℕ → Runtime → Runtime → Type 0
Kept held r r' = Owned held r' × ((p : ℕ) → Stays (r.promises p) (r'.promises p))

Stays-then : (x y z : Promise) → Stays x y → Stays y z → Stays x z
Stays-then x y z a b n =
    let (s, e) = a n in let (s', e') = b (λ p. n (sym s ∙ p)) in (s' ∙ s, e' ∙ e)

pub Kept-then :
    (held : List ℕ) (r s t : Runtime)
    → ((p : ℕ) → Stays (r.promises p) (s.promises p))
    → Kept held s t
    → Kept held r t
Kept-then held r s t a (o, b) =
    (o, λ p. Stays-then (r.promises p) (s.promises p) (t.promises p) (a p) (b p))

-- Where states and results are as they were and no promise has more owners.
same-Kept :
    (held held' : List ℕ) (r r' : Runtime)
    → Owned held r
    → ((p : ℕ) → (r'.promises p).state ≡ (r.promises p).state)
    → ((p : ℕ) → (r'.promises p).result ≡ (r.promises p).result)
    → r'.fresh ≡ r.fresh
    → ((p : ℕ) → owners p held' r' ≤ owners p held r)
    → Kept held' r r'
same-Kept held held' r r' o states results fresh less = (
  record {
    within = λ p. ground (arith, o.within p, less p, states p);
    unused = λ p le. ground (arith, o.unused p, less p, fresh, le);
    untouched = λ p le. states p ∙ o.untouched p (ground (arith, fresh, le));
  },
  λ p n. (states p, results p),
)

pub settle-Kept :
    (p : ℕ) (held : List ℕ) (r r' : Runtime) → Owned (p ∷ held) r → Settled p r r' → Kept held r r'
settle-Kept p held r r' o s = (settle-Owned p held r r' o s, settle-Stays p held r r' o s)

pub new_promise-Kept : (held : List ℕ) (r : Runtime) → Owned held r → Kept held r (new_promise r)
new_promise-Kept held r o =
    let more : (a : ℕ)
        → owners a held (new_promise r) ≡ owners a held r + (if r.fresh == a then 1 else 0) =
      λ a. ground (arith, pairs-append a r.fresh r.resolving) in
    (
      record {
        within = λ a. elim (Bool-cases (a == r.fresh)) [
          | inl y ↦
              let same = ==→≡ a r.fresh y in
              rw same (ground (arith, more r.fresh, o.unused r.fresh))
          | inr n ↦ rw n (ground (arith, more a, o.within a, n))
        ];
        unused = λ a le. ground (arith, more a, o.unused a, le);
        untouched = λ a le. elim (Bool-cases (a == r.fresh)) [
          | inl y ↦ rw y refl
          | inr n ↦ rw n (o.untouched a (omega (arith, le)))
        ];
      },
      λ a n. elim (Bool-cases (a == r.fresh)) [
        | inl y ↦ let same = ==→≡ a r.fresh y in absurd (n (o.untouched a (ground (arith, same))))
        | inr k ↦ rw k (refl, refl)
      ],
    )

pub resolve-Kept :
    (rt : Objects) (self_resolution : Value) (p : ℕ) (resolution : Value) (action : ThenAction)
    (held : List ℕ) (r : Runtime)
    → Owned (p ∷ held) r
    → Kept held r (resolve rt self_resolution p resolution action r)
unfolding resolve
resolve-Kept rt self_resolution p resolution action held r o =
    by_self (same_as rt resolution (object p)) resolution action
  where
    by_action : (v : Value) (action : ThenAction) → Kept held r (resolve_object p v action r)
    by_action v (then_threw error) = settle-Kept p held r _ o (reject-Settled p error r)
    by_action v (then_callable f) =
        same-Kept (p ∷ held) held r _ o (λ a. refl) (λ a. refl) refl
          (λ a. ground (arith, thenables-append a r.job_queue (resolve_thenable_job p v f ∷ [])))
    by_action v then_other = settle-Kept p held r _ o (fulfill-Settled p v r)

    by_value : (v : Value) (action : ThenAction) → Kept held r (resolve_value p v action r)
    by_value undefined action = settle-Kept p held r _ o (fulfill-Settled p undefined r)
    by_value null action = settle-Kept p held r _ o (fulfill-Settled p null r)
    by_value (bool b) action = settle-Kept p held r _ o (fulfill-Settled p (bool b) r)
    by_value (int i) action = settle-Kept p held r _ o (fulfill-Settled p (int i) r)
    by_value (float f) action = settle-Kept p held r _ o (fulfill-Settled p (float f) r)
    by_value (string k u) action = settle-Kept p held r _ o (fulfill-Settled p (string k u) r)
    by_value (symbol n) action = settle-Kept p held r _ o (fulfill-Settled p (symbol n) r)
    by_value (big_int i) action = settle-Kept p held r _ o (fulfill-Settled p (big_int i) r)
    by_value (object x) action = by_action (object x) action

    by_self :
        (b : Bool) (v : Value) (action : ThenAction)
        → Kept held r (if b then reject p self_resolution r else resolve_value p v action r)
    by_self true v action = settle-Kept p held r _ o (reject-Settled p self_resolution r)
    by_self false v action = by_value v action

no_thenable :
    (a : ℕ) (f : PromiseReaction) (nil : Value) (result : Option Value)
    → thenables a (reaction_job_on f nil result ∷ []) ≡ 0
no_thenable a f nil none = refl
no_thenable a f nil (some v) = refl

module _ (nil : Value) (p : ℕ) (f g : PromiseReaction) (r : Runtime) where
  record Added : Type 0 where
    states : (a : ℕ) → ((add_reactions nil p f g r).promises a).state ≡ (r.promises a).state
    results : (a : ℕ) → ((add_reactions nil p f g r).promises a).result ≡ (r.promises a).result
    fresh_kept : (add_reactions nil p f g r).fresh ≡ r.fresh
    pairs_kept : (add_reactions nil p f g r).resolving ≡ r.resolving
    jobs_kept :
        (a : ℕ) → thenables a (add_reactions nil p f g r).job_queue ≡ thenables a r.job_queue

  add_reactions-Added : Added
  unfolding add_reactions
  add_reactions-Added = by_state (r.promises p).state (r.promises p).handled refl refl
    where
      by_state :
          (s : PromiseState) (b : Bool)
          → (r.promises p).state ≡ s
          → (r.promises p).handled ≡ b
          → Added
      by_state s b e h = record {
        states = λ a. elim (Bool-cases (a == p)) [
          | inl y ↦ let same = ==→≡ a p y in rw same (ground (arith, e, h))
          | inr n ↦ ground (arith, e, h, n)
        ];
        results = λ a. elim (Bool-cases (a == p)) [
          | inl y ↦ let same = ==→≡ a p y in rw same (ground (arith, e, h))
          | inr n ↦ ground (arith, e, h, n)
        ];
        fresh_kept = ground (arith, e, h);
        pairs_kept = ground (arith, e, h);
        jobs_kept = λ a. ground (
          arith,
          e,
          h,
          no_thenable a f nil (r.promises p).result,
          no_thenable a g nil (r.promises p).result,
          thenables-append a r.job_queue (reaction_job_on f nil (r.promises p).result ∷ []),
          thenables-append a r.job_queue (reaction_job_on g nil (r.promises p).result ∷ []),
        );
      }

  pub add_reactions-Kept : (held : List ℕ) → Owned held r → Kept held r (add_reactions nil p f g r)
  add_reactions-Kept held o =
      let a = add_reactions-Added in
      same-Kept held held r (add_reactions nil p f g r) o a.states a.results a.fresh_kept
        (λ b. ground (arith, a.pairs_kept, a.jobs_kept b))

-- Steps on the queue and the pairs alone.
pub queue-Kept :
    (held held' : List ℕ) (r : Runtime) (xs : List ResolvingFunctions) (js : List Job)
    → Owned held r
    → ((a : ℕ) → pairs a xs + thenables a js + count a held' ≤ owners a held r)
    → Kept held' r (record r { resolving = xs; job_queue = js })
queue-Kept held held' r xs js o less =
    same-Kept held held' r (record r { resolving = xs; job_queue = js }) o (λ a. refl) (λ a. refl)
      refl less
