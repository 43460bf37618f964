-- ===== src/Promise/Owners.antt =====
-- Who may still settle a promise: a pair of resolving functions that has not been called, a job that
-- will make such a pair, or a resolution on its way.
use sobek.Base.{
  ℕ, zero, suc, ◌+◌, ◌≤◌, true, false, not, ◌&&◌, List, [], ◌∷◌, ◌++◌, Option, none, some, ◌≡◌, inl,
  inr, refl, arith, ◌==◌, if◌then◌else◌, Bool-cases,
}
use sobek.Value.{Value}
use sobek.Promise.{
  PromiseState, pending, fulfilled, rejected, PromiseReaction, ResolvingFunctions, Job,
  reaction_job, resolve_thenable_job, Runtime, begin_call, trigger_promise_reactions,
  enqueue_promise_job,
}

abbrev pub pairs : ℕ → List ResolvingFunctions → ℕ
pairs p [] = 0
pairs p (x ∷ xs) =
    if (x.promise == p) && not x.already_resolved then suc (pairs p xs) else pairs p xs

abbrev pub thenables : ℕ → List Job → ℕ
thenables p [] = 0
thenables p (reaction_job x v ∷ js) = thenables p js
thenables p (resolve_thenable_job q v f ∷ js) =
    if q == p then suc (thenables p js) else thenables p js

abbrev pub count : ℕ → List ℕ → ℕ
count p [] = 0
count p (q ∷ qs) = if q == p then suc (count p qs) else count p qs

-- `held` are the promises of the resolutions on their way.
abbrev pub owners : ℕ → List ℕ → Runtime → ℕ
owners p held r = pairs p r.resolving + thenables p r.job_queue + count p held

-- A pending promise can be settled once, a settled one no more.
abbrev pub room : PromiseState → ℕ
room pending = 1
room fulfilled = 0
room rejected = 0

-- No promise has more than one owner, and a settled one or one to come has none.
pub record Owned (held : List ℕ) (r : Runtime) : Type 0 where
  pub within : (p : ℕ) → owners p held r ≤ room (r.promises p).state
  pub unused : (p : ℕ) → r.fresh ≤ p → owners p held r ≡ 0
  pub untouched : (p : ℕ) → r.fresh ≤ p → (r.promises p).state ≡ pending

pub pairs-append :
    (p q : ℕ) (xs : List ResolvingFunctions)
    → pairs p (xs ++ (record { promise = q; already_resolved = false } ∷ []))
      ≡ pairs p xs + (if q == p then 1 else 0)
pairs-append p q [] = ground (arith)
pairs-append p q (x ∷ xs) = ground (arith, pairs-append p q xs)

pub thenables-append :
    (p : ℕ) (js ks : List Job) → thenables p (js ++ ks) ≡ thenables p js + thenables p ks
thenables-append p [] ks = omega arith
thenables-append p (reaction_job x v ∷ js) ks = thenables-append p js ks
thenables-append p (resolve_thenable_job q v f ∷ js) ks = ground (arith, thenables-append p js ks)

-- A call takes the pair's ownership.
pub begin_call-pairs :
    (k : ℕ) (xs ys : List ResolvingFunctions) (p q : ℕ)
    → begin_call k xs ≡ some (p, ys)
    → pairs q xs ≡ pairs q ys + (if p == q then 1 else 0)
unfolding begin_call
begin_call-pairs k [] ys p q e = absurd (ground (arith, e))
begin_call-pairs zero (x ∷ xs) ys p q e = elim (Bool-cases x.already_resolved) [
  | inl y ↦ absurd (ground (arith, e, y))
  | inr n ↦
      let same : x.promise ≡ p = ground (arith, e, n) in
      let left : ys ≡ record x { already_resolved = true } ∷ xs = ground (arith, e, n) in
      rw left (ground (arith, n, same))
]
begin_call-pairs (suc k) (x ∷ xs) ys p q e =
    by_rest (begin_call k xs) refl e (λ zs. begin_call-pairs k xs zs p q)
  where
    by_rest :
        (o : Option (ℕ × List ResolvingFunctions))
        → begin_call k xs ≡ o
        → ◌≡◌ {A = Option (ℕ × List ResolvingFunctions)}
            (elim o [ none ↦ none | some (p', zs) ↦ some (p', x ∷ zs) ])
            (some (p, ys))
        → ((zs : List ResolvingFunctions)
            → begin_call k xs ≡ some (p, zs)
            → pairs q xs ≡ pairs q zs + (if p == q then 1 else 0))
        → pairs q (x ∷ xs) ≡ pairs q ys + (if p == q then 1 else 0)
    by_rest none f e ih = absurd (ground (arith, e))
    by_rest (some (p', zs)) f e ih =
        let same : p' ≡ p = ground (arith, e) in
        let left : ys ≡ x ∷ zs = ground (arith, e) in rw left (ground (arith, ih zs (rw same at f)))

-- The jobs that a settling starts resolve nothing by themselves.
pub record Triggered (r r' : Runtime) : Type 0 where
  pub promises : r'.promises ≡ r.promises
  pub fresh : r'.fresh ≡ r.fresh
  pub resolving : r'.resolving ≡ r.resolving
  pub thenables : (p : ℕ) → thenables p r'.job_queue ≡ thenables p r.job_queue

pub trigger_promise_reactions-Triggered :
    (reactions : List PromiseReaction) (v : Value) (r : Runtime)
    → Triggered r (trigger_promise_reactions reactions v r)
unfolding trigger_promise_reactions
trigger_promise_reactions-Triggered [] v r = record {
  promises = refl;
  fresh = refl;
  resolving = refl;
  thenables = λ p. refl;
}
trigger_promise_reactions-Triggered (x ∷ xs) v r =
    let ih = trigger_promise_reactions-Triggered xs v (enqueue_promise_job (reaction_job x v) r) in
    record {
      promises = ih.promises;
      fresh = ih.fresh;
      resolving = ih.resolving;
      thenables = λ p.
          ground (arith, ih.thenables p, thenables-append p r.job_queue (reaction_job x v ∷ []));
    }
