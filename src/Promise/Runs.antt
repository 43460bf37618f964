-- ===== src/Promise/Runs.antt =====
-- What scripts and the job queue do to promises, as a relation: each step is a call of the code, and
-- what a callback or a getter does meanwhile is a run of its own. `leave` takes the jobs in the order
-- of the queue.
use sobek.Base.{ℕ, ◌<◌, List, [], ◌∷◌, some, ◌≡◌, ◌≢◌, refl, arith}
use sobek.Value.{Value, Objects}
use sobek.Promise.{
  pending, PromiseReaction, ResolvingFunctions, Job, reaction_job, resolve_thenable_job, Runtime,
  begin_call, reject, resolve, ThenAction, new_promise, create_resolving_functions, add_reactions,
  empty_promise,
}
use sobek.Promise.Owners.{Owned, pairs-append, begin_call-pairs}
use sobek.Promise.Settling.{reject-Settled}
use sobek.Promise.Kept.{
  Kept, Kept-then, settle-Kept, new_promise-Kept, resolve-Kept, add_reactions-Kept, queue-Kept,
}

abbrev pub start : Runtime
start = record {
  promises = λ p. empty_promise;
  fresh = 0;
  resolving = [];
  job_queue = [];
  tracked = [];
}

pub data Runs (rt : Objects) (self_resolution nil : Value) : Runtime → Runtime → Type 0 where
  stop : {r : Runtime} → Runs rt self_resolution nil r r
  creates :
      {r t : Runtime}
      → Runs rt self_resolution nil (new_promise r) t
      → Runs rt self_resolution nil r t
  resolves :
      {r s t : Runtime}
      → (k : ℕ) (p : ℕ) (ys : List ResolvingFunctions) (resolution : Value) (action : ThenAction)
      → begin_call k r.resolving ≡ some (p, ys)
      → Runs rt self_resolution nil (record r { resolving = ys }) s
      → Runs rt self_resolution nil (resolve rt self_resolution p resolution action s) t
      → Runs rt self_resolution nil r t
  rejects :
      {r t : Runtime}
      → (k : ℕ) (p : ℕ) (ys : List ResolvingFunctions) (reason : Value)
      → begin_call k r.resolving ≡ some (p, ys)
      → Runs rt self_resolution nil (reject p reason (record r { resolving = ys })) t
      → Runs rt self_resolution nil r t
  adds :
      {r t : Runtime}
      → (p : ℕ) (f g : PromiseReaction) → p < r.fresh
      → Runs rt self_resolution nil (add_reactions nil p f g r) t
      → Runs rt self_resolution nil r t
  reacts :
      {r t : Runtime}
      → (reaction : PromiseReaction) (argument : Value) (js : List Job)
      → r.job_queue ≡ reaction_job reaction argument ∷ js
      → Runs rt self_resolution nil (record r { job_queue = js }) t
      → Runs rt self_resolution nil r t
  resolves_thenable :
      {r t : Runtime}
      → (p : ℕ) (thenable : Value) (f : ℕ) (js : List Job)
      → r.job_queue ≡ resolve_thenable_job p thenable f ∷ js
      → Runs rt self_resolution nil (create_resolving_functions p (record r { job_queue = js })) t
      → Runs rt self_resolution nil r t
  leaves_abruptly :
      {r t : Runtime}
      → Runs rt self_resolution nil (record r { job_queue = [] }) t
      → Runs rt self_resolution nil r t

Runs-Kept :
    (rt : Objects) (self_resolution nil : Value) {r t : Runtime} (held : List ℕ)
    → Runs rt self_resolution nil r t
    → Owned held r
    → Kept held r t
Runs-Kept rt err nil held stop o = (o, λ p n. (refl, refl))
Runs-Kept rt err nil {r} {t} held (creates run) o =
    let (o1, k1) = new_promise-Kept held r o in
    Kept-then held r (new_promise r) t k1 (Runs-Kept rt err nil held run o1)
Runs-Kept rt err nil {r} {t} held (resolves {s = s} k p ys v action e meanwhile run) o =
    let (o1, k1) =
      queue-Kept held (p ∷ held) r ys r.job_queue o
        (λ a. ground (arith, begin_call-pairs k r.resolving ys p a e)) in
    let (o2, k2) = Runs-Kept rt err nil (p ∷ held) meanwhile o1 in
    let (o3, k3) = resolve-Kept rt err p v action held s o2 in
    Kept-then held r (record r { resolving = ys }) t k1
      (Kept-then held (record r { resolving = ys }) s t k2
        (Kept-then held s (resolve rt err p v action s) t k3 (Runs-Kept rt err nil held run o3)))
Runs-Kept rt err nil {r} {t} held (rejects k p ys v e run) o =
    let (o1, k1) =
      queue-Kept held (p ∷ held) r ys r.job_queue o
        (λ a. ground (arith, begin_call-pairs k r.resolving ys p a e)) in
    let s : Runtime = record r { resolving = ys } in
    let (o2, k2) = settle-Kept p held s (reject p v s) o1 (reject-Settled p v s) in
    Kept-then held r s t k1
      (Kept-then held s (reject p v s) t k2 (Runs-Kept rt err nil held run o2))
Runs-Kept rt err nil {r} {t} held (adds p f g lt run) o =
    let (o1, k1) = add_reactions-Kept nil p f g r held o in
    Kept-then held r (add_reactions nil p f g r) t k1 (Runs-Kept rt err nil held run o1)
Runs-Kept rt err nil {r} {t} held (reacts x v js e run) o =
    let (o1, k1) = queue-Kept held held r r.resolving js o (λ a. ground (arith, e)) in
    Kept-then held r (record r { job_queue = js }) t k1 (Runs-Kept rt err nil held run o1)
Runs-Kept rt err nil {r} {t} held (resolves_thenable p v f js e run) o =
    let s : Runtime = create_resolving_functions p (record r { job_queue = js }) in
    let (o1, k1) =
      queue-Kept held held r s.resolving js o
        (λ a. ground (arith, e, pairs-append a p r.resolving)) in
    Kept-then held r s t k1 (Runs-Kept rt err nil held run o1)
Runs-Kept rt err nil {r} {t} held (leaves_abruptly run) o =
    let (o1, k1) = queue-Kept held held r r.resolving [] o (λ a. omega arith) in
    Kept-then held r (record r { job_queue = [] }) t k1 (Runs-Kept rt err nil held run o1)

start-Owned : Owned [] start
start-Owned = record { within = λ p. omega arith; unused = λ p le. refl; untouched = λ p le. refl }

-- In every state that is reached from the start, a promise has at most one owner, a pair of
-- resolving functions that has not been called or a job that will make one, and none once it is
-- settled.
pub Runs-Owned :
    (rt : Objects) (self_resolution nil : Value) {r : Runtime}
    → Runs rt self_resolution nil start r
    → Owned [] r
Runs-Owned rt self_resolution nil run = (Runs-Kept rt self_resolution nil [] run start-Owned).0

-- Whatever scripts and jobs do from a state that is reached from the start, a promise that is settled
-- keeps its state and its result.
pub Runs-Stays :
    (rt : Objects) (self_resolution nil : Value) {r t : Runtime}
    → Runs rt self_resolution nil start r
    → Runs rt self_resolution nil r t
    → (p : ℕ) → (r.promises p).state ≢ pending
    → ((t.promises p).state ≡ (r.promises p).state)
      × ((t.promises p).result ≡ (r.promises p).result)
Runs-Stays rt self_resolution nil before after p n =
    (Runs-Kept rt self_resolution nil [] after (Runs-Owned rt self_resolution nil before)).1 p n
