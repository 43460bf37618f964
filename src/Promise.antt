-- ===== src/Promise.antt =====
-- Promises (builtin_promise.go): settling, reactions and the job queue. A promise has the number of
-- its object. The calls of the rejection tracker are kept in a list; the tracker of async contexts,
-- which only informs the host, is left out. The resolving functions of a promise are a pair that
-- share `alreadyResolved`.
pub mod Owners
pub mod Settling
pub mod Kept
pub mod Runs
pub mod Reactions
mod Examples
use sobek.Base.{
  ℕ, zero, suc, ◌+◌, Bool, true, false, not, List, [], ◌∷◌, ◌++◌, Option, none, some, ◌≡◌, ◌==◌,
  if◌then◌else◌,
}
use sobek.Value.{Value, object, Objects, same_as}

pub data PromiseState : Type 0 where
  pending : PromiseState
  fulfilled : PromiseState
  rejected : PromiseState

pub data ReactionType : Type 0 where
  reaction_fulfill : ReactionType
  reaction_reject : ReactionType

pub data RejectionOperation : Type 0 where
  rejection_reject : RejectionOperation
  rejection_handle : RejectionOperation

-- `capability` is the number of a promise capability, `handler` that of a callback.
pub record PromiseReaction : Type 0 where
  pub capability : Option ℕ
  pub typ : ReactionType
  pub handler : Option ℕ

pub record Promise : Type 0 where
  pub state : PromiseState
  pub result : Option Value
  pub fulfill_reactions : List PromiseReaction
  pub reject_reactions : List PromiseReaction
  pub handled : Bool

pub record ResolvingFunctions : Type 0 where
  pub promise : ℕ
  pub already_resolved : Bool

pub data Job : Type 0 where
  reaction_job : PromiseReaction → (argument : Value) → Job
  resolve_thenable_job : (promise : ℕ) → (thenable : Value) → (then_callback : ℕ) → Job

-- `fresh` is the number of the next promise.
pub record Runtime : Type 0 where
  pub promises : ℕ → Promise
  pub fresh : ℕ
  pub resolving : List ResolvingFunctions
  pub job_queue : List Job
  pub tracked : List (ℕ × RejectionOperation)

abbrev pub write_promise : ℕ → Promise → Runtime → Runtime
write_promise p x r = record r { promises = λ a. if a == p then x else r.promises a }

abbrev pub enqueue_promise_job : Job → Runtime → Runtime
enqueue_promise_job job r = record r { job_queue = r.job_queue ++ (job ∷ []) }

abbrev pub track_promise_rejection : ℕ → RejectionOperation → Runtime → Runtime
track_promise_rejection p operation r = record r { tracked = r.tracked ++ ((p, operation) ∷ []) }

unfoldable pub trigger_promise_reactions : List PromiseReaction → Value → Runtime → Runtime
trigger_promise_reactions [] argument r = r
trigger_promise_reactions (reaction ∷ reactions) argument r =
    trigger_promise_reactions reactions argument
      (enqueue_promise_job (reaction_job reaction argument) r)

abbrev pub settled : PromiseState → Value → Promise → Promise
settled state value p = record p {
  result = some value;
  fulfill_reactions = [];
  reject_reactions = [];
  state = state;
}

unfoldable pub reject : ℕ → Value → Runtime → Runtime
unfolding trigger_promise_reactions
reject p reason r =
    let r' = write_promise p (settled rejected reason (r.promises p)) r in
    trigger_promise_reactions (r.promises p).reject_reactions reason
      (if (r.promises p).handled then r' else track_promise_rejection p rejection_reject r')

unfoldable pub fulfill : ℕ → Value → Runtime → Runtime
unfolding trigger_promise_reactions
fulfill p value r =
    trigger_promise_reactions (r.promises p).fulfill_reactions value
      (write_promise p (settled fulfilled value (r.promises p)) r)

abbrev pub mark_handled : ℕ → Runtime → Runtime
mark_handled p r = write_promise p (record (r.promises p) { handled = true }) r

-- A missing result is nil.
abbrev pub reaction_job_on : PromiseReaction → Value → Option Value → Job
reaction_job_on reaction nil none = reaction_job reaction nil
reaction_job_on reaction nil (some result) = reaction_job reaction result

unfoldable pub add_reactions :
    (nil : Value) → ℕ → (fulfill_reaction reject_reaction : PromiseReaction) → Runtime → Runtime
add_reactions nil p fulfill_reaction reject_reaction r =
    let x = r.promises p in
    mark_handled p (elim x.state [
      | pending ↦
          write_promise p
            (record x {
              fulfill_reactions = x.fulfill_reactions ++ (fulfill_reaction ∷ []);
              reject_reactions = x.reject_reactions ++ (reject_reaction ∷ []);
            })
            r
      | fulfilled ↦ enqueue_promise_job (reaction_job_on fulfill_reaction nil x.result) r
      | rejected ↦
          enqueue_promise_job (reaction_job_on reject_reaction nil x.result)
            (if x.handled then r else track_promise_rejection p rejection_handle r)
    ])

-- `createResolvingFunctions`
abbrev pub create_resolving_functions : ℕ → Runtime → Runtime
create_resolving_functions p r = record r {
  resolving = r.resolving ++ (record { promise = p; already_resolved = false } ∷ []);
}

-- A call of the pair with a number: its promise, and the pairs afterwards, unless it has been called.
unfoldable pub begin_call : ℕ → List ResolvingFunctions → Option (ℕ × List ResolvingFunctions)
begin_call k [] = none
begin_call zero (x ∷ xs) =
    if x.already_resolved then none else some (x.promise, record x { already_resolved = true } ∷ xs)
begin_call (suc k) (x ∷ xs) = elim (begin_call k xs) [
  | none ↦ none
  | some (p, ys) ↦ some (p, x ∷ ys)
]

abbrev pub empty_promise : Promise
empty_promise = record {
  state = pending;
  result = none;
  fulfill_reactions = [];
  reject_reactions = [];
  handled = false;
}

-- `NewPromise`: a promise and its resolving functions.
abbrev pub new_promise : Runtime → Runtime
new_promise r =
    create_resolving_functions r.fresh
      (record (write_promise r.fresh empty_promise r) { fresh = suc r.fresh })

-- What the lookup of `then` on an object came to.
pub data ThenAction : Type 0 where
  then_threw : Value → ThenAction
  then_callable : (callback : ℕ) → ThenAction
  then_other : ThenAction

abbrev pub resolve_object : ℕ → Value → ThenAction → Runtime → Runtime
resolve_object p resolution (then_threw error) r = reject p error r
resolve_object p resolution (then_callable f) r =
    enqueue_promise_job (resolve_thenable_job p resolution f) r
resolve_object p resolution then_other r = fulfill p resolution r

abbrev pub resolve_value : ℕ → Value → ThenAction → Runtime → Runtime
resolve_value p (object o) action r = resolve_object p (object o) action r
resolve_value p resolution action r = fulfill p resolution r

-- The resolving function, once `alreadyResolved` is set; `self_resolution` is the TypeError.
unfoldable pub resolve :
    Objects → (self_resolution : Value) → ℕ → (resolution : Value) → ThenAction → Runtime → Runtime
unfolding reject fulfill
resolve rt self_resolution p resolution action r =
    if same_as rt resolution (object p)
    then reject p self_resolution r
    else resolve_value p resolution action r
