-- ===== src/Promise/Reactions.antt =====
-- The jobs that reactions come to, and that they do not depend on when the reaction is added.
use sobek.Base.{ℕ, Bool, List, [], ◌∷◌, ◌++◌, ◌≡◌, refl, arith, if◌then◌else◌, ◌∙◌, sym}
use sobek.Value.{Value}
use sobek.Promise.{
  pending, fulfilled, rejected, PromiseReaction, Job, reaction_job, Runtime, enqueue_promise_job,
  trigger_promise_reactions, reject, fulfill, add_reactions, write_promise, settled,
  track_promise_rejection, rejection_reject, rejection_handle,
}
use sobek.Promise.Owners.{trigger_promise_reactions-Triggered}

abbrev pub jobs_of : List PromiseReaction → Value → List Job
jobs_of [] v = []
jobs_of (x ∷ xs) v = reaction_job x v ∷ jobs_of xs v

jobs_of-append :
    (js : List Job) (xs : List PromiseReaction) (f : PromiseReaction) (v : Value)
    → js ++ jobs_of (xs ++ (f ∷ [])) v ≡ (js ++ jobs_of xs v) ++ (reaction_job f v ∷ [])
jobs_of-append [] [] f v = refl
jobs_of-append [] (x ∷ xs) f v = rw (jobs_of-append [] xs f v) refl
jobs_of-append (j ∷ js) xs f v = rw (jobs_of-append js xs f v) refl

append-cons : (js ks : List Job) (j : Job) → (js ++ (j ∷ [])) ++ ks ≡ js ++ (j ∷ ks)
append-cons [] ks j = refl
append-cons (i ∷ js) ks j = rw (append-cons js ks j) refl

append-none : (js : List Job) → js ++ [] ≡ js
append-none [] = refl
append-none (j ∷ js) = rw (append-none js) refl

trigger_promise_reactions-jobs_of :
    (xs : List PromiseReaction) (v : Value) (r : Runtime)
    → ((trigger_promise_reactions xs v r).job_queue ≡ r.job_queue ++ jobs_of xs v)
      × ((trigger_promise_reactions xs v r).tracked ≡ r.tracked)
unfolding trigger_promise_reactions
trigger_promise_reactions-jobs_of [] v r = (sym (append-none r.job_queue), refl)
trigger_promise_reactions-jobs_of (x ∷ xs) v r =
    let (a, b) =
      trigger_promise_reactions-jobs_of xs v (enqueue_promise_job (reaction_job x v) r) in
    (a ∙ append-cons r.job_queue (jobs_of xs v) (reaction_job x v), b)

module _ (nil : Value) (p : ℕ) (f g : PromiseReaction) (v : Value) (r : Runtime) where
  abbrev first_added : Runtime
  first_added = add_reactions nil p f g r

  -- Of a pending promise: adding reactions and then fulfilling it comes to the same jobs in the same
  -- order, the same promises and the same calls of the tracker as fulfilling it first.
  pub fulfill-add_reactions :
      (r.promises p).state ≡ pending
      → ((fulfill p v (add_reactions nil p f g r)).job_queue
          ≡ (add_reactions nil p f g (fulfill p v r)).job_queue)
        × ((fulfill p v (add_reactions nil p f g r)).tracked
            ≡ (add_reactions nil p f g (fulfill p v r)).tracked)
        × ((a : ℕ)
            → (fulfill p v (add_reactions nil p f g r)).promises a
              ≡ (add_reactions nil p f g (fulfill p v r)).promises a)
  unfolding fulfill add_reactions
  fulfill-add_reactions e =
      let s = write_promise p (settled fulfilled v (r.promises p)) r in
      let (jobs, tracks) = trigger_promise_reactions-jobs_of (r.promises p).fulfill_reactions v s in
      let same =
        (trigger_promise_reactions-Triggered (r.promises p).fulfill_reactions v s).promises in
      let s' = write_promise p (settled fulfilled v (first_added.promises p)) first_added in
      let (jobs', tracks') =
        trigger_promise_reactions-jobs_of (first_added.promises p).fulfill_reactions v s' in
      let same' =
        (trigger_promise_reactions-Triggered (first_added.promises p).fulfill_reactions v
          s').promises in
      let more = jobs_of-append r.job_queue (r.promises p).fulfill_reactions f v in
      (
        ground (arith, e, jobs, jobs', same, more),
        ground (arith, e, tracks, tracks', same),
        λ a. ground (arith, e, same, same'),
      )

  -- Of a pending promise: adding reactions and then rejecting it comes to the same jobs in the same
  -- order and the same promises as rejecting it first. The tracker is told nothing where the
  -- reactions come first; otherwise, where no reaction was there before, it is told first of the
  -- rejection and then of its being handled.
  pub reject-add_reactions :
      (r.promises p).state ≡ pending
      → ((reject p v (add_reactions nil p f g r)).job_queue
          ≡ (add_reactions nil p f g (reject p v r)).job_queue)
        × ((a : ℕ)
            → (reject p v (add_reactions nil p f g r)).promises a
              ≡ (add_reactions nil p f g (reject p v r)).promises a)
        × ((reject p v (add_reactions nil p f g r)).tracked ≡ r.tracked)
        × ((add_reactions nil p f g (reject p v r)).tracked ≡ (
            if (r.promises p).handled
            then r.tracked
            else (r.tracked ++ ((p, rejection_reject) ∷ [])) ++ ((p, rejection_handle) ∷ [])))
  unfolding reject add_reactions
  reject-add_reactions e = by_handled (r.promises p).handled refl
    where
      by_handled :
          (b : Bool)
          → (r.promises p).handled ≡ b
          → ((reject p v (add_reactions nil p f g r)).job_queue
              ≡ (add_reactions nil p f g (reject p v r)).job_queue)
            × ((a : ℕ)
                → (reject p v (add_reactions nil p f g r)).promises a
                  ≡ (add_reactions nil p f g (reject p v r)).promises a)
            × ((reject p v (add_reactions nil p f g r)).tracked ≡ r.tracked)
            × ((add_reactions nil p f g (reject p v r)).tracked ≡ (
                if (r.promises p).handled
                then r.tracked
                else (r.tracked ++ ((p, rejection_reject) ∷ [])) ++ ((p, rejection_handle) ∷ [])))
      by_handled b h =
          let w = write_promise p (settled rejected v (r.promises p)) r in
          let s : Runtime = if b then w else track_promise_rejection p rejection_reject w in
          let (jobs, tracks) =
            trigger_promise_reactions-jobs_of (r.promises p).reject_reactions v s in
          let same =
            (trigger_promise_reactions-Triggered (r.promises p).reject_reactions v s).promises in
          let s' = write_promise p (settled rejected v (first_added.promises p)) first_added in
          let (jobs', tracks') =
            trigger_promise_reactions-jobs_of (first_added.promises p).reject_reactions v s' in
          let same' =
            (trigger_promise_reactions-Triggered (first_added.promises p).reject_reactions v
              s').promises in
          let more = jobs_of-append r.job_queue (r.promises p).reject_reactions g v in
          (
            ground (arith, e, h, jobs, jobs', same, more),
            (λ a. ground (arith, e, h, same, same')),
            ground (arith, e, h, tracks'),
            ground (arith, e, h, tracks, same),
          )
