-- ===== src/Promise/Examples.antt =====
-- A promise that a script makes and resolves, and to which it then adds a reaction.
use sobek.Base.{ℕ, true, false, List, [], ◌∷◌, none, some, ◌≡◌, ◌≢◌, refl, arith}
use sobek.Base.Int.{pos}
use sobek.Value.{Value, undefined, int, Objects}
use sobek.Promise.{
  pending, PromiseReaction, reaction_fulfill, reaction_reject, rejection_reject, rejection_handle,
  ResolvingFunctions, Runtime, resolve, reject, then_other, new_promise, add_reactions, begin_call,
}
use sobek.Promise.Runs.{Runs, start, stop, creates, resolves, adds, Runs-Stays}
use sobek.Promise.Reactions.{reject-add_reactions}

abbrev objects : Objects
objects = record { equal = λ a b. false; callable = λ a. false }

abbrev five : Value
five = int (pos 5)

abbrev on_fulfilled : PromiseReaction
on_fulfilled = record { capability = none; typ = reaction_fulfill; handler = some 1 }

abbrev on_rejected : PromiseReaction
on_rejected = record { capability = none; typ = reaction_reject; handler = none }

abbrev called : List ResolvingFunctions
called = record { promise = 0; already_resolved = true } ∷ []

abbrev resolved : Runtime
resolved =
    resolve objects undefined 0 five then_other (record (new_promise start) { resolving = called })

to_resolved : Runs objects undefined undefined start resolved
unfolding begin_call
to_resolved = creates (resolves 0 0 called five then_other refl stop stop)

abbrev reacted : Runtime
reacted = add_reactions undefined 0 on_fulfilled on_rejected resolved

to_reacted : Runs objects undefined undefined resolved reacted
unfolding resolve sobek.Value.same_as
to_reacted = adds 0 on_fulfilled on_rejected (omega arith) stop

resolved_settled : (resolved.promises 0).state ≢ pending
unfolding resolve
resolved_settled e = absurd (ground (arith, e))

Runs-Stays_example :
    ((reacted.promises 0).state ≡ (resolved.promises 0).state)
    × ((reacted.promises 0).result ≡ (resolved.promises 0).result)
Runs-Stays_example =
    Runs-Stays objects undefined undefined to_resolved to_reacted 0 resolved_settled

reject-add_reactions_example :
    ((reject 0 five
        (add_reactions undefined 0 on_fulfilled on_rejected (new_promise start))).job_queue
      ≡ (add_reactions undefined 0 on_fulfilled on_rejected
          (reject 0 five (new_promise start))).job_queue)
    × ((a : ℕ)
        → (reject 0 five
              (add_reactions undefined 0 on_fulfilled on_rejected (new_promise start))).promises
            a
          ≡ (add_reactions undefined 0 on_fulfilled on_rejected
                (reject 0 five (new_promise start))).promises
              a)
    × ((reject 0 five
          (add_reactions undefined 0 on_fulfilled on_rejected (new_promise start))).tracked
        ≡ [])
    × ((add_reactions undefined 0 on_fulfilled on_rejected
          (reject 0 five (new_promise start))).tracked
        ≡ (0, rejection_reject) ∷ (0, rejection_handle) ∷ [])
reject-add_reactions_example =
    reject-add_reactions undefined 0 on_fulfilled on_rejected five (new_promise start) refl
