-- ===== src/Promise/Settling.antt =====
-- Scripts settle a promise once.
use sobek.Base.{
  ℕ, ◌+◌, ◌≤◌, ◌<◌, Bool, true, false, List, ◌∷◌, ◌≡◌, ◌≢◌, inl, inr, refl, arith, ◌==◌, ==→≡,
  if◌then◌else◌, Bool-cases, ◌∙◌,
}
use sobek.Value.{Value}
use sobek.Promise.{
  Promise, PromiseState, pending, fulfilled, rejected, Runtime, trigger_promise_reactions, reject,
  fulfill, write_promise, settled, track_promise_rejection, rejection_reject,
}
use sobek.Promise.Owners.{
  owners, thenables, room, Owned, Triggered, trigger_promise_reactions-Triggered,
}

-- A settled promise is as it was, except for `handled`.
abbrev pub Stays : Promise → Promise → Type 0
Stays x y = (x.state ≢ pending) → (y.state ≡ x.state) × (y.result ≡ x.result)

-- What settling a promise does to all promises, and whom it leaves as owners.
pub record Settled (p : ℕ) (r r' : Runtime) : Type 0 where
  pub done : room (r'.promises p).state ≡ 0
  pub others : (a : ℕ) → (a == p) ≡ false → r'.promises a ≡ r.promises a
  pub fresh : r'.fresh ≡ r.fresh
  pub pairs_kept : r'.resolving ≡ r.resolving
  pub jobs_kept : (a : ℕ) → thenables a r'.job_queue ≡ thenables a r.job_queue

-- The jobs come after the promise is written.
from_Triggered :
    (p : ℕ) (x : Promise) (r s r' : Runtime)
    → room x.state ≡ 0
    → s.promises ≡ (write_promise p x r).promises
    → s.fresh ≡ r.fresh
    → s.resolving ≡ r.resolving
    → s.job_queue ≡ r.job_queue
    → Triggered s r'
    → Settled p r r'
from_Triggered p x r s r' full written f q j t = record {
  done = rw (t.promises ∙ written) (ground (arith, full));
  others = λ a n. rw (t.promises ∙ written) (rw n refl);
  fresh = t.fresh ∙ f;
  pairs_kept = t.resolving ∙ q;
  jobs_kept = λ a. t.thenables a ∙ (rw j refl);
}

pub fulfill-Settled : (p : ℕ) (v : Value) (r : Runtime) → Settled p r (fulfill p v r)
unfolding fulfill
fulfill-Settled p v r =
    let s = write_promise p (settled fulfilled v (r.promises p)) r in
    from_Triggered p (settled fulfilled v (r.promises p)) r s (fulfill p v r) refl refl refl refl
      refl (trigger_promise_reactions-Triggered (r.promises p).fulfill_reactions v s)

pub reject-Settled : (p : ℕ) (v : Value) (r : Runtime) → Settled p r (reject p v r)
unfolding reject
reject-Settled p v r = by_handled (r.promises p).handled
  where
    by_handled :
        (b : Bool)
        → Settled p r (
            trigger_promise_reactions (r.promises p).reject_reactions v (
              if b
              then write_promise p (settled rejected v (r.promises p)) r
              else track_promise_rejection p rejection_reject
                  (write_promise p (settled rejected v (r.promises p)) r)))
    by_handled true =
        let s = write_promise p (settled rejected v (r.promises p)) r in
        from_Triggered p (settled rejected v (r.promises p)) r s _ refl refl refl refl refl
          (trigger_promise_reactions-Triggered (r.promises p).reject_reactions v s)
    by_handled false =
        let s =
          track_promise_rejection p rejection_reject
            (write_promise p (settled rejected v (r.promises p)) r) in
        from_Triggered p (settled rejected v (r.promises p)) r s _ refl refl refl refl refl
          (trigger_promise_reactions-Triggered (r.promises p).reject_reactions v s)

room_le : (s : PromiseState) → room s ≤ 1
room_le pending = omega arith
room_le fulfilled = omega arith
room_le rejected = omega arith

room_pending : (s : PromiseState) → 1 ≤ room s → s ≡ pending
room_pending pending le = refl
room_pending fulfilled le = absurd (omega arith)
room_pending rejected le = absurd (omega arith)

module _ (p : ℕ) (held : List ℕ) (r r' : Runtime) (o : Owned (p ∷ held) r)
    (s : Settled p r r') where
  owners_less : (a : ℕ) → owners a (p ∷ held) r ≡ owners a held r' + (if p == a then 1 else 0)
  owners_less a = ground (arith, s.pairs_kept, s.jobs_kept a)

  in_hand : (r.promises p).state ≡ pending
  in_hand = room_pending (r.promises p).state (ground (arith, o.within p, owners_less p))

  existing : p < r.fresh
  existing = ground (arith, o.unused p, owners_less p)

  -- The promise in hand is settled with no owner left.
  pub settle-Owned : Owned held r'
  settle-Owned = record {
    within = λ a. elim (Bool-cases (a == p)) [
      | inl y ↦
          let same = ==→≡ a p y in
          rw same (ground (arith, s.done, o.within p, owners_less p, room_le (r.promises p).state))
      | inr n ↦ rw (s.others a n) (ground (arith, o.within a, owners_less a))
    ];
    unused = λ a le. ground (arith, o.unused a, owners_less a, s.fresh, le);
    untouched = λ a le.
        let e = s.others a (ground (arith, existing, s.fresh, le)) in
        rw e (o.untouched a (ground (arith, s.fresh, le)));
  }

  pub settle-Stays : (a : ℕ) → Stays (r.promises a) (r'.promises a)
  settle-Stays a n = elim (Bool-cases (a == p)) [
    | inl y ↦ let same = ==→≡ a p y in absurd (n (rw same in_hand))
    | inr k ↦ rw (s.others a k) (refl, refl)
  ]
