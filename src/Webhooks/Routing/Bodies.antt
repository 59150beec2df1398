-- ===== src/Webhooks/Routing/Bodies.antt =====
-- The dispatcher makes two bodies at most; which body each webhook gets does not depend on it.
use tinku.Prelude.{
  ℕ, String, Bool, true, false, List, [], ◌∷◌, Option, none, some, ◌≡◌, refl, ap, if◌then◌else◌,
  is_some, arith,
}
use tinku.Prelude.Result.{Result, ok, err}
use tinku.Prelude.Exec.{Exec, lift, continue, ◌>>=◌, ◌>>◌}
use tinku.Webhooks.Change.{Change, Details}
use tinku.Webhooks.Queue.{Webhook}
use tinku.Webhooks.Routing.{
  Payload, Dispatcher, MadeBodies, with_details, no_bodies, keep_pointer, keep_detailed, body_for,
  queue_all, matching, queue_change, base_of, time_of,
}

-- What a webhook's owner agreed to: the record only where they asked for it.
abbrev pub payload_for : Payload → Option Details → Webhook → Payload
payload_for base details hook = with_details base (if hook.include_details then details else none)

module _ {S : Type 0} where
  after_queued :
      (r : Result (Unit {0}) × S) (m n : Exec S (Unit {0}))
      → ((t : S) → m t ≡ n t)
      → continue r.0 (λ x. m) r.1 ≡ continue r.0 (λ x. n) r.1
  after_queued (ok tt, t) m n h = h t
  after_queued (err e, t) m n h = refl

module _ {S : Type 0} (d : Dispatcher S) where
  -- Every webhook's body made for it alone.
  unfoldable pub send_each : Payload → Option Details → ℕ → List Webhook → Exec S (Unit {0})
  send_each base details at [] s = (ok tt, s)
  send_each base details at (hook ∷ hooks) s =
      (do
        body ← lift (d.marshal (payload_for base details hook))
        d.queue_webhook_delivery hook.id body at
        send_each base details at hooks)
        s

  module _ (base : Payload) (details : Option Details) where
    abbrev pointer : Payload
    pointer = with_details base none

    record AreKept (bodies : MadeBodies) : Type 0 where
      pub pointer_kept : (b : String) → bodies.pointer_body ≡ some b → d.marshal pointer ≡ ok b
      pub detailed_kept :
          (b : String)
          → bodies.detailed_body ≡ some b
          → d.marshal (with_details base details) ≡ ok b

    AreKept-none : AreKept no_bodies
    AreKept-none = record {
      pointer_kept = λ b h. ground arith;
      detailed_kept = λ b h. ground arith;
    }

    -- The same body or the same failure, and caches that still hold what they should.
    abbrev Agrees : Result (String × MadeBodies) → Result String → Type 0
    Agrees (ok r) (ok b) = (r.0 ≡ b) × AreKept r.1
    Agrees (err e) (err f) = e ≡ f
    Agrees (ok r) (err f) = ⊥
    Agrees (err e) (ok b) = ⊥

    keep_pointer-Agrees :
        (bodies : MadeBodies) (r : Result String)
        → AreKept bodies
        → r ≡ d.marshal pointer
        → Agrees (keep_pointer bodies r) r
    unfolding keep_pointer
    keep_pointer-Agrees bodies (ok b) k h = (
      refl,
      record {
        pointer_kept = λ c e. ground (arith, h);
        detailed_kept = λ c e. k.detailed_kept c e;
      },
    )
    keep_pointer-Agrees bodies (err e) k h = refl

    keep_detailed-Agrees :
        (bodies : MadeBodies) (r : Result String)
        → AreKept bodies
        → r ≡ d.marshal (with_details base details)
        → Agrees (keep_detailed bodies r) r
    unfolding keep_detailed
    keep_detailed-Agrees bodies (ok b) k h = (
      refl,
      record { pointer_kept = λ c e. k.pointer_kept c e; detailed_kept = λ c e. ground (arith, h) },
    )
    keep_detailed-Agrees bodies (err e) k h = refl

    pointer_step :
        (bodies : MadeBodies) (made : Option String)
        → AreKept bodies
        → bodies.pointer_body ≡ made
        → Agrees
            (elim made [ some b ↦ ok (b, bodies) | none ↦ keep_pointer bodies (d.marshal pointer) ])
            (d.marshal pointer)
    pointer_step bodies none k e = keep_pointer-Agrees bodies (d.marshal pointer) k refl
    pointer_step bodies (some b) k e = rw (k.pointer_kept b e) (refl, k)

    detailed_step :
        (bodies : MadeBodies) (made : Option String)
        → AreKept bodies
        → bodies.detailed_body ≡ made
        → Agrees
            (elim made [
              | some b ↦ ok (b, bodies)
              | none ↦ keep_detailed bodies (d.marshal (with_details base details))
            ])
            (d.marshal (with_details base details))
    detailed_step bodies none k e =
        keep_detailed-Agrees bodies (d.marshal (with_details base details)) k refl
    detailed_step bodies (some b) k e = rw (k.detailed_kept b e) (refl, k)

    no_record : details ≡ none → with_details base details ≡ pointer
    no_record e = rw e refl

    choose :
        (hook : Webhook) (bodies : MadeBodies) (asked carried : Bool)
        → hook.include_details ≡ asked
        → is_some details ≡ carried
        → (carried ≡ false → details ≡ none)
        → AreKept bodies
        → Agrees
            (body_for d pointer details hook bodies)
            (d.marshal (payload_for base details hook))
    unfolding body_for
    choose hook bodies false c a e n k = rw a (pointer_step bodies bodies.pointer_body k refl)
    choose hook bodies true true a e n k =
        rw (a, e) (detailed_step bodies bodies.detailed_body k refl)
    choose hook bodies true false a e n k =
        rw (a, e, no_record (n refl)) (pointer_step bodies bodies.pointer_body k refl)

    body_for-Agrees :
        (hook : Webhook) (bodies : MadeBodies)
        → AreKept bodies
        → Agrees
            (body_for d pointer details hook bodies)
            (d.marshal (payload_for base details hook))
    body_for-Agrees hook bodies k =
        choose hook bodies hook.include_details (is_some details) refl refl (λ h. ground (arith, h))
          k

    continue-same :
        (hooks : List Webhook) (hook : Webhook) (at : ℕ) (s : S) (r : Result (String × MadeBodies))
        (m : Result String)
        → Agrees r m
        → ((bodies : MadeBodies) (t : S)
            → AreKept bodies
            → queue_all d pointer details at hooks bodies t ≡ send_each base details at hooks t)
        → continue r
            (λ made.
              d.queue_webhook_delivery hook.id made.0 at
              >> queue_all d pointer details at hooks made.1)
            s
          ≡ continue m
              (λ body. d.queue_webhook_delivery hook.id body at >> send_each base details at hooks)
              s
    unfolding ◌>>=◌
    continue-same hooks hook at s (ok r) (ok b) g ih =
        rw g.0 (after_queued (d.queue_webhook_delivery hook.id b at s) _ _ (λ t. ih r.1 t g.1))
    continue-same hooks hook at s (err e) (err f) g ih = ap (λ x. (err x, s)) g
    continue-same hooks hook at s (ok r) (err f) g ih = elim g [ ]
    continue-same hooks hook at s (err e) (ok b) g ih = elim g [ ]

    queue_all-send_each :
        (hooks : List Webhook) (at : ℕ) (bodies : MadeBodies) (s : S)
        → AreKept bodies
        → queue_all d pointer details at hooks bodies s ≡ send_each base details at hooks s
    unfolding queue_all send_each ◌>>=◌
    queue_all-send_each [] at bodies s k = refl
    queue_all-send_each (hook ∷ hooks) at bodies s k =
        continue-same hooks hook at s _ _ (body_for-Agrees hook bodies k)
          (λ bs t kept. queue_all-send_each hooks at bs t kept)

module _ {S : Type 0} (d : Dispatcher S) (change : Change) where
  on_match :
      (r : Result (List Webhook) × S)
      → continue r.0
          (λ hooks.
            queue_all d (base_of d change) change.details (time_of d change) hooks no_bodies)
          r.1
        ≡ continue r.0 (send_each d (base_of d change) change.details (time_of d change)) r.1
  on_match (ok hooks, t) =
      queue_all-send_each d (base_of d change) change.details hooks (time_of d change) no_bodies t
        (AreKept-none d (base_of d change) change.details)
  on_match (err e, t) = refl

  -- Queueing a change is finding the webhooks that want it and, one after the other, making each a
  -- body of its own, which carries the record only where the owner asked for it: making two bodies
  -- at most changes neither a body, nor the order, nor which failure ends the loop.
  pub queue_change_lem :
      (s : S)
      → queue_change d change s
        ≡ (matching d change >>= send_each d (base_of d change) change.details (time_of d change)) s
  unfolding queue_change ◌>>=◌
  queue_change_lem s = on_match (matching d change s)
