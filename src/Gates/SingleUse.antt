-- ===== src/Gates/SingleUse.antt =====
-- A resolution is given once, lasts, and is all or nothing.
use agentic_governance.Prelude.{
  ℕ, ◌≡◌, refl, ◌∙◌, sym, ap, true, none, some, List, [], ◌∷◌, arith, nat_eq, string_eq, Bool-cases,
  Option-cases, inl, inr, ◌⊎◌, ◌==◌, ◌<◌, beq_refl,
}
use agentic_governance.Prelude.Dict.{Dict, get, get-put}
use agentic_governance.Errors.{
  ok, err, Result-cases, Exception, approval_token, already_used, unknown_request_id,
}
use agentic_governance.Gates.{
  Resolution, granted, ApprovalRequest, GatesStore, OnCommit, commit, StoreCall, resolve, step, run,
  insert_pending, get_resolution, settle, has_granted_approval, any_counts,
}

ok-err : {A : Type 0} {a : A} {e : Exception} → ok a ≡ err e → ⊥
ok-err h = ground arith

module _ (J W : Type 0) where
  -- How `resolve` ends.
  pub resolve-cases :
      (i : ℕ) (resolution : Resolution) (on_commit : OnCommit J W) (s : GatesStore J) (w : W)
      → ((e : Exception) × (w' : W) × (resolve J W i resolution on_commit (s, w)
            ≡ (err e, (s, w'))))
        ⊎ ((req : ApprovalRequest J) × (w' : W) × (get s.resolutions i ≡ none)
            × (get s.pending i ≡ some req)
            × (resolve J W i resolution on_commit (s, w)
                ≡ (ok req, (settle J i resolution req s, w'))))
  unfolding resolve
  resolve-cases i resolution on_commit s w = elim (Option-cases (get s.resolutions i)) [
    | inr (r, e) ↦ inl (approval_token already_used, w, rw (e, resolve) refl)
    | inl e ↦ elim (Option-cases (get s.pending i)) [
      | inl f ↦ inl (approval_token unknown_request_id, w, rw (e, f, resolve) refl)
      | inr (req, f) ↦ elim (Result-cases (commit J W on_commit req w).0) [
        | inl (u, g) ↦ inr (req, (commit J W on_commit req w).1, e, f, rw (e, f, g, resolve) refl)
        | inr (x, g) ↦ inl (x, (commit J W on_commit req w).1, rw (e, f, g, resolve) refl)
      ]
    ]
  ]

  step-resolution :
      (call : StoreCall J W) (p : GatesStore J × W) (i : ℕ) (r : Resolution)
      → get p.0.resolutions i ≡ some r
      → get (step J W call p).0.resolutions i ≡ some r
  unfolding step insert_pending
  step-resolution (StoreCall.insert_call request) (s, w) i r h = h
  step-resolution (StoreCall.resolve_call k resolution on_commit) (s, w) i r h =
      elim (resolve-cases k resolution on_commit s w) [
        | inl (e, w', f) ↦ rw (f, step) h
        | inr (req, w', free, there, f) ↦
            rw (f, step) (ground (arith, get-put s.resolutions k i resolution, nat_eq.beq_iff k i))
      ]

  step-granted :
      (call : StoreCall J W) (p : GatesStore J × W) (i : ℕ) (r : Resolution)
      (req : ApprovalRequest J)
      → get p.0.resolutions i ≡ some r
      → get p.0.resolved_requests i ≡ some req
      → get (step J W call p).0.resolved_requests i ≡ some req
  unfolding step insert_pending
  step-granted (StoreCall.insert_call request) (s, w) i r q h g = g
  step-granted (StoreCall.resolve_call k resolution on_commit) (s, w) i r q h g =
      elim (resolve-cases k resolution on_commit s w) [
        | inl (e, w', f) ↦ rw (f, step) g
        | inr (req, w', free, there, f) ↦
            rw (f, step) (ground (arith, get-put s.resolved_requests k i req, nat_eq.beq_iff k i))
      ]

  run-granted :
      (calls : List (StoreCall J W)) (p : GatesStore J × W) (i : ℕ) (r : Resolution)
      (req : ApprovalRequest J)
      → get p.0.resolutions i ≡ some r
      → get p.0.resolved_requests i ≡ some req
      → get (run J W calls p).0.resolved_requests i ≡ some req
  unfolding run
  run-granted [] p i r req h g = g
  run-granted (call ∷ calls) p i r req h g =
      run-granted calls _ i r req (step-resolution call p i r h) (step-granted call p i r req h g)

  any_counts-get :
      (requests : Dict ℕ (ApprovalRequest J)) (now i : ℕ) (req : ApprovalRequest J)
      (d : Dict ℕ Resolution)
      → get d i ≡ some granted
      → get requests i ≡ some req
      → now < req.expires_at
      → any_counts J requests req.agent_id now d ≡ true
  unfolding get any_counts
  any_counts-get requests now i req [] h g live = ground arith
  any_counts-get requests now i req ((k, r) ∷ d) h g live = elim (Bool-cases (k == i)) [
    | inl same ↦ ground (arith, (nat_eq.beq_iff k i).0 same, beq_refl req.agent_id)
    | inr other ↦ ground (arith, any_counts-get requests now i req d)
  ]

  resolved :
      (i : ℕ) (resolution : Resolution) (on_commit : OnCommit J W) (p : GatesStore J × W)
      (req : ApprovalRequest J)
      → (resolve J W i resolution on_commit p).0 ≡ ok req
      → (get (resolve J W i resolution on_commit p).1.0.resolutions i ≡ some resolution)
        × (get (resolve J W i resolution on_commit p).1.0.resolved_requests i ≡ some req)
  resolved i resolution on_commit (s, w) req h = elim (resolve-cases i resolution on_commit s w) [
    | inl (e, w', f) ↦ elim (ok-err (sym h ∙ ap (λ r. r.0) f)) [ ]
    | inr (q, w', free, there, f) ↦ (
      rw f (ground (arith, get-put s.resolutions i i resolution, nat_eq.beq_iff i i)),
      rw f (
          ground
            (arith, get-put s.resolved_requests i i q, nat_eq.beq_iff i i, ap (λ r. r.0) f, h)),
    )
  ]

  resolve-again :
      (i : ℕ) (again : Resolution) (on_commit : OnCommit J W) (p : GatesStore J × W)
      (r : Resolution)
      → get p.0.resolutions i ≡ some r
      → resolve J W i again on_commit p ≡ (err (approval_token already_used), p)
  unfolding resolve
  resolve-again i again on_commit (s, w) r h = rw (h, resolve) refl

  pub run-resolution :
      (calls : List (StoreCall J W)) (p : GatesStore J × W) (i : ℕ) (r : Resolution)
      → get p.0.resolutions i ≡ some r
      → get (run J W calls p).0.resolutions i ≡ some r
  unfolding run
  run-resolution [] p i r h = h
  run-resolution (call ∷ calls) p i r h = run-resolution calls _ i r (step-resolution call p i r h)

-- An approval token is used once: after `resolve` succeeded for a request, and any sequence of
-- inserts and resolves, the request has the resolution it got then, and every further `resolve` of
-- it raises "already used" and changes nothing.
pub single_use :
    (J W : Type 0) (i : ℕ) (resolution : Resolution) (on_commit : OnCommit J W)
    (p : GatesStore J × W) (req : ApprovalRequest J) (calls : List (StoreCall J W))
    (again : Resolution) (on_commit' : OnCommit J W)
    → (resolve J W i resolution on_commit p).0 ≡ ok req
    → (get_resolution J i (run J W calls (resolve J W i resolution on_commit p).1).0
        ≡ some resolution)
      × (resolve J W i again on_commit' (run J W calls (resolve J W i resolution on_commit p).1) ≡ (
        err (approval_token already_used),
        run J W calls (resolve J W i resolution on_commit p).1,
      ))
unfolding get_resolution resolve
single_use J W i resolution on_commit p req calls again on_commit' h =
    let after =
      run-resolution J W calls _ i resolution (resolved J W i resolution on_commit p req h).0 in
    (after, resolve-again J W i again on_commit' _ resolution after)

-- `resolve` is all or nothing: when it raises, whether for the token or because `on_commit` raised,
-- the store is as it was, so that the same request can be resolved again.
pub resolve_atomic :
    (J W : Type 0) (i : ℕ) (resolution : Resolution) (on_commit : OnCommit J W)
    (p : GatesStore J × W) (e : Exception)
    → (resolve J W i resolution on_commit p).0 ≡ err e
    → (resolve J W i resolution on_commit p).1.0 ≡ p.0
resolve_atomic J W i resolution on_commit (s, w) e h =
    elim (resolve-cases J W i resolution on_commit s w) [
      | inl (x, w', f) ↦ ap (λ r. r.1.0) f
      | inr (q, w', free, there, f) ↦ elim (ok-err (sym (ap (λ r. r.0) f) ∙ h)) [ ]
    ]

-- A grant is seen until it expires: after a request was resolved as granted, and any sequence of
-- inserts and resolves, `has_granted_approval` answers yes for its agent at every moment before the
-- request's `expires_at`.
pub grant_is_seen :
    (J W : Type 0) (i : ℕ) (on_commit : OnCommit J W) (p : GatesStore J × W)
    (req : ApprovalRequest J) (calls : List (StoreCall J W)) (now : ℕ)
    → (resolve J W i granted on_commit p).0 ≡ ok req
    → now < req.expires_at
    → has_granted_approval J req.agent_id now
        (run J W calls (resolve J W i granted on_commit p).1).0
      ≡ true
unfolding has_granted_approval
grant_is_seen J W i on_commit p req calls now h live =
    let (resolution, request) = resolved J W i granted on_commit p req h in
    any_counts-get J W _ now i req _ (run-resolution J W calls _ i granted resolution)
      (run-granted J W calls _ i granted req resolution request) live
