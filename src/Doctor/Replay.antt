-- ===== src/Doctor/Replay.antt =====
-- A repair plan that is simulated twice.
use mathlib.Core.Path.{subst}
use cashu_fault_lab.Common.{
  String, ◌≡◌, refl, sym, ap, Option, none, List, [], ◌∷◌, Map, get, put, remove, get-put,
  get-remove, includes, str_eq, arith, Bool-cases, inl, inr, ◌⊎◌, if◌then◌else◌, Result, ok,
  bind-eq-ok, ok-injective,
}
use cashu_fault_lab.Doctor.Types.{
  TokenEventView, RepairStep, republish_event, publish_rollover, delete_events,
  republish_wallet_event, wallet_action, MintProof, PlanState,
}
use cashu_fault_lab.Doctor.Plan.{
  remove_all, cover, rolled_over, apply_step, apply_steps, simulate_plan,
}

pub get-remove_all :
    (ids : List String) (m : Map TokenEventView) (k : String)
    → get (remove_all ids m) k ≡ (if includes ids k then none else get m k)
unfolding remove_all
get-remove_all [] m k = refl
get-remove_all (id ∷ ids) m k =
    ground (arith, get-remove_all ids (remove m id) k, get-remove m id k)

-- Two maps after the same steps: they agree at the key, or neither was changed there.
Followed : String → (m n m' n' : Map TokenEventView) → Type 0
Followed k m n m' n' = (get m' k ≡ get n' k) ⊎ ((get m' k ≡ get m k) × (get n' k ≡ get n k))

remove_all-Followed :
    (ids : List String) (k : String) (m n : Map TokenEventView)
    → Followed k m n (remove_all ids m) (remove_all ids n)
unfolding Followed
remove_all-Followed ids k m n = elim (Bool-cases (includes ids k)) [
  | inl hit ↦ inl (rw (get-remove_all ids m k, get-remove_all ids n k, hit) refl)
  | inr miss ↦ inr (rw (get-remove_all ids m k, miss) refl, rw (get-remove_all ids n k, miss) refl)
]

put-Followed :
    (id k : String) (v : TokenEventView) (m n m' n' : Map TokenEventView)
    → Followed k m n m' n'
    → Followed k m n (put m' id v) (put n' id v)
unfolding Followed
put-Followed id k v m n m' n' f = elim (Bool-cases (str_eq id k)) [
  | inl hit ↦ inl (rw (get-put m' id v k, get-put n' id v k, hit) refl)
  | inr miss ↦ ground (arith, get-put m' id v k, get-put n' id v k)
]

-- The steps succeed from every map if from one.
record Follows (k : String) (m n m' : Map TokenEventView)
    (result : Result (Unit {0}) (Map TokenEventView)) : Type 0 where
  after : Map TokenEventView
  succeeds : result ≡ ok after
  followed : Followed k m n m' after

apply_step-Follows :
    (ps : List MintProof) (s : RepairStep) (k : String) (m n m' : Map TokenEventView)
    → apply_step ps s m ≡ ok m'
    → Follows k m n m' (apply_step ps s n)
unfolding apply_step Followed
apply_step-Follows ps (publish_rollover r) k m n m' e =
    let (proofs, c, f) = bind-eq-ok (cover ps r.mint r.covered_ys) _ e in
    record {
      after = put (remove_all r.del n) r.rollover_id (rolled_over r proofs);
      succeeds = rw c refl;
      followed =
          subst
            (λ z. Followed k m n z (put (remove_all r.del n) r.rollover_id (rolled_over r proofs)))
            (ok-injective _ m' f)
            (put-Followed r.rollover_id k (rolled_over r proofs) m n _ _
              (remove_all-Followed r.del k m n));
    }
apply_step-Follows ps (delete_events ids to_relays) k m n m' e = record {
  after = remove_all ids n;
  succeeds = refl;
  followed =
      subst (λ z. Followed k m n z (remove_all ids n)) (ok-injective _ m' e)
        (remove_all-Followed ids k m n);
}
apply_step-Follows ps (republish_event id to_relays) k m n m' e = record {
  after = n;
  succeeds = refl;
  followed = inr (ap (λ z. get z k) (sym (ok-injective m m' e)), refl);
}
apply_step-Follows ps (republish_wallet_event id to_relays) k m n m' e = record {
  after = n;
  succeeds = refl;
  followed = inr (ap (λ z. get z k) (sym (ok-injective m m' e)), refl);
}
apply_step-Follows ps (wallet_action mint ys) k m n m' e = record {
  after = n;
  succeeds = refl;
  followed = inr (ap (λ z. get z k) (sym (ok-injective m m' e)), refl);
}

Followed-trans :
    (k : String) (m n m' n' m'' n'' : Map TokenEventView)
    → Followed k m n m' n'
    → Followed k m' n' m'' n''
    → Followed k m n m'' n''
unfolding Followed
Followed-trans k m n m' n' m'' n'' f g = ground arith

apply_steps-Follows :
    (ps : List MintProof) (ss : List RepairStep) (k : String) (m n m' : Map TokenEventView)
    → apply_steps ps ss m ≡ ok m'
    → Follows k m n m' (apply_steps ps ss n)
unfolding apply_steps Followed
apply_steps-Follows ps [] k m n m' e = record {
  after = n;
  succeeds = refl;
  followed = inr (ap (λ z. get z k) (sym (ok-injective m m' e)), refl);
}
apply_steps-Follows ps (s ∷ ss) k m n m'' e =
    let (m', f, g) = bind-eq-ok (apply_step ps s m) _ e in
    let a = apply_step-Follows ps s k m n m' f in
    let b = apply_steps-Follows ps ss k m' a.after m'' g in
    record {
      after = b.after;
      succeeds = rw a.succeeds b.succeeds;
      followed = Followed-trans k m n m' a.after m'' b.after a.followed b.followed;
    }

Repeats : PlanState → List RepairStep → String → Type 0
Repeats once steps k =
    (twice : PlanState) × (simulate_plan once steps ≡ ok twice)
    × (get twice.live_tokens k ≡ get once.live_tokens k)

repeated :
    (state : PlanState) (live : Map TokenEventView) (steps : List RepairStep) (k : String)
    → apply_steps state.proofs_by_y steps state.live_tokens ≡ ok live
    → Repeats (record state { live_tokens = live }) steps k
unfolding simulate_plan Followed Repeats
repeated state live steps k e =
    let b = apply_steps-Follows state.proofs_by_y steps k state.live_tokens live live e in
    (record state { live_tokens = b.after }, rw b.succeeds refl, kept b.followed)
  where
    kept :
        {m n : Option TokenEventView} {o : Option TokenEventView}
        → (o ≡ n) ⊎ ((o ≡ m) × (n ≡ o))
        → n ≡ o
    kept (inl same) = sym same
    kept (inr untouched) = untouched.1

-- A plan that can be simulated can be simulated again in the state that it leads to, and then leaves
-- every event as it is: live events stay live with the same content, and no others appear.
pub simulate_plan_idem :
    (state once : PlanState) (steps : List RepairStep) (event_id : String)
    → simulate_plan state steps ≡ ok once
    → (twice : PlanState) × (simulate_plan once steps ≡ ok twice)
      × (get twice.live_tokens event_id ≡ get once.live_tokens event_id)
unfolding Repeats simulate_plan
simulate_plan_idem state once steps k e =
    let (live, a, f) = bind-eq-ok (apply_steps state.proofs_by_y steps state.live_tokens) _ e in
    subst (λ z. Repeats z steps k) (ok-injective (record state { live_tokens = live }) once f)
      (repeated state live steps k a)
