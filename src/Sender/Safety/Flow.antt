-- ===== src/Sender/Safety/Flow.antt =====
-- How the steps of the sender keep its records and its calls of the wallet consistent.
use mathlib.Core.Path.{subst}
use cashu_fault_lab.Common.{
  ℕ, ◌+◌, String, ◌≡◌, sym, some, ◌∷◌, get, put, get-put, has, arith, eq_iff, Bool-cases, inl, inr,
  Result, ok, err,
}
use cashu_fault_lab.Common.Tasks.{pure}
use cashu_fault_lab.Common.Tasks.Holds.{Holds, bind-Holds, attempt-Holds, lift-Holds}
use cashu_fault_lab.Sender.Types.{SenderDeliveryRecord, Act, World, SenderPorts, SendError}
use cashu_fault_lab.Sender.State.{write, create_record, save_record, are_valid_diagnostics}
use cashu_fault_lab.Sender.Send.{use_port, dispatch, pause}
use cashu_fault_lab.Sender.Safety.Certificates.{
  Sound, Warranted, Open, Spares, Consistent, put-Consistent, act-Consistent,
}

-- Consistent, and the wallet knows of no final state of the delivery.
pub record Ready (id : String) (w : World) : Type 0 where
  pub consistent : Consistent w
  pub unended : Open id w

-- as above, and the record is stored
pub record Stored (id : String) (r : SenderDeliveryRecord) (w : World) : Type 0 where
  pub ready : Ready id w
  pub found : get w.records id ≡ some r

module _ (id : String) (r : SenderDeliveryRecord) (same : r.delivery_id ≡ id)
    (sound : Sound r) where
  put-Stored :
      (w : World) → Ready id w → Stored id r (record w { records = put w.records r.delivery_id r })
  put-Stored w h = record {
    ready = record {
      consistent =
          put-Consistent w r h.consistent sound (subst (λ z. Open z w) (sym same) h.unended);
      unended = h.unended;
    };
    found = ground (arith, get-put w.records r.delivery_id r id, eq_iff r.delivery_id id);
  }

  write-Holds : (w : World) → Ready id w → Holds (λ _ v. Stored id r v) Consistent (write r w)
  unfolding write
  write-Holds w h = elim (Bool-cases (are_valid_diagnostics r.diagnostics)) [
    | inl valid ↦ rw valid (put-Stored w h)
    | inr bad ↦ rw bad h.consistent
  ]

  pub save_record-Holds :
      (w : World) → Ready id w → Holds (λ _ v. Stored id r v) Consistent (save_record r w)
  unfolding save_record
  save_record-Holds w h = elim (Bool-cases (has w.records r.delivery_id)) [
    | inl present ↦ rw present (write-Holds w h)
    | inr absent ↦ rw absent h.consistent
  ]

  pub create_record-Holds :
      (w : World) → Ready id w → Holds (λ _ v. Stored id r v) Consistent (create_record r w)
  unfolding create_record
  create_record-Holds w h = elim (Bool-cases (has w.records r.delivery_id)) [
    | inl present ↦ rw present h.consistent
    | inr absent ↦ rw absent (write-Holds w h)
  ]

use_port-Holds :
    {A : Type 0} (P F : World → Type 0) (act : Act) (port : ℕ → Result SendError A) (w : World)
    → P (use_port act port w).1
    → F (use_port act port w).1
    → Holds (λ _ v. P v) F (use_port act port w)
unfolding use_port
use_port-Holds P F act port w h k =
    elim (port w.answers) as (λ x. Holds (λ _ v. P v) F (x, (use_port act port w).1)) [
      | ok a ↦ h
      | err e ↦ k
    ]

pub use_port-Consistent :
    {A : Type 0} (act : Act) (port : ℕ → Result SendError A) (w : World)
    → Warranted (get w.records) act
    → Consistent w
    → Holds (λ _ v. Consistent v) Consistent (use_port act port w)
unfolding use_port
use_port-Consistent act port w h c =
    let c' = act-Consistent w act c h in use_port-Holds Consistent Consistent act port w c' c'

act-Ready :
    (id : String) (act : Act) (w : World)
    → Warranted (get w.records) act
    → Spares id act
    → Ready id w
    → Ready id (record w { acts = act ∷ w.acts; answers = w.answers + 1 })
act-Ready id act w h s r = record {
  consistent = act-Consistent w act r.consistent h;
  unended = (s, r.unended);
}

use_port-Ready :
    {A : Type 0} (id : String) (act : Act) (port : ℕ → Result SendError A) (w : World)
    → Warranted (get w.records) act
    → Spares id act
    → Ready id w
    → Holds (λ _ v. Ready id v) (Ready id) (use_port act port w)
unfolding use_port
use_port-Ready id act port w h s r =
    let r' = act-Ready id act w h s r in use_port-Holds (Ready id) (Ready id) act port w r' r'

pub use_port-Open :
    {A : Type 0} (id : String) (act : Act) (port : ℕ → Result SendError A) (w : World)
    → Warranted (get w.records) act
    → Spares id act
    → Ready id w
    → Holds (λ _ v. Ready id v) Consistent (use_port act port w)
unfolding use_port
use_port-Open id act port w h s r =
    let r' = act-Ready id act w h s r in
    use_port-Holds (Ready id) Consistent act port w r' r'.consistent

module _ (ports : SenderPorts) (id : String) where
  pub dispatch-Holds :
      (r : SenderDeliveryRecord) (w : World)
      → Ready id w
      → Holds (λ _ v. Ready id v) Consistent (dispatch ports r w)
  unfolding dispatch pure
  dispatch-Holds r w h =
      attempt-Holds _ (Ready id) _ _ _ w
        (bind-Holds (λ _ v. Ready id v) _ _ _ _ w (use_port-Ready id _ _ w tt tt h)
          (λ result v k. k))
        (λ e v k. k)

  pub pause-Holds :
      (seed : String) (local : ℕ) (w : World)
      → Ready id w
      → Holds (λ _ v. Ready id v) Consistent (pause ports seed local w)
  unfolding pause
  pause-Holds seed local w h =
      bind-Holds (λ _ v. Ready id v) _ _ _ _ w (lift-Holds (Ready id) Consistent _ w h h.consistent)
        (λ delay v k. use_port-Open id (Act.slept delay) (λ _. ok tt) v tt tt k)
