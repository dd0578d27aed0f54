-- ===== src/Sender/Safety/Pending.antt =====
-- Deliveries without a final state, and calls that tell the wallet what became of one.
use cashu_fault_lab.Common.{
  ℕ, String, Bool, true, false, ◌≡◌, refl, ◌∷◌, any, ok, err, Result, arith, has, get, put, get-put,
  eq_iff, str_eq, Bool-cases, ◌⊎◌, inl, inr,
}
use cashu_fault_lab.Common.Tasks.Holds.{Holds}
use cashu_fault_lab.Sender.Types.{SenderDeliveryRecord, Act, World, SendError, SendPaymentOutcome}
use cashu_fault_lab.Sender.State.{Sending, write, save_record, create_record, are_valid_diagnostics}
use cashu_fault_lab.Sender.Send.{use_port, is_finished, is_final_status}

-- the wallet is told what became of the delivery
unfoldable pub is_mark : String → Act → Bool
is_mark id (Act.marked_settled j) = str_eq j id
is_mark id (Act.released j) = str_eq j id
is_mark id (Act.marked_recovery j) = str_eq j id
is_mark id _ = false

abbrev pub Told : String → World → Type 0
Told id w = any (is_mark id) w.acts ≡ true

-- the delivery has no final state
abbrev pub Pending : String → World → Type 0
Pending id w = is_finished (get w.records id) ≡ false

abbrev pub ToldOrPending : String → World → Type 0
ToldOrPending id w = Told id w ⊎ Pending id w

module _ (id : String) where
  put-Pending :
      (r : SenderDeliveryRecord) (w : World)
      → is_final_status r.status ≡ false
      → Pending id w
      → Pending id (record w { records = put w.records r.delivery_id r })
  unfolding is_finished
  put-Pending r w f h = elim (Bool-cases (str_eq r.delivery_id id)) [
    | inl same ↦ rw (get-put w.records r.delivery_id r id, same) f
    | inr other ↦ rw (get-put w.records r.delivery_id r id, other) h
  ]

  write-Pending :
      (r : SenderDeliveryRecord) (w : World)
      → is_final_status r.status ≡ false
      → Pending id w
      → Holds (λ _ v. Pending id v) (ToldOrPending id) (write r w)
  unfolding write
  write-Pending r w f h = elim (Bool-cases (are_valid_diagnostics r.diagnostics)) [
    | inl valid ↦ rw valid (put-Pending r w f h)
    | inr bad ↦ rw bad (inr h)
  ]

  pub save_record-Pending :
      (r : SenderDeliveryRecord) (w : World)
      → is_final_status r.status ≡ false
      → Pending id w
      → Holds (λ _ v. Pending id v) (ToldOrPending id) (save_record r w)
  unfolding save_record
  save_record-Pending r w f h = elim (Bool-cases (has w.records r.delivery_id)) [
    | inl present ↦ rw present (write-Pending r w f h)
    | inr absent ↦ rw absent (inr h)
  ]

  pub create_record-Pending :
      (r : SenderDeliveryRecord) (w : World)
      → is_final_status r.status ≡ false
      → Pending id w
      → Holds (λ _ v. Pending id v) (ToldOrPending id) (create_record r w)
  unfolding create_record
  create_record-Pending r w f h = elim (Bool-cases (has w.records r.delivery_id)) [
    | inl present ↦ rw present (inr h)
    | inr absent ↦ rw absent (write-Pending r w f h)
  ]

  -- where a final state cannot be stored, the old one stays
  pub save_final-Pending :
      (r : SenderDeliveryRecord) (w : World)
      → Pending id w
      → Holds (λ _ v. Unit {0}) (ToldOrPending id) (save_record r w)
  unfolding save_record write
  save_final-Pending r w h = elim (Bool-cases (has w.records r.delivery_id)) [
    | inr absent ↦ rw absent (inr h)
    | inl present ↦ elim (Bool-cases (are_valid_diagnostics r.diagnostics)) [
      | inl valid ↦ rw (present, valid) tt
      | inr bad ↦ rw (present, bad) (inr h)
    ]
  ]

  pub use_port-Pending :
      {A : Type 0} (act : Act) (port : ℕ → Result SendError A) (w : World)
      → Pending id w
      → Holds (λ _ v. Pending id v) (Pending id) (use_port act port w)
  unfolding use_port
  use_port-Pending act port w h =
      elim (port w.answers)
        as (λ x. Holds (λ _ v. Pending id v) (Pending id) (x, (use_port act port w).1)) [
          | ok a ↦ h
          | err e ↦ h
        ]

  -- whether it returns or throws
  pub mark-Told :
      {A : Type 0} (act : Act) (port : ℕ → Result SendError A) (w : World)
      → is_mark id act ≡ true
      → Holds (λ _ v. Told id v) (Told id) (use_port act port w)
  unfolding use_port
  mark-Told act port w h =
      let t = told act w h in
      elim (port w.answers)
        as (λ x. Holds (λ _ v. Told id v) (Told id) (x, (use_port act port w).1)) [
          | ok a ↦ t
          | err e ↦ t
        ]
    where
      told :
          (act : Act) (w : World) → is_mark id act ≡ true → any (is_mark id) (act ∷ w.acts) ≡ true
      told act w h = rw h refl

  abbrev pub Marks : {A : Type 0} → Sending A → World → Type 0
  Marks m w = Holds (λ _ v. Told id v) (ToldOrPending id) (m w)

  pub mark-Marks :
      {A : Type 0} (act : Act) (port : ℕ → Result SendError A) (w : World)
      → is_mark id act ≡ true
      → Marks (use_port act port) w
  unfolding use_port
  mark-Marks act port w h =
      elim (port w.answers)
        as (λ x. Holds (λ _ v. Told id v) (ToldOrPending id) (x, (use_port act port w).1)) [
          | ok a ↦ rw h refl
          | err e ↦ inl (rw h refl)
        ]

  -- from any record of the delivery that is sending
  abbrev pub AllMark : (SenderDeliveryRecord → Sending SendPaymentOutcome) → Type 0
  AllMark next =
      (r : SenderDeliveryRecord) (w : World)
      → r.delivery_id ≡ id
      → is_final_status r.status ≡ false
      → Pending id w
      → Marks (next r) w

  pub is_mark_own : (j : String) → j ≡ id → str_eq j id ≡ true
  is_mark_own j e = ground (arith, eq_iff j id)
