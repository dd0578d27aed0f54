-- ===== src/Tests/Samples.antt =====
-- A platform, and receipts, requests and deliveries that the tests share.
use cashu_fault_lab.Common.{
  ℕ, String, true, false, none, some, List, [], ◌∷◌, nat, end, field, number, string, replicate,
}
use cashu_fault_lab.Delivery.Platform.{Platform, Url}
use cashu_fault_lab.Delivery.Fingerprint.{CashuProof}
use cashu_fault_lab.Delivery.Receipt.{DeliveryReceipt, processing}
use cashu_fault_lab.Receiver.Types.{
  CreatePaymentRequest, AcceptDeliveryCommand, ExactSwapPlan, PrepareDelivery, CommitSettlement,
}
use cashu_fault_lab.Receiver.Safety.Runs.{
  Call, call_create, call_prepare, call_mark_mint_sent, call_record_redemption_start, call_settle,
}

-- one mint, and a codec that knows one ID
abbrev pub url : Url
url = record {
  protocol = "https:";
  username = "";
  password = "";
  search = "";
  hash = "";
  hostname = "mint.example";
  host = "mint.example";
  pathname = "/";
}

abbrev pub sixteen : List ℕ
sixteen = replicate 16 0

abbrev pub platform : Platform
platform = record {
  round = λ z. z;
  parse_url = λ _. some url;
  set_hostname = λ u _. u;
  to_lower_case = λ s. s;
  decode_base64url = λ _. sixteen;
  encode_base64url = λ _. "AAAAAAAAAAAAAAAAAAAAAA";
}

abbrev pub id : String
id = "AAAAAAAAAAAAAAAAAAAAAA"

abbrev pub hash : String
hash = "0123456789abcdef0123456789abcdef0123456789abcdef0123456789abcdef"

abbrev pub mint : String
mint = "https://mint.example"

abbrev pub accepted : DeliveryReceipt
accepted = record {
  profile = "cashu-delivery-v1";
  request_id = id;
  delivery_id = id;
  payload_hash = hash;
  status = processing;
  status_version = 1;
  mint = mint;
  unit = "sat";
  amount = 8;
  detail_code = "accepted";
}

abbrev pub redeeming : DeliveryReceipt
redeeming = record accepted { status_version = 2; detail_code = "redeeming" }

abbrev pub request : CreatePaymentRequest
request = record {
  id = id;
  amount = nat 8;
  unit = "sat";
  mints = mint ∷ [];
  single_use = true;
  expires_at = nat 1000;
}

abbrev pub proof : CashuProof
proof =
    field "amount" (number (nat 8))
      (field "id" (string "k") (field "secret" (string "s") (field "C" (string "c") end)))

abbrev pub command : AcceptDeliveryCommand
command = record {
  payload = record {
    id = id;
    memo = none;
    mint = mint;
    unit = "sat";
    proofs = proof ∷ [];
    delivery = record { id = id; created_at = 500; expires_at = 1000 };
  };
  payload_hash = hash;
}

abbrev pub plan : ExactSwapPlan
plan = record {
  draft = record {
    delivery_id = id;
    mint = mint;
    unit = "sat";
    expected_amount = 8;
    input_proofs = proof ∷ [];
    proof_ys = "y" ∷ [];
  };
  keyset_id = "k";
  input_fee_ppk = nat 0;
  outputs = [];
  serialized_request = "{}";
  prepared_at = nat 600;
  recovery = record { nut09 = true; nut19_replay = false; nut19_replay_until = none };
}

abbrev pub preparation : PrepareDelivery
preparation = record {
  command = command;
  proof_set_hash = "set";
  proof_claim_ids = "claim" ∷ [];
  proof_ys = "y" ∷ [];
  net_amount = 8;
  plan = plan;
  now = nat 600;
}

abbrev pub settlement : CommitSettlement
settlement = record {
  delivery_id = id;
  replacement_plan_hash = "plan";
  replacement_proofs = "p" ∷ [];
  now = nat 601;
}

-- a payment from its request to its settlement
abbrev pub payment : List Call
payment =
    call_create request
    ∷ call_prepare preparation
    ∷ call_mark_mint_sent id
    ∷ call_record_redemption_start id
    ∷ call_settle settlement
    ∷ []
