-- ===== src/Doctor/Reconstruct.antt =====
-- packages/wallet-doctor-core/src/reconstruct.ts: what an application reads of a wallet from one relay,
-- and what remains when the relays are merged. A Set is the list of its members in the order of
-- insertion; `localeCompare` is a parameter, since it depends on the locale.
use cashu_fault_lab.Common.{
  ℕ, String, Bool, true, false, not, ◌&&◌, ◌||◌, ◌==◌, ltb, str_eq, codes, codes_le, includes, sort,
  Option, none, some, List, [], ◌∷◌, ◌++◌, map, any, filter, flat_map, Map, get, put, values,
  if◌then◌else◌,
}
use cashu_fault_lab.Doctor.Types.{
  ProofView, TokenEventView, WalletEventView, DeletionView, RelayStatus, RelayObservation,
}
use cashu_fault_lab.Doctor.Plan.{sum_tokens}

pub record RelayView : Type 0 where
  pub url : String
  pub status : RelayStatus
  pub wallet_event : Option WalletEventView
  pub live_tokens : List TokenEventView
  pub balance : ℕ

pub record DuplicateProof : Type 0 where
  pub y : String
  pub amount : ℕ
  pub event_ids : List String

pub record OrphanCandidate : Type 0 where
  pub y : String
  pub keyset_id : String
  pub amount : ℕ
  pub mint : String
  pub last_seen_in : List String

pub record MergedView : Type 0 where
  pub wallet_event : Option WalletEventView
  pub live_tokens : List TokenEventView
  pub naive_live_tokens : List TokenEventView
  pub balance : ℕ
  pub naive_balance : ℕ
  pub double_counted : ℕ
  pub duplicate_proofs : List DuplicateProof
  pub superseded_anywhere : List String
  pub orphan_candidates : List OrphanCandidate

-- mintProofKey: the two parts of the key
abbrev pub ProofKey : Type 0
ProofKey = String × String

unfoldable pub mint_proof_key : String → String → ProofKey
mint_proof_key mint y = (mint, y)

unfoldable pub same_key : ProofKey → ProofKey → Bool
same_key (m, y) (n, z) = str_eq m n && str_eq y z

unfoldable pub has_key : List ProofKey → ProofKey → Bool
has_key ks k = any (λ j. same_key j k) ks

unfoldable pub proof_keys : TokenEventView → List ProofKey
proof_keys t = map (λ (p : ProofView). mint_proof_key t.mint p.y) t.proofs

-- an event with the relays that served it
pub record EventView (A : Type 0) : Type 0 where
  pub id_of : A → String
  pub seen : A → List String
  pub with_seen : A → List String → A

instance abbrev pub token_view : EventView TokenEventView
token_view = record {
  id_of = λ t. t.event_id;
  seen = λ t. t.seen_on;
  with_seen = λ t urls. record t { seen_on = urls };
}

instance abbrev pub wallet_view : EventView WalletEventView
wallet_view = record {
  id_of = λ w. w.event_id;
  seen = λ w. w.seen_on;
  with_seen = λ w urls. record w { seen_on = urls };
}

-- set.add(x) for each x
unfoldable pub add_each : List String → List String → List String
add_each set [] = set
add_each set (x ∷ xs) = add_each (if includes set x then set else set ++ (x ∷ [])) xs

module _ {A : Type 0} ⦃view : EventView A⦄ where
  unfoldable pub add_event : Map (A × List String) → A → Map (A × List String)
  add_event by_id event = elim (get by_id (view.id_of event)) [
    | some (first, urls) ↦ put by_id (view.id_of event) (first, add_each urls (view.seen event))
    | none ↦ put by_id (view.id_of event) (event, add_each [] (view.seen event))
  ]

  unfoldable pub add_events : Map (A × List String) → List A → Map (A × List String)
  add_events by_id [] = by_id
  add_events by_id (e ∷ es) = add_events (add_event by_id e) es

  unfoldable pub seen_by : A × List String → A
  seen_by (event, urls) = view.with_seen event (sort urls)

  unfoldable pub dedupe_events : List A → List A
  dedupe_events events = map seen_by (values (add_events [] events))

-- `event` before `latest`: newer, or as old with a smaller ID
unfoldable pub supplants : WalletEventView → WalletEventView → Bool
supplants event latest =
    ltb latest.created_at event.created_at
    || (event.created_at == latest.created_at
        && not (codes_le (codes latest.event_id) (codes event.event_id)))

unfoldable pub newer_of : Option WalletEventView → WalletEventView → Option WalletEventView
newer_of none event = some event
newer_of (some latest) event = if supplants event latest then some event else some latest

unfoldable pub latest_from : Option WalletEventView → List WalletEventView → Option WalletEventView
latest_from latest [] = latest
latest_from latest (e ∷ es) = latest_from (newer_of latest e) es

unfoldable pub latest_wallet_event : List WalletEventView → Option WalletEventView
latest_wallet_event events = latest_from none events

unfoldable pub targets_of : List DeletionView → List String
targets_of deletions = flat_map (λ (d : DeletionView). d.targets) deletions

-- the tokens that a relay serves, and serves no deletion for
unfoldable pub live_here : RelayObservation → List TokenEventView
live_here relay =
    filter (λ (t : TokenEventView). not (includes (targets_of relay.deletions) t.event_id))
      relay.tokens

unfoldable pub read_relay : RelayStatus → RelayObservation → RelayView
read_relay RelayStatus.error relay = record {
  url = relay.url;
  status = RelayStatus.error;
  wallet_event = none;
  live_tokens = [];
  balance = 0;
}
read_relay RelayStatus.ok relay = record {
  url = relay.url;
  status = RelayStatus.ok;
  wallet_event = latest_wallet_event relay.wallet;
  live_tokens = live_here relay;
  balance = sum_tokens (live_here relay);
}

unfoldable pub reconstruct_relay : RelayObservation → RelayView
reconstruct_relay relay = read_relay relay.status relay

unfoldable pub is_ok : RelayStatus → Bool
is_ok RelayStatus.ok = true
is_ok RelayStatus.error = false

unfoldable pub ok_relays : List RelayObservation → List RelayObservation
ok_relays relays = filter (λ (r : RelayObservation). is_ok r.status) relays

unfoldable pub all_tokens : List RelayObservation → List TokenEventView
all_tokens relays = dedupe_events (flat_map (λ (r : RelayObservation). r.tokens) (ok_relays relays))

unfoldable pub all_wallet : List RelayObservation → List WalletEventView
all_wallet relays = dedupe_events (flat_map (λ (r : RelayObservation). r.wallet) (ok_relays relays))

unfoldable pub deleted_anywhere : List RelayObservation → List String
deleted_anywhere relays =
    flat_map (λ (r : RelayObservation). targets_of r.deletions) (ok_relays relays)

unfoldable pub superseded_anywhere : List RelayObservation → List String
superseded_anywhere relays = flat_map (λ (t : TokenEventView). t.del) (all_tokens relays)

unfoldable pub is_live : List RelayObservation → TokenEventView → Bool
is_live relays t =
    not (includes (deleted_anywhere relays) t.event_id)
    && not (includes (superseded_anywhere relays) t.event_id)

unfoldable pub merged_live : List RelayObservation → List TokenEventView
merged_live relays = filter (is_live relays) (all_tokens relays)

unfoldable pub naive_live : List RelayObservation → List TokenEventView
naive_live relays =
    dedupe_events
      (flat_map (λ (r : RelayObservation). (reconstruct_relay r).live_tokens) (ok_relays relays))
