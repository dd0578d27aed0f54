-- ===== src/Doctor/Diagnose.antt =====
-- packages/wallet-doctor-oracle/src/diagnose.ts: the rules about the events around the tokens, and the
-- diagnosis.
use Prim.Native.Nat.{Ordering, compare}
use cashu_fault_lab.Common.{
  ℕ, String, Bool, true, false, not, ◌&&◌, ◌||◌, ◌==◌, ltb, str_eq, is_blank, includes, unique,
  sort, is_some, is_empty, Option, none, some, List, [], ◌∷◌, ◌++◌, map, any, all, length, filter,
  flat_map, if◌then◌else◌,
}
use cashu_fault_lab.Doctor.Types.{
  TokenEventView, WalletEventView, DeletionView, HistoryEventView, QuoteEventView,
  MalformedEventView, RelayObservation, DoctorObservation,
}
use cashu_fault_lab.Doctor.Reconstruct.{RelayView, MergedView, is_ok, ok_relays, targets_of}
use cashu_fault_lab.Doctor.Merge.{sort_by, reconstruct}
use cashu_fault_lab.Doctor.Explain.{BalanceExplanation, explain_balance}
use cashu_fault_lab.Doctor.Findings.{
  DiagnosisCode, relay_partition, ghost_token, orphaned_proofs, del_chain_break, wallet_event_fork,
  deletion_not_propagated, history_gap, quote_limbo, malformed_event, Severity, error, warning,
  info, Finding, relay_partitions, ghost_tokens, find_orphans, serves, del_chain_breaks,
}

unfoldable pub fork : List String → List String → Finding
fork relays event_ids = record {
  code = wallet_event_fork;
  severity = error;
  relays = relays;
  event_ids = event_ids;
  ys = [];
  mint = none;
  amount_at_risk = 0;
}

-- the ID of another wallet event than the global one
unfoldable pub stale_id : WalletEventView → RelayView → Option String
stale_id global view = elim view.wallet_event [
  | none ↦ none
  | some event ↦
      if is_ok view.status && not (str_eq event.event_id global.event_id)
      then some event.event_id
      else none
]

unfoldable pub listed : Option String → List String
listed none = []
listed (some s) = s ∷ []

unfoldable pub wallet_id : RelayView → List String
wallet_id view = elim view.wallet_event [ none ↦ [] | some event ↦ event.event_id ∷ [] ]

unfoldable pub stale_forks : WalletEventView → List RelayView → List Finding
stale_forks global per_relay =
    let stale = sort (
      map (λ (v : RelayView). v.url)
        (filter (λ (v : RelayView). is_some (stale_id global v)) per_relay)) in
    let stale_ids = sort (
      filter (λ (id : String). not (is_blank id))
        (flat_map wallet_id (filter (λ (v : RelayView). includes stale v.url) per_relay))) in
    if is_empty stale then [] else fork stale (global.event_id ∷ stale_ids) ∷ []

unfoldable pub missing_forks : WalletEventView → List RelayObservation → List String → List Finding
missing_forks global relays ok_urls =
    let missing = sort (
      map (λ (r : RelayObservation). r.url)
        (filter (λ (r : RelayObservation). is_empty r.wallet) (ok_relays relays))) in
    if not (is_empty missing) && ltb (length missing) (length ok_urls)
    then fork missing (global.event_id ∷ []) ∷ []
    else []

unfoldable pub wallet_event_forks :
    List RelayObservation → List RelayView → Option WalletEventView → List String → List Finding
wallet_event_forks relays per_relay none ok_urls =
    if is_empty ok_urls then [] else fork ok_urls [] ∷ []
wallet_event_forks relays per_relay (some global) ok_urls =
    stale_forks global per_relay ++ missing_forks global relays ok_urls

unfoldable pub undeleted :
    MergedView → List RelayView → RelayObservation → String → String → List Finding
undeleted merged per_relay relay deletion_id target =
    let live_on = sort (
      map (λ (v : RelayView). v.url)
        (filter (λ (v : RelayView). not (str_eq v.url relay.url) && serves target v) per_relay)) in
    if includes merged.superseded_anywhere target
      || any (λ (t : TokenEventView). str_eq t.event_id target) merged.live_tokens
      || is_empty live_on
    then []
    else (record {
      code = deletion_not_propagated;
      severity = warning;
      relays = relay.url ∷ live_on;
      event_ids = deletion_id ∷ target ∷ [];
      ys = [];
      mint = none;
      amount_at_risk = 0;
    })
      ∷ []

-- finding.eventIds[1] ?? ''
unfoldable pub second_id : List String → String
second_id (a ∷ b ∷ ids) = b
second_id (a ∷ []) = ""
second_id [] = ""

-- the first finding for each target
unfoldable pub first_each : List String → List Finding → List Finding
first_each found [] = []
first_each found (f ∷ fs) =
    let key = second_id f.event_ids in
    let kept = f ∷ first_each (key ∷ found) fs in
    let rest = first_each found fs in if includes found key then rest else kept

unfoldable pub deletions_not_propagated :
    List RelayObservation → MergedView → List RelayView → List Finding
deletions_not_propagated relays merged per_relay = first_each [] (
    flat_map
      (λ (relay : RelayObservation).
        flat_map
          (λ (d : DeletionView). flat_map (undeleted merged per_relay relay d.event_id) d.targets)
          relay.deletions)
      (ok_relays relays))

unfoldable pub known_ids : List RelayObservation → List String
known_ids relays =
    flat_map
      (λ (r : RelayObservation).
        map (λ (t : TokenEventView). t.event_id) r.tokens ++ targets_of r.deletions)
      (ok_relays relays)

unfoldable pub unknown_ids : List RelayObservation → List String
unknown_ids relays = unique (
    filter (λ (id : String). not (includes (known_ids relays) id))
      (flat_map
        (λ (r : RelayObservation).
          flat_map (λ (h : HistoryEventView). h.created ++ (h.destroyed ++ h.redeemed)) r.history)
        (ok_relays relays)))

unfoldable pub notice : DiagnosisCode → List String → List Finding
notice code [] = []
notice code (id ∷ ids) =
    (record {
      code = code;
      severity = info;
      relays = [];
      event_ids = sort (id ∷ ids);
      ys = [];
      mint = none;
      amount_at_risk = 0;
    })
    ∷ []

unfoldable pub history_gaps : List RelayObservation → List Finding
history_gaps relays = notice history_gap (unknown_ids relays)

unfoldable pub is_pending : ℕ → QuoteEventView → Bool
is_pending now q = elim q.expiration [ none ↦ true | some expiration ↦ ltb now expiration ]

unfoldable pub quotes_in_limbo : List RelayObservation → ℕ → List Finding
quotes_in_limbo relays now = notice quote_limbo (
    unique (
      map (λ (q : QuoteEventView). q.event_id)
        (filter (is_pending now)
          (flat_map (λ (r : RelayObservation). r.quotes) (ok_relays relays)))))

unfoldable pub is_critical : Option ℕ → Bool
is_critical none = false
is_critical (some kind) = kind == 17375 || kind == 7375

unfoldable pub malformed_finding : String → MalformedEventView → Finding
malformed_finding url m = record {
  code = malformed_event;
  severity = if is_critical m.kind then error else warning;
  relays = url ∷ [];
  event_ids = listed m.event_id;
  ys = [];
  mint = none;
  amount_at_risk = 0;
}

unfoldable pub malformed_events : List RelayObservation → List Finding
malformed_events relays =
    flat_map (λ (r : RelayObservation). map (malformed_finding r.url) r.malformed) relays

pub record Diagnosis : Type 0 where
  pub subject : String
  pub findings : List Finding
  pub balance : BalanceExplanation
  pub ok : Bool

unfoldable pub severity_order : Severity → ℕ
severity_order error = 0
severity_order warning = 1
severity_order info = 2

unfoldable pub code_text : DiagnosisCode → String
code_text relay_partition = "RELAY_PARTITION"
code_text ghost_token = "GHOST_TOKEN"
code_text orphaned_proofs = "ORPHANED_PROOFS"
code_text del_chain_break = "DEL_CHAIN_BREAK"
code_text wallet_event_fork = "WALLET_EVENT_FORK"
code_text deletion_not_propagated = "DELETION_NOT_PROPAGATED"
code_text history_gap = "HISTORY_GAP"
code_text quote_limbo = "QUOTE_LIMBO"
code_text malformed_event = "MALFORMED_EVENT"

unfoldable pub first_text : List String → String
first_text [] = ""
first_text (s ∷ ss) = s

-- the first comparison that is not equal
unfoldable pub or_then : Ordering → Ordering → Ordering
or_then Ordering.lt next = Ordering.lt
or_then Ordering.gt next = Ordering.gt
or_then Ordering.eq next = next

unfoldable pub is_error : Finding → Bool
is_error f = elim f.severity [ error ↦ true | warning ↦ false | info ↦ false ]

module _ (locale_compare : String → String → Ordering) where
  unfoldable pub compare_findings : Finding → Finding → Ordering
  compare_findings a b = or_then (compare (severity_order a.severity) (severity_order b.severity)) (
      or_then (locale_compare (code_text a.code) (code_text b.code)) (
        or_then (locale_compare (first_text a.event_ids) (first_text b.event_ids))
          (locale_compare (first_text a.ys) (first_text b.ys))))

  unfoldable pub all_findings : DoctorObservation → ℕ → List Finding
  all_findings observation now =
      let view = reconstruct locale_compare observation in
      let ok_urls = sort (map (λ (r : RelayObservation). r.url) (ok_relays observation.relays)) in
      relay_partitions view.merged ok_urls
      ++ (ghost_tokens view.merged observation.mint
          ++ (find_orphans locale_compare view.merged observation.mint
              ++ (del_chain_breaks view.merged view.per_relay
                  ++ (wallet_event_forks observation.relays view.per_relay view.merged.wallet_event
                        ok_urls
                      ++ (deletions_not_propagated observation.relays view.merged view.per_relay
                          ++ (history_gaps observation.relays
                              ++ (quotes_in_limbo observation.relays now
                                  ++ malformed_events observation.relays)))))))

  -- `now` is 0 where the options have none.
  unfoldable pub diagnose : DoctorObservation → ℕ → Diagnosis
  diagnose observation now =
      let view = reconstruct locale_compare observation in
      record {
        subject = observation.subject;
        findings = sort_by compare_findings (all_findings observation now);
        balance = explain_balance view.per_relay view.merged observation.mint;
        ok = all (λ (f : Finding). not (is_error f)) (all_findings observation now);
      }
