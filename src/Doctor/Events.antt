-- ===== src/Doctor/Events.antt =====
-- The events of a capture without repetition: each ID stands for one event, and is found.
use mathlib.Core.Path.{subst}
use cashu_fault_lab.Common.{
  String, Bool, true, false, ◌≡◌, refl, sym, ◌∙◌, arith, eq_iff, str_eq, str_eq_refl, Bool-cases,
  Option-cases, inl, inr, none, some, List, [], ◌∷◌, map, All, Member, here, there, filter,
  Member-filter, Map, get, has, put, values, get-put, ◌||◌, includes, includes-map, Member-map,
  Member-flat_map, flat_map-Member, get-empty,
}
use cashu_fault_lab.Doctor.Types.{TokenEventView, RelayStatus, RelayObservation}
use cashu_fault_lab.Doctor.Plan.{index_tokens}
use cashu_fault_lab.Doctor.Reconstruct.{
  token_view, add_event, add_events, seen_by, dedupe_events, all_tokens, merged_live, naive_live,
  ok_relays, read_relay, live_here, reconstruct_relay,
}

abbrev Seen : Type 0
Seen = TokenEventView × List String

-- No event has this ID.
abbrev Lacks : String → List TokenEventView → Type 0
Lacks id ts = All (λ (t : TokenEventView). str_eq t.event_id id ≡ false) ts

pub Distinct : List TokenEventView → Type 0
Distinct [] = Unit
Distinct (t ∷ ts) = Lacks t.event_id ts × Distinct ts

-- Each entry stands under its ID, and under no other key.
Indexed : Map Seen → Type 0
Indexed [] = Unit
Indexed ((k, v) ∷ m) = (v.0.event_id ≡ k) × (get m k ≡ none) × Indexed m

get-Indexed :
    (m : Map Seen) (k : String) (v : Seen) → Indexed m → get m k ≡ some v → v.0.event_id ≡ k
unfolding Indexed get
get-Indexed [] k v h e = absurd (cc)
get-Indexed ((j, w) ∷ m) k v h e = elim (Bool-cases (str_eq j k)) [
  | inl hit ↦ ground (arith, eq_iff j k)
  | inr miss ↦ get-Indexed m k v h.2 (ground arith)
]

put-Indexed :
    (m : Map Seen) (k : String) (v : Seen) → v.0.event_id ≡ k → Indexed m → Indexed (put m k v)
unfolding Indexed put
put-Indexed [] k v e h = (e, get-empty k, tt)
put-Indexed ((j, w) ∷ m) k v e h = elim (Bool-cases (str_eq j k)) [
  | inl hit ↦ rw hit (ground (arith, eq_iff j k), h.1, h.2)
  | inr miss ↦
      rw miss
        (h.0, ground (arith, get-put m k v j, eq_iff j k, eq_iff k j), put-Indexed m k v e h.2)
]

add_event-Indexed : (m : Map Seen) (t : TokenEventView) → Indexed m → Indexed (add_event m t)
unfolding add_event
add_event-Indexed m t h = elim (Option-cases (get m t.event_id)) [
  | inl e ↦ rw (e, add_event) (put-Indexed m t.event_id _ refl h)
  | inr (v, e) ↦ rw (e, add_event) (put-Indexed m t.event_id _ (get-Indexed m t.event_id v h e) h)
]

add_events-Indexed :
    (m : Map Seen) (ts : List TokenEventView) → Indexed m → Indexed (add_events m ts)
unfolding add_events
add_events-Indexed m [] h = h
add_events-Indexed m (t ∷ ts) h = add_events-Indexed (add_event m t) ts (add_event-Indexed m t h)

values-Lacks :
    (m : Map Seen) (k : String) → Indexed m → get m k ≡ none → Lacks k (map seen_by (values m))
unfolding Indexed get values seen_by
values-Lacks [] k h e = tt
values-Lacks ((j, v) ∷ m) k h e = elim (Bool-cases (str_eq j k)) [
  | inl hit ↦ absurd (ground arith)
  | inr miss ↦ (subst (λ z. str_eq z k ≡ false) (sym h.0) miss, values-Lacks m k h.2 (ground arith))
]

values-Distinct : (m : Map Seen) → Indexed m → Distinct (map seen_by (values m))
unfolding Indexed values seen_by Distinct
values-Distinct [] h = tt
values-Distinct ((j, v) ∷ m) h =
    (values-Lacks m v.0.event_id h.2 (rw h.0 h.1), values-Distinct m h.2)

pub all_tokens-Distinct : (relays : List RelayObservation) → Distinct (all_tokens relays)
unfolding all_tokens dedupe_events Indexed
all_tokens-Distinct relays = values-Distinct _ (add_events-Indexed [] _ tt)

filter-Lacks :
    (p : TokenEventView → Bool) (k : String) (ts : List TokenEventView)
    → Lacks k ts
    → Lacks k (filter p ts)
filter-Lacks p k [] h = tt
filter-Lacks p k (t ∷ ts) h = elim (Bool-cases (p t)) [
  | inl keep ↦ rw (keep, filter) (h.0, filter-Lacks p k ts h.1)
  | inr drop ↦ rw (drop, filter) (filter-Lacks p k ts h.1)
]

filter-Distinct :
    (p : TokenEventView → Bool) (ts : List TokenEventView) → Distinct ts → Distinct (filter p ts)
unfolding Distinct
filter-Distinct p [] h = tt
filter-Distinct p (t ∷ ts) h = elim (Bool-cases (p t)) [
  | inl keep ↦ rw (keep, filter) (filter-Lacks p t.event_id ts h.0, filter-Distinct p ts h.1)
  | inr drop ↦ rw (drop, filter) (filter-Distinct p ts h.1)
]

pub merged_live-Distinct : (relays : List RelayObservation) → Distinct (merged_live relays)
unfolding merged_live
merged_live-Distinct relays = filter-Distinct _ _ (all_tokens-Distinct relays)

pub merged_live-Member :
    (relays : List RelayObservation) {t : TokenEventView}
    → Member t (merged_live relays)
    → Member t (all_tokens relays)
unfolding merged_live
merged_live-Member relays m = (Member-filter _ (all_tokens relays) m).0

index-Lacks :
    (ts : List TokenEventView) (m : Map TokenEventView) (k : String)
    → Lacks k ts
    → get (index_tokens ts m) k ≡ get m k
unfolding index_tokens
index-Lacks [] m k h = refl
index-Lacks (t ∷ ts) m k h =
    index-Lacks ts (put m t.event_id t) k h.1 ∙ rw (get-put m t.event_id t k, h.0) refl

pub get-index_tokens :
    (ts : List TokenEventView) (m : Map TokenEventView) {t : TokenEventView}
    → Distinct ts
    → Member t ts
    → get (index_tokens ts m) t.event_id ≡ some t
unfolding index_tokens Distinct
get-index_tokens [] m h n = elim n [ ]
get-index_tokens (t ∷ ts) m h here =
    index-Lacks ts (put m t.event_id t) t.event_id h.0
    ∙ rw (get-put m t.event_id t t.event_id, str_eq_refl t.event_id) refl
get-index_tokens (u ∷ ts) m h (there n) = get-index_tokens ts (put m u.event_id u) h.1 n

-- the IDs of events
abbrev pub ids_of : List TokenEventView → List String
ids_of ts = map (λ (t : TokenEventView). t.event_id) ts

has-put :
    {V : Type 0} (m : Map V) (k : String) (v : V) (j : String)
    → has (put m k v) j ≡ (str_eq k j || has m j)
has-put m k v j = ground (arith, get-put m k v j)

has-add_event :
    (m : Map Seen) (t : TokenEventView) (id : String)
    → has (add_event m t) id ≡ (str_eq t.event_id id || has m id)
unfolding add_event
has-add_event m t id = elim (Option-cases (get m t.event_id)) [
  | inl e ↦ rw (e, add_event) (has-put m t.event_id _ id)
  | inr (v, e) ↦ rw (e, add_event) (has-put m t.event_id _ id)
]

has-add_events :
    (m : Map Seen) (ts : List TokenEventView) (id : String)
    → has (add_events m ts) id ≡ (has m id || includes (ids_of ts) id)
unfolding add_events
has-add_events m [] id = ground arith
has-add_events m (t ∷ ts) id =
    ground (arith, has-add_event m t id, has-add_events (add_event m t) ts id)

includes-values :
    (m : Map Seen) (id : String)
    → Indexed m
    → includes (ids_of (map seen_by (values m))) id ≡ has m id
unfolding Indexed values seen_by get
includes-values [] id h = refl
includes-values ((k, v) ∷ m) id h = ground (arith, includes-values m id h.2, h.0)

includes-dedupe_events :
    (ts : List TokenEventView) (id : String)
    → includes (ids_of (dedupe_events ts)) id ≡ includes (ids_of ts) id
unfolding dedupe_events Indexed
includes-dedupe_events ts id =
    includes-values (add_events [] ts) id (add_events-Indexed [] ts tt)
    ∙ (has-add_events [] ts id ∙ rw (get-empty id) refl)

has-index_tokens :
    (ts : List TokenEventView) (m : Map TokenEventView) (id : String)
    → has (index_tokens ts m) id ≡ (has m id || includes (ids_of ts) id)
unfolding index_tokens
has-index_tokens [] m id = ground arith
has-index_tokens (t ∷ ts) m id =
    ground (arith, has-put m t.event_id t id, has-index_tokens ts (put m t.event_id t) id)

served :
    (status : RelayStatus) (r : RelayObservation) {t : TokenEventView}
    → Member t (read_relay status r).live_tokens
    → Member t r.tokens
unfolding read_relay live_here
served RelayStatus.error r m = elim m [ ]
served RelayStatus.ok r m = (Member-filter _ r.tokens m).0

-- What one relay serves as live was captured.
pub naive_live-captured :
    (relays : List RelayObservation) (id : String)
    → includes (ids_of (naive_live relays)) id ≡ true
    → has (index_tokens (all_tokens relays) []) id ≡ true
unfolding naive_live all_tokens reconstruct_relay
naive_live-captured relays id e =
    let (t, m, name) =
      includes-map (λ (t : TokenEventView). t.event_id) _ id
        (sym (includes-dedupe_events _ id) ∙ e) in
    let (r, n, live) = Member-flat_map _ (ok_relays relays) m in
    let all =
      flat_map-Member (λ (r : RelayObservation). r.tokens) (ok_relays relays) n
        (served r.status r live) in
    let found = Member-map (λ (t : TokenEventView). t.event_id) _ all in
    has-index_tokens _ [] id ∙ rw (get-empty id, includes-dedupe_events, ← name) found

pub merged_live-captured :
    (relays : List RelayObservation) (id : String)
    → includes (ids_of (merged_live relays)) id ≡ true
    → has (index_tokens (all_tokens relays) []) id ≡ true
merged_live-captured relays id e =
    let (t, m, name) =
      includes-map (λ (t : TokenEventView). t.event_id) (merged_live relays) id e in
    has-index_tokens (all_tokens relays) [] id
    ∙ rw (get-empty id, ← name)
        (Member-map (λ (t : TokenEventView). t.event_id) (all_tokens relays)
          (merged_live-Member relays m))
