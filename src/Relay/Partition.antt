-- ===== src/Relay/Partition.antt =====
-- apps/nostr-fault-relay/src/rules.ts: the partition of the relay's history.
use cashu_fault_lab.Common.{
  ℕ, String, List, [], ◌∷◌, length, nat, leb, is_hash, Value, Items, undefined, number, string,
  array, object, nil, cons, property, if◌then◌else◌, ok, err, ◌>>=◌, ◌>>◌, ensure,
}
use cashu_fault_lab.Relay.Rules.{Valid}

pub record NostrHistoryPartition : Type 0 where
  pub event_ids : List String
  pub kinds : List ℕ
  pub authors : List String

-- candidate[key], where a missing list is empty
unfoldable pub list_of : Value → Valid Items
list_of undefined = ok nil
list_of (array items) = ok items
list_of _ = err tt

unfoldable pub hex_of : Value → Valid String
hex_of (string s) = if is_hash s then ok s else err tt
hex_of _ = err tt

unfoldable pub kind_of : Value → Valid ℕ
kind_of (number (nat n)) = if leb n 65535 then ok n else err tt
kind_of _ = err tt

unfoldable pub every : {A : Type 0} → (Value → Valid A) → Items → Valid (List A)
every check nil = ok []
every check (cons v vs) = do a ← check v; as' ← every check vs; ok (a ∷ as')

unfoldable pub list_at : {A : Type 0} → (Value → Valid A) → ℕ → Value → Valid (List A)
list_at check most value = do
  items ← list_of value
  xs ← every check items
  ensure (leb (length xs) most) tt
  ok xs

unfoldable pub validate_partition : Value → Valid NostrHistoryPartition
validate_partition (object fields) = do
  event_ids ← list_at hex_of 100000 (property fields "eventIds")
  kinds ← list_at kind_of 1024 (property fields "kinds")
  authors ← list_at hex_of 1024 (property fields "authors")
  ok (record { event_ids = event_ids; kinds = kinds; authors = authors })
validate_partition _ = err tt
