-- ===== src/Tests/Addresses.antt =====
-- Addresses, the change of their payloads, and the exchange of operations.
use bitcoin_antithesis.Prelude.{ℕ, ◌≡◌, List, [], ◌∷◌, All, length, inr, arith}
use bitcoin_antithesis.Addr.{id, from_id, unknown, expected_payload_len, tor_v3}
use bitcoin_antithesis.Addr.Ids.{id-from_id, from_id-id}
use bitcoin_antithesis.Operation.{add_txid_inv}
use bitcoin_antithesis.Mutator.Parameters.{replacements, mutate_addr_payload}
use bitcoin_antithesis.Mutator.Parameters.Kept.{
  IsLike, FitsNetwork, replacements-IsLike, mutate_addr_payload-FitsNetwork,
}

id-from_id_example : id (from_id 6) ≡ 6
id-from_id_example = id-from_id 6

from_id-id_example : from_id (id (unknown 42)) ≡ unknown 42
from_id-id_example = from_id-id (unknown 42) (inr (omega arith))

replacements-IsLike_example : All (IsLike add_txid_inv) (replacements add_txid_inv)
replacements-IsLike_example = replacements-IsLike add_txid_inv

-- A byte mutator that puts a byte in front.
abbrev longer : List ℕ → List ℕ
longer bytes = 255 ∷ bytes

abbrev as_it_is : List ℕ → List ℕ
as_it_is bytes = bytes

mutate_addr_payload-FitsNetwork_example :
    FitsNetwork
      (expected_payload_len tor_v3)
      (length (mutate_addr_payload 7 as_it_is longer tor_v3 (1 ∷ 2 ∷ 3 ∷ [])))
mutate_addr_payload-FitsNetwork_example =
    mutate_addr_payload-FitsNetwork 7 as_it_is longer tor_v3 (1 ∷ 2 ∷ 3 ∷ [])
