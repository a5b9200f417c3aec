-- ===== src/Variable.antt =====
-- The variable types of the IR: workloads/ir-workload/fuzzamoto-ir/src/variable.rs.
use bitcoin_antithesis.Prelude.{
  ℕ, ◌≡◌, refl, ap, Bool, true, false, List, [], ◌∷◌, arith, get_or, ◌==◌, ==_iff,
}

pub data Variable : Type 0 where
  nop : Variable
  bytes : Variable
  msg_type : Variable
  node : Variable
  connection : Variable
  connection_type : Variable
  duration : Variable
  handshake_params : Variable
  addr_record : Variable
  mut_addr_list : Variable
  const_addr_list : Variable
  mut_addr_list_v2 : Variable
  const_addr_list_v2 : Variable
  time : Variable
  size : Variable
  block_height : Variable
  compact_filter_type : Variable
  scripts : Variable
  mut_witness_stack : Variable
  const_witness_stack : Variable
  private_key : Variable
  sig_hash_flags : Variable
  txo : Variable
  mut_tx : Variable
  const_tx : Variable
  mut_tx_inputs : Variable
  const_tx_inputs : Variable
  mut_tx_outputs : Variable
  const_tx_outputs : Variable
  const_amount : Variable
  compact_block : Variable
  nonce : Variable
  tx_version : Variable
  lock_time : Variable
  sequence : Variable
  mut_inventory : Variable
  const_inventory : Variable
  mut_block_transactions : Variable
  const_block_transactions : Variable
  block : Variable
  header : Variable
  block_version : Variable
  mut_filter_load : Variable
  const_filter_load : Variable
  filter_add : Variable
  coinbase_input : Variable
  coinbase_tx : Variable
  mut_block_txn : Variable
  const_block_txn : Variable
  const_coinbase_tx : Variable
  taproot_spend_info : Variable
  taproot_annex : Variable

-- The discriminant, which is what the derived `PartialEq` compares.
unfoldable pub discriminant : Variable → ℕ
discriminant nop = 0
discriminant bytes = 1
discriminant msg_type = 2
discriminant node = 3
discriminant connection = 4
discriminant connection_type = 5
discriminant duration = 6
discriminant handshake_params = 7
discriminant addr_record = 8
discriminant mut_addr_list = 9
discriminant const_addr_list = 10
discriminant mut_addr_list_v2 = 11
discriminant const_addr_list_v2 = 12
discriminant time = 13
discriminant size = 14
discriminant block_height = 15
discriminant compact_filter_type = 16
discriminant scripts = 17
discriminant mut_witness_stack = 18
discriminant const_witness_stack = 19
discriminant private_key = 20
discriminant sig_hash_flags = 21
discriminant txo = 22
discriminant mut_tx = 23
discriminant const_tx = 24
discriminant mut_tx_inputs = 25
discriminant const_tx_inputs = 26
discriminant mut_tx_outputs = 27
discriminant const_tx_outputs = 28
discriminant const_amount = 29
discriminant compact_block = 30
discriminant nonce = 31
discriminant tx_version = 32
discriminant lock_time = 33
discriminant sequence = 34
discriminant mut_inventory = 35
discriminant const_inventory = 36
discriminant mut_block_transactions = 37
discriminant const_block_transactions = 38
discriminant block = 39
discriminant header = 40
discriminant block_version = 41
discriminant mut_filter_load = 42
discriminant const_filter_load = 43
discriminant filter_add = 44
discriminant coinbase_input = 45
discriminant coinbase_tx = 46
discriminant mut_block_txn = 47
discriminant const_block_txn = 48
discriminant const_coinbase_tx = 49
discriminant taproot_spend_info = 50
discriminant taproot_annex = 51

abbrev declared : List Variable
declared =
    nop ∷ bytes ∷ msg_type ∷ node ∷ connection ∷ connection_type ∷ duration ∷ handshake_params
    ∷ addr_record ∷ mut_addr_list ∷ const_addr_list ∷ mut_addr_list_v2 ∷ const_addr_list_v2 ∷ time
    ∷ size ∷ block_height ∷ compact_filter_type ∷ scripts ∷ mut_witness_stack ∷ const_witness_stack
    ∷ private_key ∷ sig_hash_flags ∷ txo ∷ mut_tx ∷ const_tx ∷ mut_tx_inputs ∷ const_tx_inputs
    ∷ mut_tx_outputs ∷ const_tx_outputs ∷ const_amount ∷ compact_block ∷ nonce ∷ tx_version
    ∷ lock_time ∷ sequence ∷ mut_inventory ∷ const_inventory ∷ mut_block_transactions
    ∷ const_block_transactions ∷ block ∷ header ∷ block_version ∷ mut_filter_load
    ∷ const_filter_load ∷ filter_add ∷ coinbase_input ∷ coinbase_tx ∷ mut_block_txn
    ∷ const_block_txn ∷ const_coinbase_tx ∷ taproot_spend_info ∷ taproot_annex ∷ []

declared-discriminant : (v : Variable) → get_or declared (discriminant v) nop ≡ v
unfolding discriminant
declared-discriminant nop = refl
declared-discriminant _ = refl

unfoldable pub var_eq : Variable → Variable → Bool
var_eq v w = discriminant v == discriminant w

pub var_eq_sound : (v w : Variable) → var_eq v w ≡ true → v ≡ w
unfolding var_eq
var_eq_sound v w h = cc (
  declared-discriminant v,
  declared-discriminant w,
  ap (λ n. get_or declared n nop) ((==_iff (discriminant v) (discriminant w)).0 h),
)

pub var_eq_refl : (v : Variable) → var_eq v v ≡ true
unfolding var_eq
var_eq_refl v = ground arith

-- The types of what a block builds: they are made by a block's beginning and used up by its end.
unfoldable pub is_block_local : Variable → Bool
is_block_local mut_witness_stack = true
is_block_local mut_tx = true
is_block_local mut_tx_inputs = true
is_block_local mut_tx_outputs = true
is_block_local mut_inventory = true
is_block_local mut_addr_list = true
is_block_local mut_addr_list_v2 = true
is_block_local mut_block_transactions = true
is_block_local mut_filter_load = true
is_block_local mut_block_txn = true
is_block_local _ = false
