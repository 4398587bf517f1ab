-- ===== src/Network.antt =====
-- src/services/networks.ts: the networks by id. The proxy throws at an unknown id: `none` here.
use vsc_node.Prelude.{ℕ, String, Option, none, some, str_eq, if◌then◌else◌}

pub record Network : Type 0 where
  pub genesis_day : ℕ
  pub round_length : ℕ
  pub total_rounds : ℕ
  pub consensus_round_length : ℕ
  pub multisig_account : String

abbrev pub legacy_testnet : Network
legacy_testnet = record {
  genesis_day = 70790692;
  round_length = 20;
  total_rounds = 60;
  consensus_round_length = 10;
  multisig_account = "null";
}

abbrev pub old_testnet : Network
old_testnet = record {
  genesis_day = 74869131;
  round_length = 10;
  total_rounds = 120;
  consensus_round_length = 10;
  multisig_account = "vsc.ptk-d12e6110";
}

abbrev pub new_testnet : Network
new_testnet = record {
  genesis_day = 81614028;
  round_length = 10;
  total_rounds = 120;
  consensus_round_length = 10;
  multisig_account = "vsc.gateway";
}

-- `networks[id]`
unfoldable pub networks : String → Option Network
networks id =
    if str_eq id "testnet/ab8b6cf1-b344-4ad3-8f81-f2d72c61f6b2"
    then some legacy_testnet
    else (if str_eq id "testnet/d12e6110-9c8c-4498-88f8-67ddf90d451c"
        then some old_testnet
        else (if str_eq id "testnet/0bf2e474-6b9e-4165-ad4e-a0d78968d20c"
            then some new_testnet
            else none))
