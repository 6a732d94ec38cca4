-- ===== src/Dev.antt =====
-- bins/ovr/dev.rs: the bookkeeping of a local network, its nodes and their ports; cfg/mod.rs: the
-- options that choose what is done. The processes, the files of Tendermint and the genesis are
-- not modelled.
pub mod Ports
pub mod Nodes
use ovr.Prelude.{ℕ, Bool, Option, some, none, if◌then◌else◌, unwrap_or, codes}
use ovr.Primitives.{Bytes}

-- `DevCfg`
pub record DevCfg : Type 0 where
  pub env_name : Option Bytes
  pub env_create : Bool
  pub env_destroy : Bool
  pub env_start : Bool
  pub env_stop : Bool
  pub env_add_node : Bool
  pub env_rm_node : Bool
  pub env_info : Bool
  pub block_itv_secs : ℕ
  pub validator_num : ℕ
  pub inital_salt : Option Bytes
  pub inital_bytecode_path : Option Bytes

pub data Ops : Type 0 where
  create destroy start stop add_node del_node info : Ops

pub record EnvCfg : Type 0 where
  pub name : Bytes
  pub ops : Ops
  pub block_itv_secs : ℕ
  pub inital_bytecode_path : Option Bytes
  pub inital_salt : Option Bytes
  pub validator_num : ℕ

-- `ENV_NAME_DEFAULT`
abbrev pub env_name_default : Bytes
env_name_default = codes "default"

-- The first option that is set decides; the option for the information is the default.
unfoldable pub ops_of : DevCfg → Ops
ops_of cfg =
    if cfg.env_create
    then create
    else if cfg.env_destroy
    then destroy
    else if cfg.env_start
    then start
    else if cfg.env_stop
    then stop
    else if cfg.env_add_node
    then add_node
    else if cfg.env_rm_node
    then del_node
    else info

-- `From<DevCfg>`
unfoldable pub env_cfg_of : DevCfg → EnvCfg
unfolding ops_of
env_cfg_of cfg = record {
  name = unwrap_or env_name_default cfg.env_name;
  ops = ops_of cfg;
  block_itv_secs = cfg.block_itv_secs;
  inital_bytecode_path = cfg.inital_bytecode_path;
  inital_salt = cfg.inital_salt;
  validator_num = cfg.validator_num;
}

pub data Kind : Type 0 where
  node full seed : Kind
