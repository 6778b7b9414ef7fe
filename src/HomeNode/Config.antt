-- ===== src/HomeNode/Config.antt =====
-- The configuration of a node: services/home-node/src/config.rs. A text is here the list of its
-- characters. The files are read by the toml crate.
use medium.Common.{Bool, List, Option, Bytes}

pub record ServiceConfig : Type 0 where
  pub id : Bytes
  pub kind : Bytes
  pub label : Option Bytes
  pub target : Bytes
  pub user_name : Option Bytes
  pub enabled : Bool

pub record NodeConfig : Type 0 where
  pub node_id : Bytes
  pub node_label : Option Bytes
  pub bind_addr : Bytes
  pub ice_bind_addr : Bytes
  pub public_addr : Option Bytes
  pub ice_public_addr : Option Bytes
  pub ice_host_addrs : List Bytes
  pub control_url : Option Bytes
  pub control_pin : Option Bytes
  pub shared_secret : Option Bytes
  pub relay_addr : Option Bytes
  pub wss_relay_url : Option Bytes
  pub ice_relay_addr : Option Bytes
  pub service_ca_cert_pem : Option Bytes
  pub service_ca_key_pem : Option Bytes
  pub services : List ServiceConfig
