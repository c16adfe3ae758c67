-- ===== src/Registry.antt =====
-- registry/registry.go: the nodes of services, and what a client or a server asks of a registry.
pub mod Mutex
pub mod Consul
pub mod Etcd
use kuja.Prelude.{Option, List, Str}

pub record Node : Type 0 where
  pub id : Str
  pub name : Str
  pub host : Str
  pub port : Str
  pub address : Str
  pub url : Str

-- `registry.Service`
pub record NodeList : Type 0 where
  pub name : Str
  pub nodes : List Node

-- The answer of a registry: an error, or a value that may be a nil pointer.
pub data Asked (A : Type 0) : Type 0 where
  refused : Str → Asked A
  gives : Option A → Asked A
