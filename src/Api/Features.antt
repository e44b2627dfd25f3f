-- ===== src/Api/Features.antt =====
-- api/v1/store.go: the parts of a store's specification that configure the services and the network of
-- the shop, with the fields that the modelled code reads.
use shopware_operator.Prelude.{String, Bool, List}
use shopware_operator.Prelude.Int.{ℤ}

pub record SecretRef : Type 0 where
  pub name : String
  pub key : String

pub record RedisSpec : Type 0 where
  pub redis_dsn : String
  pub redis_host : String
  pub redis_port : ℤ
  pub redis_index : ℤ

-- SessionCacheSpec, AppCacheSpec and LockSpec, which all have these two fields
pub record CacheSpec : Type 0 where
  pub redis : RedisSpec
  pub adapter : String

pub record FpmSpec : Type 0 where
  pub process_management : String
  pub listen : String
  pub scrape_uri : String
  pub status_path : String
  pub max_children : ℤ
  pub start_servers : ℤ
  pub min_spare_servers : ℤ
  pub max_spare_servers : ℤ

pub record BlackfireSpec : Type 0 where
  pub enabled : Bool
  pub host : String
  pub port : ℤ

pub record TidewaysSpec : Type 0 where
  pub enabled : Bool
  pub host : String
  pub port : ℤ
  pub service : String
  pub api_key_ref : SecretRef

pub record OtelSpec : Type 0 where
  pub enabled : Bool
  pub service_name : String
  pub traces_exporter : String
  pub exporter_protocol : String
  pub exporter_endpoint : String

pub record OpensearchIndexSpec : Type 0 where
  pub replicas : ℤ
  pub shards : ℤ
  pub prefix : String

pub record NetworkSpec : Type 0 where
  pub enabled_ingress : Bool
  pub enabled_gateway : Bool
  pub host : String
  pub hosts : List String
  pub app_url_host : String
  pub port : ℤ
  pub pre_stop_delay_seconds : ℤ

-- Configuration; its `Fastly` is a field of the specification itself here.
pub record Configuration : Type 0 where
  pub currency : String
  pub locale : String
  pub usage_data_consent : String
