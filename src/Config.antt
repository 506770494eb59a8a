-- ===== src/Config.antt =====
-- The schema that an app declares: internal/config/types.go.
pub mod Rls
pub mod Keys
pub mod Cycle
pub mod Validate
use zeep_orbit.Prelude.Int.{ℤ}
use zeep_orbit.Prelude.{String, Bool, List, Option, none, some, false, ◌==◌, ◌&&◌, true}

-- `References *ReferenceConfig` is an `Option`: nil is `none`.
pub record ReferenceConfig : Type 0 where
  pub table : String
  pub column : String
  pub on_delete : String

pub record ColumnConfig : Type 0 where
  pub name : String
  pub type : String
  pub required : Bool
  pub default : String
  pub default_is_expression : Bool
  pub unique : Bool
  pub rename_from : String
  pub references : Option ReferenceConfig
  pub allowed_values : List String

pub record IndexConfig : Type 0 where
  pub name : String
  pub columns : List String
  pub unique : Bool

pub record TableConfig : Type 0 where
  pub name : String
  pub rls : String
  pub columns : List ColumnConfig
  pub indexes : List IndexConfig

pub record StorageConfig : Type 0 where
  pub bucket : String
  pub region : String
  pub endpoint : String
  pub access_key_id : String
  pub secret_access_key : String

-- `RequestsPerMinute int`.
pub record RateLimitConfig : Type 0 where
  pub enabled : Bool
  pub requests_per_minute : ℤ

pub record AuthConfig : Type 0 where
  pub jwt_secret : String
  pub email : Bool

pub record AppConfig : Type 0 where
  pub name : String
  pub auth : AuthConfig
  pub tables : List TableConfig
  pub storage : Option StorageConfig
  pub rate_limit : Option RateLimitConfig

-- `(*ReferenceConfig).Equal`, on receivers and arguments that may be nil.
unfoldable pub equal : Option ReferenceConfig → Option ReferenceConfig → Bool
equal none none = true
equal none (some other) = false
equal (some r) none = false
equal (some r) (some other) =
    r.table == other.table && (r.column == other.column && r.on_delete == other.on_delete)
