-- ===== src/Registry.antt =====
-- The apps as the request path reads them: internal/registry/registry.go. Each operation runs under
-- the registry's lock, so it is one step on its state.
pub mod Syncer
use zeep_orbit.Config.{AppConfig, StorageConfig, RateLimitConfig}
use zeep_orbit.Prelude.Int.{ℤ}
use zeep_orbit.Prelude.{
  ℕ, ◌+◌, ◌%◌, ◌^◌, String, Bool, true, false, List, [], ◌∷◌, Option, none, some, ◌==◌, eqb, put,
  if◌then◌else◌,
}

pub record Column : Type 0 where
  pub name : String
  pub type : String
  pub required : Bool
  pub default : String
  pub unique : Bool
  pub rename_from : String
  pub allowed_values : List String

pub record Table : Type 0 where
  pub name : String
  pub rls : String
  pub columns : List Column

-- The values of `AuthProviders` are their JSON texts.
pub record App : Type 0 where
  pub config : AppConfig
  pub schema_name : String
  pub tables : String → Option Table
  pub auth_providers : List (String × String)
  pub storage_config : Option StorageConfig
  pub rate_limit : Option RateLimitConfig

pub record SystemConfig : Type 0 where
  pub soft_delete_enabled : Bool
  pub statement_timeout_ms : ℤ

-- `gen` is a uint64. The miss hook is an argument of `get` and `get_table`.
pub record Registry : Type 0 where
  pub apps : String → Option App
  pub sys_cfg : SystemConfig
  pub gen : ℕ

-- A nil `Apps` is the empty map.
pub record Snapshot : Type 0 where
  pub apps : Option (String → Option App)
  pub system : SystemConfig

abbrev pub no_apps : String → Option App
no_apps name = none

-- `if apps == nil { apps = make(…) }`
abbrev pub apps_or_empty : Option (String → Option App) → String → Option App
apps_or_empty none = no_apps
apps_or_empty (some apps) = apps

unfoldable pub replace : Option (String → Option App) → SystemConfig → Registry → Registry
replace apps sys r = record r { apps = apps_or_empty apps; sys_cfg = sys }

abbrev pub generation : Registry → ℕ
generation r = r.gen

-- The result is whether it replaced.
unfoldable pub replace_if_generation :
    ℕ → Option (String → Option App) → SystemConfig → Registry → Registry × Bool
replace_if_generation gen apps sys r =
    if eqb r.gen gen
    then (record r { apps = apps_or_empty apps; sys_cfg = sys }, true)
    else (r, false)

-- `r.gen++`
abbrev pub next_gen : ℕ → ℕ
next_gen gen = (gen + 1) % 2 ^ 64

unfoldable pub register : App → Registry → Registry
register app r = record r { apps = put r.apps app.config.name (some app); gen = next_gen r.gen }

unfoldable pub unregister : String → Registry → Registry
unregister app_name r = record r { apps = put r.apps app_name none; gen = next_gen r.gen }

unfoldable pub set_system_config : SystemConfig → Registry → Registry
set_system_config cfg r = record r { sys_cfg = cfg; gen = next_gen r.gen }

abbrev pub lookup_app : String → Registry → Option App
lookup_app app_name r = r.apps app_name

unfoldable pub lookup_table : String → String → Registry → Option Table
lookup_table app_name table_name r = elim (r.apps app_name) [
  | none ↦ none
  | some app ↦ app.tables table_name
]

-- The hook acts on a state `S` that has the registry in it. `none` is a nil hook, with which the
-- lookup is not retried.
module _ {S : Type 0} (registry_of : S → Registry) (hook : Option (S → S)) where
  unfoldable pub retry {ℓ} : {A : Type ℓ} → (Registry → Option A) → S → S × Option A
  retry look s = elim (look (registry_of s)) [
    | some a ↦ (s, some a)
    | none ↦ elim hook [ none ↦ (s, none) | some run ↦ (run s, look (registry_of (run s))) ]
  ]

  unfoldable pub get : String → S → S × Option App
  unfolding retry
  get app_name = retry (lookup_app app_name)

  unfoldable pub get_table : String → String → S → S × Option Table
  unfolding retry
  get_table app_name table_name = retry (lookup_table app_name table_name)
