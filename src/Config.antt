-- ===== src/Config.antt =====
-- config/config.go: the configuration of a service, from built-in values, the service's defaults, a JSON
-- file and the environment. The environment, and the reading and decoding of the file, are arguments.
pub mod Loading
use honeygen.Prelude.{
  ℤ, pos, negsuc, ℕ, zero, suc, Bool, false, not, ◌&&◌, Option, none, some, List, [], ◌∷◌, ◌++◌,
  ◌==◌, ltb, if◌then◌else◌, Result, ok, err, ◌>>=◌,
}
use honeygen.Text.{Text, codes, text_eq, trim_space}
use honeygen.Json.{parse_int}
use honeygen.Storage.{path_dir}

pub record ProviderConfig : Type 0 where
  pub base_url : Text
  pub api_key : Text
  pub model : Text

pub record MaxMindConfig : Type 0 where
  pub account_id : Text
  pub license_key : Text
  pub db_path : Text

pub record Config : Type 0 where
  pub service_name : Text
  pub service_version : Text
  pub app_env : Text
  pub http_addr : Text
  pub ftp_public_host : Text
  pub ftp_passive_ports : Text
  pub internal_event_ingest_token : Text
  pub admin_password : Text
  pub provider_config_encryption_key : Text
  pub sqlite_path : Text
  pub generated_assets_dir : Text
  pub storage_root : Text
  pub internal_api_base_url : Text
  pub config_file_path : Text
  pub max_upload_size_bytes : ℤ
  pub provider : ProviderConfig
  pub max_mind : MaxMindConfig

-- `fileConfig`: a field that is missing or null is `none`
pub record FileProviderConfig : Type 0 where
  pub base_url : Option Text
  pub api_key : Option Text
  pub model : Option Text

pub record FileConfig : Type 0 where
  pub service_name : Option Text
  pub service_version : Option Text
  pub app_env : Option Text
  pub http_addr : Option Text
  pub ftp_public_host : Option Text
  pub ftp_passive_ports : Option Text
  pub internal_event_ingest_token : Option Text
  pub sqlite_path : Option Text
  pub generated_assets_dir : Option Text
  pub storage_root : Option Text
  pub internal_api_base_url : Option Text
  pub max_upload_size_bytes : Option ℤ
  pub provider : Option FileProviderConfig

pub data ConfigError : Type 0 where
  file_unread : ConfigError
  not_set : List Text → ConfigError

-- 25 MB and 100 MB
abbrev pub default_max_upload_size_bytes : ℕ
default_max_upload_size_bytes = 26214400

abbrev pub absolute_max_upload_size_bytes : ℕ
absolute_max_upload_size_bytes = 104857600

-- `EffectiveMaxUploadSizeBytes`
unfoldable pub effective_max_upload_size_bytes : ℤ → ℕ
effective_max_upload_size_bytes (negsuc n) = default_max_upload_size_bytes
effective_max_upload_size_bytes (pos zero) = default_max_upload_size_bytes
effective_max_upload_size_bytes (pos (suc n)) =
    if ltb absolute_max_upload_size_bytes (suc n) then absolute_max_upload_size_bytes else suc n

-- `Ready` and `Mode`
unfoldable pub is_ready : ProviderConfig → Bool
is_ready p = not (text_eq p.base_url []) && not (text_eq p.api_key []) && not (text_eq p.model [])

unfoldable pub mode : ProviderConfig → Text
unfolding is_ready
mode p = if is_ready p then codes "external" else codes "unconfigured"

-- `applyDefaultString` and `applyEnvOverride`: an empty value sets nothing
unfoldable pub override : Text → Text → Text
override old value = if text_eq value [] then old else value

-- `applyOptionalString`
unfoldable pub override_optional : Text → Option Text → Text
unfolding override
override_optional old none = old
override_optional old (some value) = override old value

is_positive : ℤ → Bool
is_positive (pos n) = not (n == 0)
is_positive (negsuc n) = false

-- `applyOptionalInt64`
unfoldable pub override_int : ℤ → Option ℤ → ℤ
unfolding is_positive
override_int old none = old
override_int old (some n) = if is_positive n then n else old

-- `strconv.ParseInt(value, 10, 64)`: a sign may be a plus
parse_signed : Text → Option ℤ
parse_signed [] = none
parse_signed (c ∷ s) = if c == b'+' then parse_int (b'0' ∷ s) else parse_int (c ∷ s)

-- `applyEnvOverrideInt64`
unfoldable pub override_env_int : ℤ → Text → ℤ
unfolding override_int parse_signed
override_env_int old value = override_int old (parse_signed (trim_space value))

-- `deriveStorageRoot`; path.Dir and filepath.Dir agree where the separator is a slash
unfoldable pub derive_storage_root : Text → Text → Text
derive_storage_root sqlite_path generated_assets_dir =
    if not (text_eq generated_assets_dir [])
    then path_dir generated_assets_dir
    else if not (text_eq sqlite_path [])
    then path_dir sqlite_path
    else []

-- the built-in values, and the service's defaults over them
unfoldable pub with_defaults : Config → Config
unfolding override
with_defaults d = record {
  service_name = override (codes "honeygen-api") d.service_name;
  service_version = override (codes "dev") d.service_version;
  app_env = override ([]) d.app_env;
  http_addr = override (codes ":8080") d.http_addr;
  ftp_public_host = override ([]) d.ftp_public_host;
  ftp_passive_ports = override ([]) d.ftp_passive_ports;
  internal_event_ingest_token = override ([]) d.internal_event_ingest_token;
  admin_password = override ([]) d.admin_password;
  provider_config_encryption_key = override ([]) d.provider_config_encryption_key;
  sqlite_path = override (codes "/app/storage/sqlite/honeygen.db") d.sqlite_path;
  generated_assets_dir = override (codes "/app/storage/generated") d.generated_assets_dir;
  storage_root = override ([]) d.storage_root;
  internal_api_base_url = override (codes "http://api:8080") d.internal_api_base_url;
  config_file_path = [];
  max_upload_size_bytes = pos 0;
  provider = record {
    base_url = override [] d.provider.base_url;
    api_key = override [] d.provider.api_key;
    model = override [] d.provider.model;
  };
  max_mind = record { account_id = []; license_key = []; db_path = [] };
}

unfoldable pub provider_with_file : ProviderConfig → Option FileProviderConfig → ProviderConfig
unfolding override_optional
provider_with_file p none = p
provider_with_file p (some f) = record {
  base_url = override_optional p.base_url f.base_url;
  api_key = override_optional p.api_key f.api_key;
  model = override_optional p.model f.model;
}

-- `applyFileConfig`, with the path of the file
unfoldable pub with_file : Text → FileConfig → Config → Config
unfolding override_optional override_int provider_with_file
with_file path f c = record c {
  service_name = override_optional c.service_name f.service_name;
  service_version = override_optional c.service_version f.service_version;
  app_env = override_optional c.app_env f.app_env;
  http_addr = override_optional c.http_addr f.http_addr;
  ftp_public_host = override_optional c.ftp_public_host f.ftp_public_host;
  ftp_passive_ports = override_optional c.ftp_passive_ports f.ftp_passive_ports;
  internal_event_ingest_token =
      override_optional c.internal_event_ingest_token f.internal_event_ingest_token;
  sqlite_path = override_optional c.sqlite_path f.sqlite_path;
  generated_assets_dir = override_optional c.generated_assets_dir f.generated_assets_dir;
  storage_root = override_optional c.storage_root f.storage_root;
  internal_api_base_url = override_optional c.internal_api_base_url f.internal_api_base_url;
  config_file_path = path;
  max_upload_size_bytes = override_int c.max_upload_size_bytes f.max_upload_size_bytes;
  provider = provider_with_file c.provider f.provider;
}

unfoldable pub with_env : (Text → Text) → Config → Config
unfolding override override_env_int
with_env env c = record c {
  service_name = override c.service_name (env (codes "SERVICE_NAME"));
  service_version = override c.service_version (env (codes "APP_VERSION"));
  app_env = override c.app_env (env (codes "APP_ENV"));
  http_addr = override c.http_addr (env (codes "HTTP_ADDR"));
  ftp_public_host = override c.ftp_public_host (env (codes "FTP_PUBLIC_HOST"));
  ftp_passive_ports = override c.ftp_passive_ports (env (codes "FTP_PASSIVE_PORTS"));
  internal_event_ingest_token =
      override c.internal_event_ingest_token (env (codes "INTERNAL_EVENT_INGEST_TOKEN"));
  admin_password = override c.admin_password (env (codes "ADMIN_PASSWORD"));
  provider_config_encryption_key =
      override c.provider_config_encryption_key (env (codes "PROVIDER_CONFIG_ENCRYPTION_KEY"));
  sqlite_path = override c.sqlite_path (env (codes "SQLITE_PATH"));
  generated_assets_dir = override c.generated_assets_dir (env (codes "GENERATED_ASSETS_DIR"));
  storage_root = override c.storage_root (env (codes "STORAGE_ROOT"));
  internal_api_base_url = override c.internal_api_base_url (env (codes "INTERNAL_API_BASE_URL"));
  max_upload_size_bytes =
      override_env_int c.max_upload_size_bytes (env (codes "MAX_UPLOAD_SIZE_BYTES"));
  provider = record {
    base_url = override c.provider.base_url (env (codes "LLM_BASE_URL"));
    api_key = override c.provider.api_key (env (codes "LLM_API_KEY"));
    model = override c.provider.model (env (codes "LLM_MODEL"));
  };
  max_mind = record {
    account_id = override c.max_mind.account_id (env (codes "MM_ACCOUNT_ID"));
    license_key = override c.max_mind.license_key (env (codes "MM_LICENSE_KEY"));
    db_path = override c.max_mind.db_path (env (codes "MM_DB_PATH"));
  };
}

-- the storage root and the path of the GeoIP database, where they are not set
unfoldable pub with_root : Config → Config
unfolding derive_storage_root
with_root c = record c {
  storage_root =
      if text_eq c.storage_root []
      then derive_storage_root c.sqlite_path c.generated_assets_dir
      else c.storage_root;
}

unfoldable pub with_db_path : Config → Config
with_db_path c = record c {
  max_mind = record c.max_mind {
    db_path =
        if text_eq c.max_mind.db_path [] && not (text_eq c.storage_root [])
        then c.storage_root ++ codes "/geoip/GeoLite2-City.mmdb"
        else c.max_mind.db_path;
  };
}

unless_blank : Text → Text → List Text
unless_blank value message = if text_eq (trim_space value) [] then message ∷ [] else []

checked : List Text → Config → Result ConfigError Config
checked [] c = ok c
checked (e ∷ es) c = err (not_set (e ∷ es))

unfoldable pub validated : Config → Result ConfigError Config
unfolding unless_blank checked
validated c =
    checked
      (unless_blank c.app_env (codes "APP_ENV must be set")
        ++ unless_blank c.internal_event_ingest_token
            (codes "INTERNAL_EVENT_INGEST_TOKEN must be set"))
      c

-- `CONFIG_PATH`, or `APP_CONFIG_PATH` where that is empty
unfoldable pub resolved_path : Text → (Text → Text) → Text
unfolding override
resolved_path config_path env =
    override (override (env (codes "APP_CONFIG_PATH")) (env (codes "CONFIG_PATH"))) config_path

read_over : Text → Option FileConfig → Config → Result ConfigError Config
unfolding with_file
read_over path none c = err file_unread
read_over path (some f) c = ok (with_file path f c)

-- the file, where a path is given
unfoldable pub with_config_file :
    (Text → Option FileConfig) → Text → Config → Result ConfigError Config
unfolding read_over
with_config_file files path c = if text_eq path [] then ok c else read_over path (files path) c

-- `LoadWithDefaults`
unfoldable pub load_with_defaults :
    (Text → Option FileConfig) → (Text → Text) → Text → Config → Result ConfigError Config
unfolding resolved_path with_config_file with_defaults with_env with_root with_db_path validated
load_with_defaults files env config_path defaults = do
  c ← with_config_file files (resolved_path config_path env) (with_defaults defaults)
  validated (with_db_path (with_root (with_env env c)))
