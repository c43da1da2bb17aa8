-- ===== src/Config/Loading.antt =====
-- config/config.go, LoadWithDefaults: where a setting comes from, and what a loaded configuration has.
use honeygen.Prelude.{Option, none, some, [], if◌then◌else◌}
use honeygen.Text.{Text, codes, text_eq}
use honeygen.Config.{Config, FileConfig, FileProviderConfig}

-- the settings that each source may give, but for the root of the store
pub data Setting : Type 0 where
  service_name_name service_version_name app_env_name http_addr_name ftp_public_host_name
        ftp_passive_ports_name internal_event_ingest_token_name admin_password_name
        provider_config_encryption_key_name sqlite_path_name generated_assets_dir_name
        internal_api_base_url_name base_url_name api_key_name model_name :
      Setting

abbrev pub setting : Setting → Config → Text
setting service_name_name c = c.service_name
setting service_version_name c = c.service_version
setting app_env_name c = c.app_env
setting http_addr_name c = c.http_addr
setting ftp_public_host_name c = c.ftp_public_host
setting ftp_passive_ports_name c = c.ftp_passive_ports
setting internal_event_ingest_token_name c = c.internal_event_ingest_token
setting admin_password_name c = c.admin_password
setting provider_config_encryption_key_name c = c.provider_config_encryption_key
setting sqlite_path_name c = c.sqlite_path
setting generated_assets_dir_name c = c.generated_assets_dir
setting internal_api_base_url_name c = c.internal_api_base_url
setting base_url_name c = c.provider.base_url
setting api_key_name c = c.provider.api_key
setting model_name c = c.provider.model

abbrev pub built_in : Setting → Text
built_in service_name_name = codes "honeygen-api"
built_in service_version_name = codes "dev"
built_in app_env_name = []
built_in http_addr_name = codes ":8080"
built_in ftp_public_host_name = []
built_in ftp_passive_ports_name = []
built_in internal_event_ingest_token_name = []
built_in admin_password_name = []
built_in provider_config_encryption_key_name = []
built_in sqlite_path_name = codes "/app/storage/sqlite/honeygen.db"
built_in generated_assets_dir_name = codes "/app/storage/generated"
built_in internal_api_base_url_name = codes "http://api:8080"
built_in base_url_name = []
built_in api_key_name = []
built_in model_name = []

abbrev pub env_name : Setting → Text
env_name service_name_name = codes "SERVICE_NAME"
env_name service_version_name = codes "APP_VERSION"
env_name app_env_name = codes "APP_ENV"
env_name http_addr_name = codes "HTTP_ADDR"
env_name ftp_public_host_name = codes "FTP_PUBLIC_HOST"
env_name ftp_passive_ports_name = codes "FTP_PASSIVE_PORTS"
env_name internal_event_ingest_token_name = codes "INTERNAL_EVENT_INGEST_TOKEN"
env_name admin_password_name = codes "ADMIN_PASSWORD"
env_name provider_config_encryption_key_name = codes "PROVIDER_CONFIG_ENCRYPTION_KEY"
env_name sqlite_path_name = codes "SQLITE_PATH"
env_name generated_assets_dir_name = codes "GENERATED_ASSETS_DIR"
env_name internal_api_base_url_name = codes "INTERNAL_API_BASE_URL"
env_name base_url_name = codes "LLM_BASE_URL"
env_name api_key_name = codes "LLM_API_KEY"
env_name model_name = codes "LLM_MODEL"

abbrev of_provider : (FileProviderConfig → Option Text) → Option FileProviderConfig → Option Text
of_provider field none = none
of_provider field (some p) = field p

-- two settings are not read from the file
abbrev pub in_file : Setting → FileConfig → Option Text
in_file service_name_name f = f.service_name
in_file service_version_name f = f.service_version
in_file app_env_name f = f.app_env
in_file http_addr_name f = f.http_addr
in_file ftp_public_host_name f = f.ftp_public_host
in_file ftp_passive_ports_name f = f.ftp_passive_ports
in_file internal_event_ingest_token_name f = f.internal_event_ingest_token
in_file admin_password_name f = none
in_file provider_config_encryption_key_name f = none
in_file sqlite_path_name f = f.sqlite_path
in_file generated_assets_dir_name f = f.generated_assets_dir
in_file internal_api_base_url_name f = f.internal_api_base_url
in_file base_url_name f = of_provider (λ p. p.base_url) f.provider
in_file api_key_name f = of_provider (λ p. p.api_key) f.provider
in_file model_name f = of_provider (λ p. p.model) f.provider

-- the file that is used
abbrev pub used_file : (Text → Option FileConfig) → Text → Option FileConfig
used_file files path = if text_eq path [] then none else files path

abbrev pub from_file : Setting → Option FileConfig → Option Text
from_file n none = none
from_file n (some f) = in_file n f
