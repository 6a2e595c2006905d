-- ===== src/Cmd/Config.antt =====
-- api/cmd/server/config.go. Viper is a parameter.
use courtknights.Common.{ℕ, String}

pub record ServerConfig : Type 0 where
  pub port : String

pub record DatabaseConfig : Type 0 where
  pub url : String

-- A lifetime in nanoseconds that is not negative.
pub record JwtConfig : Type 0 where
  pub secret : String
  pub expiry : ℕ

pub record OauthConfig : Type 0 where
  pub client_id : String
  pub client_secret : String
  pub redirect_url : String
  pub auth_url : String
  pub token_url : String
  pub device_auth_url : String
  pub user_info_url : String

pub record BootstrapConfig : Type 0 where
  pub email : String
  pub name : String
  pub pat : String

pub record Config : Type 0 where
  pub server : ServerConfig
  pub database : DatabaseConfig
  pub jwt : JwtConfig
  pub google : OauthConfig
  pub github : OauthConfig
  pub bootstrap : BootstrapConfig

-- What the code asks of a Viper instance.
pub record Viper : Type 0 where
  pub get_string : String → String
  pub get_duration : String → ℕ

unfoldable pub load_config : Viper → Config
load_config v = record {
  server = record { port = v.get_string "server.port" };
  database = record { url = v.get_string "database.url" };
  jwt = record { secret = v.get_string "jwt.secret"; expiry = v.get_duration "jwt.expiry" };
  google = record {
    client_id = v.get_string "google.client_id";
    client_secret = v.get_string "google.client_secret";
    redirect_url = v.get_string "google.redirect_url";
    auth_url = v.get_string "google.auth_url";
    token_url = v.get_string "google.token_url";
    device_auth_url = v.get_string "google.device_auth_url";
    user_info_url = v.get_string "google.userinfo_url";
  };
  github = record {
    client_id = v.get_string "github.client_id";
    client_secret = v.get_string "github.client_secret";
    redirect_url = v.get_string "github.redirect_url";
    auth_url = v.get_string "github.auth_url";
    token_url = v.get_string "github.token_url";
    device_auth_url = v.get_string "github.device_auth_url";
    user_info_url = v.get_string "github.userinfo_url";
  };
  bootstrap = record {
    email = v.get_string "bootstrap.email";
    name = v.get_string "bootstrap.name";
    pat = v.get_string "bootstrap.pat";
  };
}
