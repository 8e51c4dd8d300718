-- ===== src/Config.antt =====
-- backend/internal/config/config.go: the configuration and its defaults.
pub mod Files
use dropboy.Base.{ℤ, pos, Text, codes, List, []}

pub record Encryption : Type 0 where
  pub scheme : Text
  pub keyring : Text

pub record Folder : Type 0 where
  pub path : Text
  pub exclude : List Text

pub record Limits : Type 0 where
  pub max_upload_mbps : ℤ
  pub max_concurrent : ℤ
  pub delete_grace_hours : ℤ

pub record Poll : Type 0 where
  pub remote_seconds : ℤ
  pub full_scan_minutes : ℤ

pub record UiSettings : Type 0 where
  pub port : ℤ

pub record Config : Type 0 where
  pub bucket : Text
  pub region : Text
  pub aws_profile : Text
  pub machine_id : Text
  pub encryption : Encryption
  pub folders : List Folder
  pub limits : Limits
  pub poll : Poll
  pub ui : UiSettings

-- Default
abbrev pub default : Config
default = record {
  bucket = [];
  region = codes "us-east-1";
  aws_profile = codes "default";
  machine_id = [];
  encryption = record { scheme = codes "aes-256-gcm"; keyring = codes "os" };
  folders = [];
  limits = record { max_upload_mbps = pos 0; max_concurrent = pos 4; delete_grace_hours = pos 24 };
  poll = record { remote_seconds = pos 60; full_scan_minutes = pos 15 };
  ui = record { port = pos 7777 };
}
