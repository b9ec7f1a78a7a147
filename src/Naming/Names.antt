-- ===== src/Naming/Names.antt =====
-- internal/controller/naming/naming.go: the names of the resources that an Application owns, and
-- the names of cloud resources. SHA-256 is a parameter: the hexadecimal digest of a text's bytes.
-- Child RoleNames: what cloud_resource_name guarantees.
pub mod RoleNames
use Prim.Native.String.{◌++◌, len, slice}
use forge_operator.Prelude.{
  ℕ, ◌-◌, min, String, Option, none, some, List, leb, ◌==◌, if◌then◌else◌, join,
}
use forge_operator.Api.{Application, ConfigSpec, StorageSpec, AkamaiStorageSpec}

abbrev pub adopt_bucket_annotation : String
adopt_bucket_annotation = "forge-operator.ningendo7.github.io/adopt-bucket"

abbrev pub storage_ownership_id_annotation : String
storage_ownership_id_annotation = "forge-operator.ningendo7.github.io/storage-ownership-id"

abbrev pub adopt_bucket_annotation_value : String
adopt_bucket_annotation_value = "true"

-- s if it is not empty, and else t
abbrev pub or_default : String → String → String
or_default s t = if s == "" then t else s

abbrev pub service : Application → String
service a = a.name

abbrev pub deployment : Application → String
deployment a = a.name ++ "-deployment"

abbrev pub ingress : Application → String
ingress a = a.name

abbrev pub hpa : Application → String
hpa a = a.name ++ "-hpa"

abbrev pub pdb : Application → String
pdb a = a.name ++ "-pdb"

abbrev config_name : Option ConfigSpec → String
config_name none = ""
config_name (some c) = c.name

unfoldable pub app_config_map : Application → String
app_config_map a = or_default (config_name a.spec.config_map) (a.name ++ "-config")

abbrev pub storage_secret_name : Option StorageSpec → String
storage_secret_name none = ""
storage_secret_name (some s) = s.secret_name

unfoldable pub storage_secret : Application → String
storage_secret a = or_default (storage_secret_name a.spec.storage) (a.name ++ "-storage")

abbrev pub akamai_ref : Option AkamaiStorageSpec → String
akamai_ref none = ""
akamai_ref (some k) = k.access_key_secret_ref

abbrev pub storage_akamai_ref : Option StorageSpec → String
storage_akamai_ref none = ""
storage_akamai_ref (some s) = akamai_ref s.akamai

unfoldable pub akamai_token_secret : Application → String
akamai_token_secret a = or_default (storage_akamai_ref a.spec.storage) (a.name ++ "-akamai-token")

module _ (sha256_hex : String → String) where
  abbrev digest_suffix : String → String
  digest_suffix full = "-" ++ slice (sha256_hex full) 0 8

  -- `full[:keep]` cuts bytes; the names are ASCII, so that no character is cut.
  unfoldable pub shorten : String → ℕ → String
  shorten full max_len =
      if leb (len full) max_len
      then full
      else slice full 0 (min (max_len - len (digest_suffix full)) (len full)) ++ digest_suffix full

  unfoldable pub cloud_resource_name : List String → ℕ → String
  cloud_resource_name parts max_len = shorten (join "-" parts) max_len
