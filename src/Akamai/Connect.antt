-- ===== src/Akamai/Connect.antt =====
-- internal/controller/akamaiobjstr/client.go: NewManager, which reads the API token from its Secret and
-- makes the Linode client.
use forge_operator.Prelude.{
  String, true, Option, none, some, [], ◌∷◌, Exec, pure, fail, try, ◌>>=◌, Result, ok, err, Error,
  new_error, wrap, ◌==◌, if◌then◌else◌, concat, lookup,
}
use forge_operator.Api.{Application, StorageSpec}
use forge_operator.Cluster.{Platform, Secret}
use forge_operator.Naming.Names.{akamai_token_secret}
use forge_operator.S3.Session.{Session, on_world}
use forge_operator.Akamai.Session.{
  AkamaiApi, ObjectApi, Connection, OwnerMarker, AkamaiEnv, AkamaiManager,
}

-- The settings of the operator for Akamai. `new_client` is linodego.NewClient, with the token.
pub record AkamaiSettings (W : Type 0) : Type 0 where
  pub new_client : String → AkamaiApi W
  pub objects : Connection → ObjectApi W
  pub marshal : OwnerMarker → Result String
  pub unmarshal : String → Option OwnerMarker
  pub default_akamai_region : String

-- ErrTokenSecretNotFound
abbrev pub token_secret_not_found : Error
token_secret_not_found = record (new_error "token secret not found") {
  is_token_secret_not_found = true;
}

module _ {W : Type 0} (p : Platform W) (x : AkamaiSettings W) where
  -- a key that is missing and one without bytes are refused alike
  abbrev pub parse_token : String → Result Secret → Exec (Session W) String
  parse_token name (err e) =
      if e.is_not_found
      then fail (wrap "" token_secret_not_found (concat (": " ∷ name ∷ [])))
      else fail (wrap (concat ("failed to get secret " ∷ name ∷ ": " ∷ [])) e "")
  parse_token name (ok secret) =
      if lookup secret.entries "apiToken" == ""
      then fail (new_error (concat ("key 'apiToken' not found in secret " ∷ name ∷ [])))
      else pure (lookup secret.entries "apiToken")

  abbrev pub akamai_region_of : StorageSpec → String
  akamai_region_of storage =
      if storage.region == "" then x.default_akamai_region else storage.region

  abbrev pub akamai_connected :
      Option (Exec (Session W) (Unit {0})) → StorageSpec → String → AkamaiEnv W × AkamaiManager W
  akamai_connected record_created storage token = (
    record {
      k8s = p.k8s;
      akamai = x.new_client token;
      objects = x.objects;
      marshal = x.marshal;
      unmarshal = x.unmarshal;
      now = p.now;
      sha256_hex = p.sha256_hex;
    },
    record {
      storage = storage;
      bucket = storage.bucket;
      region = akamai_region_of storage;
      record_created = record_created;
    },
  )

  abbrev pub akamai_connect :
      Option (Exec (Session W) (Unit {0}))
      → Application
      → Option StorageSpec
      → Exec (Session W) (AkamaiEnv W × AkamaiManager W)
  akamai_connect record_created app none =
      fail (new_error (concat ("storage spec is nil for application " ∷ app.name ∷ [])))
  akamai_connect record_created app (some storage) =
      try (on_world (p.k8s.get_secret app.namespace (akamai_token_secret app))) >>= (λ r.
        parse_token (akamai_token_secret app) r
        >>= (λ token. pure (akamai_connected record_created storage token)))

  -- NewManager, for the session's Application
  unfoldable pub new_akamai_manager :
      Option (Exec (Session W) (Unit {0})) → Exec (Session W) (AkamaiEnv W × AkamaiManager W)
  new_akamai_manager record_created s = akamai_connect record_created s.app s.app.spec.storage s
