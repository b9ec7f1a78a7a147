-- ===== src/Examples/Reconcilers.antt =====
-- An ApplicationReconciler on the sample cluster and the sample clouds: concrete values of its
-- parameters.
use forge_operator.Prelude.{
  pos, true, none, some, [], ◌∷◌, any, ◌≡◌, refl, subst, pure, fail, ok, err, Result, ◌==◌,
}
use forge_operator.Cluster.{Platform}
use forge_operator.S3.Session.{S3Api, IamApi, finished}
use forge_operator.S3.Connect.{AwsConfig, AwsSettings}
use forge_operator.Akamai.Session.{ObjectApi}
use forge_operator.Akamai.Connect.{AkamaiSettings}
use forge_operator.Controller.Session.{Reconciler}
use forge_operator.Controller.Keeping.{RetriesStatus}
use forge_operator.Controller.Finalizer.Apart.{Apart}
use forge_operator.Status.Manager.Retrying.{Retried}
use forge_operator.Examples.Samples.{Tagged, cluster, sample_app, sample_s3, sample_iam, absent}
use forge_operator.Examples.Linode.{sample_akamai}

abbrev pub sample_platform : Platform Tagged
sample_platform = record { k8s = cluster; now = λ w. 5; sha256_hex = λ t. "0123456789abcdef" }

-- The bucket has no unfinished uploads.
abbrev pub idle_s3 : S3Api Tagged
idle_s3 = record sample_s3 { list_multipart_uploads = λ b. pure [] }

abbrev pub sample_aws : AwsSettings Tagged
sample_aws = record {
  load_default_config =
      λ region c. pure (record { s3_client = λ endpoint. idle_s3; iam_client = sample_iam });
  oidc_provider_arn = "arn:aws:iam::1:oidc-provider/x";
  oidc_provider_url = "https://oidc.example/";
  permissions_boundary_arn = "arn:aws:iam::1:policy/b";
}

abbrev pub no_objects : ObjectApi Tagged
no_objects = record {
  get_object = λ bucket key. fail absent;
  put_object = λ bucket key body. pure tt;
  list_objects = λ bucket. finished;
  delete_objects = λ bucket ids. pure [];
}

abbrev pub sample_linode : AkamaiSettings Tagged
sample_linode = record {
  new_client = λ token. sample_akamai;
  objects = λ connection. no_objects;
  marshal = λ o. ok o.uid;
  unmarshal = λ body. none;
  default_akamai_region = "eu-1";
}

abbrev pub sample_reconciler : Reconciler Tagged
sample_reconciler = record {
  platform = sample_platform;
  aws = sample_aws;
  akamai = sample_linode;
  records = true;
  set_status_condition = λ cs c. (true, c ∷ cs);
  remove_status_condition = λ cs type. [];
  retry_on_conflict = λ f. f;
  contains_finalizer = λ fs f. any (λ g. g == f) fs;
  add_finalizer = λ fs f. f ∷ fs;
  remove_finalizer = λ fs f. [];
  set_controller_reference = λ app meta. ok (record meta { controller = some app.uid });
  is_controlled_by = λ meta app. true;
  new_uuid = λ w. ("oid-9", w);
  status_manager = record {
    client = cluster;
    api_reader = λ ns name. pure sample_app;
    set_status_condition = λ cs c. (true, c ∷ cs);
    retry_on_conflict = λ f. f;
  };
  jitter = λ w n. n;
  storage_resync_interval = pos 0;
}

pub sample_retries : RetriesStatus sample_reconciler
sample_retries f s = Retried.last refl

abbrev pub roles : Result (AwsConfig Tagged) → IamApi Tagged
roles (ok config) = config.iam_client
roles (err e) = sample_iam

-- The cluster, the roles and the keys of the samples leave the tags alone.
pub samples-Apart : Apart sample_reconciler (λ w. w)
samples-Apart = record {
  get_application = λ ns name w. refl;
  get_secret = λ ns name w. refl;
  update_status = λ app w. refl;
  load_config = λ region c w. refl;
  deleting_roles = λ region c w config made. record {
    delete_role_policy =
        λ role name v. subst (λ q. ((roles q).delete_role_policy role name v).1 ≡ v) made refl;
    delete_role = λ role v. subst (λ q. ((roles q).delete_role role v).1 ≡ v) made refl;
  };
  list_keys = λ token w. refl;
  delete_key = λ token id w. refl;
}
