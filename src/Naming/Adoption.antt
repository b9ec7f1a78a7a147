-- ===== src/Naming/Adoption.antt =====
-- internal/controller/naming/naming.go: whether an Application may take over a bucket that
-- another one owned. Children: Entitlement (who may, and under which
-- circumstances), Keeping (what the evaluation leaves alone).
pub mod Entitlement
pub mod Keeping
use forge_operator.Prelude.{
  String, Bool, true, false, List, [], ◌∷◌, Exec, pure, fail, mapping_error, try, ◌>>=◌, ok, err,
  Result, Error, new_error, wrap, any, ◌==◌, if◌then◌else◌, concat, quote, lookup,
}
use forge_operator.Api.{Application}
use forge_operator.Cluster.{Client, Namespace}
use forge_operator.Naming.Text.{split_comma, trim_space}

abbrev pub allow_bucket_adoption_from_annotation : String
allow_bucket_adoption_from_annotation = "forge.ningendo7.github.io/allow-bucket-adoption-from"

-- The test of a grant's value, and the loop over its comma-separated entries.
unfoldable pub grants : String → String → Bool
unfolding split_comma trim_space
grants grant adopting_namespace =
    if grant == ""
    then false
    else if grant == "*"
    then true
    else any (λ allowed. trim_space allowed == adopting_namespace) (split_comma grant)

abbrev no_grant : String → String → Error
no_grant owner_namespace adopting_namespace = new_error (
    concat (
      "cross-namespace adoption ("
      ∷ owner_namespace
      ∷ " -> "
      ∷ adopting_namespace
      ∷ ") requires namespace "
      ∷ quote owner_namespace
      ∷ " to carry the "
      ∷ allow_bucket_adoption_from_annotation
      ∷ " annotation naming "
      ∷ quote adopting_namespace
      ∷ []))

module _ {W : Type 0} (c : Client W) where
  unfoldable pub application_exists_with_uid : String → Exec W Bool
  application_exists_with_uid uid = if uid == "" then pure false else do
    items ←
        mapping_error
          (λ e.
            wrap (concat ("failed to list Applications while checking for UID " ∷ uid ∷ ": " ∷ []))
              e "")
          c.list_applications
    pure (any (λ (a : Application). a.uid == uid) items)

  abbrev read_grant : String → String → Result Namespace → Exec W Bool
  read_grant owner_namespace adopting_namespace (err e) =
      if e.is_not_found
      then pure false
      else fail (
          wrap
            (concat (
              "failed to get namespace "
              ∷ quote owner_namespace
              ∷ " while checking cross-namespace bucket adoption grant: "
              ∷ []))
            e "")
  read_grant owner_namespace adopting_namespace (ok ns) =
      pure (grants (lookup ns.annotations allow_bucket_adoption_from_annotation) adopting_namespace)

  unfoldable pub cross_namespace_adoption_allowed : String → String → Exec W Bool
  cross_namespace_adoption_allowed owner_namespace adopting_namespace = do
    r ← try (c.get_namespace owner_namespace)
    read_grant owner_namespace adopting_namespace r

  unfoldable pub evaluate_bucket_adoption : String → String → String → Exec W (Unit {0})
  evaluate_bucket_adoption owner_uid owner_namespace adopting_namespace = do
    exists ←
        mapping_error (λ e. wrap "could not confirm the previous owner no longer exists: " e "")
          (application_exists_with_uid owner_uid)
    if exists
        then fail (new_error "the Application that currently owns this bucket still exists")
        else if owner_namespace == ""
        then fail (
            new_error
              "this bucket's ownership was recorded before namespace-scoped adoption shipped; re-tag it manually before adopting")
        else if owner_namespace == adopting_namespace
        then pure tt
        else do
          allowed ←
              mapping_error
                (λ e. wrap "could not verify cross-namespace bucket adoption grant: " e "")
                (cross_namespace_adoption_allowed owner_namespace adopting_namespace)
          if allowed then pure tt else fail (no_grant owner_namespace adopting_namespace)
