-- ===== src/S3/Cleanup/Objects.antt =====
-- When deleteAllObjectVersions of internal/controller/s3/cleanup.go succeeds: then no object of any
-- page was left out or reported as not deleted.
use forge_operator.Prelude.{
  All, true, List, [], ◌∷◌, ◌++◌, ◌≡◌, ◌↔◌, Result, ok, err, is_ok, arith, Exec, ◌>>◌, subst, sym,
  Result-cases, inl, inr,
}
use forge_operator.S3.Session.{
  Env, Session, Manager, ObjectIdentifier, Page, Paginator, finished, more,
}
use forge_operator.S3.Cleanup.Batches.{concatenation, IsBatch, batches_lem}
use forge_operator.S3.Cleanup.{
  batches, delete_batches, delete_pages, delete_page, delete_all_object_versions,
}

module _ {W : Type 0} (env : Env W) (m : Manager W) where
  -- the session after DeleteObjects with this batch
  abbrev pub after_batch : List ObjectIdentifier → Session W → Session W
  after_batch b s = record s { world = (env.s3.delete_objects m.bucket b s.world).1 }

  abbrev pub after_batches : List (List ObjectIdentifier) → Session W → Session W
  after_batches [] s = s
  after_batches (b ∷ bs) s = after_batches bs (after_batch b s)

  -- Each batch is deleted with no error of an object, in the session that the ones before it leave.
  abbrev pub AllDeleted : List (List ObjectIdentifier) → Session W → Type 0
  AllDeleted [] s = Unit
  AllDeleted (b ∷ bs) s =
      ((env.s3.delete_objects m.bucket b s.world).0 ≡ ok []) × AllDeleted bs (after_batch b s)

  -- The batches of a page: of its versions and its delete markers.
  abbrev pub page_batches : Page → List (List ObjectIdentifier)
  page_batches p = batches (p.versions ++ p.delete_markers)

  -- Each page can be read, its batches are all its versions and delete markers in pieces of one to 1000,
  -- and all its batches are deleted, up to the last page, or up to a reply that the bucket is gone.
  abbrev pub PageDeleted : Result Page → (Session W → Type 0) → Session W → Type 0
  PageDeleted (err e) next s = e.as_no_such_bucket ≡ true
  PageDeleted (ok p) next s =
      All IsBatch (page_batches p)
      × (concatenation (page_batches p) ≡ p.versions ++ p.delete_markers)
      × AllDeleted (page_batches p) s
      × next (after_batches (page_batches p) s)

  unfoldable pub PagesDeleted : Paginator Page W → Session W → Type 0
  PagesDeleted finished s = Unit
  PagesDeleted (more reply step rest) s =
      PageDeleted (reply s.world) (PagesDeleted (rest s.world)) (record s { world = step s.world })

  delete_batches-world :
      (bs : List (List ObjectIdentifier)) (s : Session W)
      → is_ok (delete_batches env m bs s).0 ≡ true
      → (delete_batches env m bs s).1 ≡ after_batches bs s
  unfolding delete_batches
  delete_batches-world [] s h = ground arith
  delete_batches-world (b ∷ bs) s h =
      elim (Result-cases (env.s3.delete_objects m.bucket b s.world).0) [
        | inl ([], e) ↦ simp e (delete_batches-world bs (after_batch b s) (simp e at h))
        | inl (t ∷ ts, e) ↦ absurd (ground (arith, e))
        | inr (x, e) ↦ absurd (ground (arith, e))
      ]

  delete_batches_iff :
      (bs : List (List ObjectIdentifier)) (s : Session W)
      → (is_ok (delete_batches env m bs s).0 ≡ true) ↔ AllDeleted bs s
  unfolding delete_batches
  delete_batches_iff [] s = ground arith
  delete_batches_iff (b ∷ bs) s = elim (Result-cases (env.s3.delete_objects m.bucket b s.world).0) [
    | inl ([], e) ↦ ground (arith, e, delete_batches_iff bs (after_batch b s))
    | inl (t ∷ ts, e) ↦ ground (arith, e)
    | inr (x, e) ↦ ground (arith, e)
  ]

  both_iff :
      (f g : Exec (Session W) (Unit {0})) (t : Session W)
      → (is_ok ((f >> g) t).0 ≡ true) ↔ ((is_ok (f t).0 ≡ true) × (is_ok (g (f t).1).0 ≡ true))
  both_iff f g t = elim (Result-cases (f t).0) [
    | inl (tt, e) ↦ ground (arith, e)
    | inr (x, e) ↦ ground (arith, e)
  ]

  page_iff :
      (p : Page) (next : Exec (Session W) (Unit {0})) (Q : Session W → Type 0) (t : Session W)
      → ((u : Session W) → (is_ok (next u).0 ≡ true) ↔ Q u)
      → (is_ok ((delete_page env m p >> next) t).0 ≡ true) ↔ PageDeleted (ok p) Q t
  page_iff p next Q t h =
      let both = both_iff (delete_page env m p) next t in
      let first = delete_batches_iff (page_batches p) t in
      let left = delete_batches-world (page_batches p) t in
      let (pieces, whole) = batches_lem (p.versions ++ p.delete_markers) in
      (
        (λ k.
            let (a, b) = both.0 k in
            (pieces, whole, first.0 a, (h _).0 (subst (λ u. is_ok (next u).0 ≡ true) (left a) b))),
        λ (_, _, d, q).
            let a = first.1 d in
            both.1 (a, subst (λ u. is_ok (next u).0 ≡ true) (sym (left a)) ((h _).1 q)),
      )

  delete_pages_iff :
      (p : Paginator Page W) (s : Session W)
      → (is_ok (delete_pages env m p s).0 ≡ true) ↔ PagesDeleted p s
  unfolding delete_pages PagesDeleted
  delete_pages_iff finished s = ground arith
  delete_pages_iff (more reply step rest) s = elim (Result-cases (reply s.world)) [
    | inl (p, e) ↦ rw e (
        page_iff p (delete_pages env m (rest s.world)) (PagesDeleted (rest s.world))
          (record s { world = step s.world }) (delete_pages_iff (rest s.world)))
    | inr (x, e) ↦ ground (arith, e)
  ]

  -- deleteAllObjectVersions succeeds exactly if page after page can be read, and every version and
  -- delete marker of each is deleted, in the page's order and in pieces of one to 1000 objects, without
  -- an error of an object, up to the last page or up to a reply that the bucket is gone.
  pub delete_all_object_versions_iff :
      (s : Session W)
      → (is_ok (delete_all_object_versions env m s).0 ≡ true)
        ↔ PagesDeleted (env.s3.list_object_versions m.bucket) s
  unfolding delete_all_object_versions
  delete_all_object_versions_iff s = delete_pages_iff (env.s3.list_object_versions m.bucket) s
