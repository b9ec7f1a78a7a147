-- ===== src/Naming/Names/RoleNames.antt =====
-- What naming.CloudResourceName (internal/controller/naming/naming.go) guarantees of the names of
-- IAM roles and access keys: their length, and whether two Applications can share one.
use Prim.Native.Nat.{min, ℕ, ◌-◌, compare, Ordering}
use Prim.Native.Char.{Char, len_utf8}
use Prim.Native.String
use Prim.Native.String.{◌++◌, len, slice, fits}
use text.Mathlib.TextLemmas.{append_assoc}
use text.Mathlib.TextPositions.{len-append}
use forge_operator.Prelude.{◌≤◌, String, List, [], ◌∷◌, ◌≡◌, refl, ap, arith, join}
use forge_operator.Naming.Names.{shorten, cloud_resource_name}

len-fits :
    (o : Ordering) (c : Char) (t : String) (k : ℕ)
    → compare (len_utf8 c) k ≡ o
    → len t ≤ k - len_utf8 c
    → len (fits o c t) ≤ k
len-fits Ordering.lt c t k e h = rw String.len.cons (ground arith)
len-fits Ordering.eq c t k e h = rw String.len.cons (ground arith)
len-fits Ordering.gt c t k e h = rw String.len.nil (omega arith)

pub len-slice : (s : String) (k : ℕ) → len (slice s 0 k) ≤ k
len-slice String.[] k = rw (String.slice.nil 0 k, String.len.nil) (omega arith)
len-slice (String.◌∷◌ c s) k =
    rw (String.slice.cons-zero c s k)
      (len-fits (compare (len_utf8 c) k) c (slice s 0 (k - len_utf8 c)) k refl (len-slice s _))

-- A name is never longer than the limit, if the limit leaves room for the digest's nine bytes.
pub len-cloud_resource_name :
    (sha256_hex : String → String) (parts : List String) (max_len : ℕ)
    → 9 ≤ max_len
    → len (cloud_resource_name sha256_hex parts max_len) ≤ max_len
unfolding cloud_resource_name shorten
len-cloud_resource_name sha256_hex parts max_len h =
    let full = join "-" parts in
    let digest = slice (sha256_hex full) 0 8 in
    let keep = min (max_len - len ("-" ++ digest)) (len full) in
    ground (
      arith,
      len-append (slice full 0 keep) ("-" ++ digest),
      len-append "-" digest,
      len-slice (sha256_hex full) 8,
      len-slice full keep,
    )

-- Two lists of three parts that differ only in where a dash stands, inside the second part or
-- inside the third, get one name, whatever the digest and the limit.
pub cloud_resource_name_shared :
    (sha256_hex : String → String) (prefix a b c : String) (max_len : ℕ)
    → cloud_resource_name sha256_hex (prefix ∷ (a ++ ("-" ++ b)) ∷ c ∷ []) max_len
      ≡ cloud_resource_name sha256_hex (prefix ∷ a ∷ (b ++ ("-" ++ c)) ∷ []) max_len
unfolding cloud_resource_name join
cloud_resource_name_shared sha256_hex prefix a b c max_len =
    ap (λ t. shorten sha256_hex t max_len) (simp append_assoc)
