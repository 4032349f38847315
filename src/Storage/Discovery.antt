-- ===== src/Storage/Discovery.antt =====
-- internal/controller/storage/discovery.go. What the client's List returns is an argument.
pub mod Choice
use aitrigram.Base.{
  ℕ, ◌+◌, String, List, [], ◌∷◌, map, Bool, true, false, ◌&&◌, ◌||◌, Option, none, some, leb, Bytes,
  bytes, nat_eq, if◌then◌else◌, ◌==◌, Map, lookup,
}
use aitrigram.Base.Results.{Result, ok, err, ◌>>=◌}

-- corev1.PersistentVolumeAccessMode
pub data AccessMode : Type 0 where
  read_write_once read_only_many read_write_many : AccessMode

abbrev pub access_mode_text : AccessMode → String
access_mode_text read_write_once = "ReadWriteOnce"
access_mode_text read_only_many = "ReadOnlyMany"
access_mode_text read_write_many = "ReadWriteMany"

abbrev pub is_rwx : AccessMode → Bool
is_rwx read_write_many = true
is_rwx _ = false

abbrev pub is_rwo : AccessMode → Bool
is_rwo read_write_once = true
is_rwo _ = false

-- storagev1.StorageClass; a nil map of annotations reads as an empty one.
pub record StorageClass : Type 0 where
  pub name : String
  pub provisioner : String
  pub annotations : Map String

pub record StorageClassInfo : Type 0 where
  pub name : String
  pub provisioner : String
  pub type : String
  pub access_mode : AccessMode
  pub is_default : Bool

-- strings.ToLower, strings.HasPrefix and strings.Contains over bytes. A provisioner's name is ASCII.
lower_byte : ℕ → ℕ
lower_byte c = if leb b'A' c && leb c b'Z' then c + 32 else c

to_lower : Bytes → Bytes
to_lower s = map lower_byte s

has_prefix : Bytes → Bytes → Bool
has_prefix s [] = true
has_prefix [] (p ∷ ps) = false
has_prefix (c ∷ s) (p ∷ ps) = nat_eq c p && has_prefix s ps

contains : Bytes → Bytes → Bool
contains [] sub = has_prefix [] sub
contains (c ∷ s) sub = has_prefix (c ∷ s) sub || contains s sub

same : Bytes → Bytes → Bool
same s t = has_prefix s t && has_prefix t s

abbrev pub Kind : Type 0
Kind = String × AccessMode

-- The switch on the provisioner, in its order.
kind_of : Bytes → Kind
kind_of p =
    if contains p (bytes "nfs")
    then ("nfs", read_write_many)
    else if contains p (bytes "cephfs") || contains p (bytes "ceph.rbd.csi")
    then ("cephfs", read_write_many)
    else if contains p (bytes "glusterfs") || contains p (bytes "gluster")
    then ("glusterfs", read_write_many)
    else if same p (bytes "driver.longhorn.io")
    then ("longhorn", read_write_many)
    else if contains p (bytes "hostpath") || contains p (bytes "local")
    then ("local", read_write_once)
    else if contains p (bytes "ebs")
        || contains p (bytes "gce-pd")
        || contains p (bytes "azure-disk")
        || contains p (bytes "cinder")
    then ("block", read_write_once)
    else ("unknown", read_write_once)

marked_default : Option String → Bool
marked_default none = false
marked_default (some v) = v == "true"

unfoldable pub categorize_storage_class : StorageClass → StorageClassInfo
unfolding kind_of to_lower lower_byte contains has_prefix same marked_default
categorize_storage_class sc =
    let (type, mode) = kind_of (to_lower (bytes sc.provisioner)) in
    record {
      name = sc.name;
      provisioner = sc.provisioner;
      type = type;
      access_mode = mode;
      is_default =
          marked_default (lookup "storageclass.kubernetes.io/is-default-class" sc.annotations);
    }

-- for i := range available { if test(available[i]) { return &available[i] } }
unfoldable pub find_first {ℓ} : {A : Type ℓ} → (A → Bool) → List A → Option A
find_first test [] = none
find_first test (x ∷ xs) = if test x then some x else find_first test xs

abbrev pub or_try {ℓ} : {A : Type ℓ} → Option A → Option A → Option A
or_try none other = other
or_try (some a) other = some a

-- 1. the first RWX class, 2. the first default class, 3. the first RWO class
unfoldable pub select_auto : List StorageClassInfo → Option StorageClassInfo
select_auto available = or_try (find_first (λ i. is_rwx i.access_mode) available) (
    or_try (find_first (λ i. i.is_default) available)
      (find_first (λ i. is_rwo i.access_mode) available))

unfoldable pub select_by_name : List StorageClassInfo → String → Option StorageClassInfo
select_by_name available name = find_first (λ i. i.name == name) available

pub data DiscoveryError : Type 0 where
  list_failed none_in_cluster none_suitable : DiscoveryError
  not_found : String → DiscoveryError

unfoldable pub discover_storage_classes :
    Result DiscoveryError (List StorageClass) → Result DiscoveryError (List StorageClassInfo)
discover_storage_classes listed = do items ← listed; ok (map categorize_storage_class items)

or_error : DiscoveryError → Option StorageClassInfo → Result DiscoveryError StorageClassInfo
or_error e none = err e
or_error e (some info) = ok info

choose : String → List StorageClassInfo → Result DiscoveryError StorageClassInfo
choose preference [] = err none_in_cluster
choose preference (i ∷ is) =
    if preference == "auto" || preference == ""
    then or_error none_suitable (select_auto (i ∷ is))
    else or_error (not_found preference) (select_by_name (i ∷ is) preference)

unfoldable pub select_best_storage_class :
    Result DiscoveryError (List StorageClass) → String → Result DiscoveryError StorageClassInfo
unfolding choose or_error discover_storage_classes
select_best_storage_class listed preference = do
  available ← discover_storage_classes listed
  choose preference available
