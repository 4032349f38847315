-- ===== src/Storage/ReadOnly/Attributes.antt =====
-- The volume attributes of a CSI volume, written under "csi." and read back.
use aitrigram.Base.{
  String, ◌≡◌, refl, sym, ap, ◌∙◌, inl, inr, [], ◌∷◌, false, Option, none, some, arith, Bool-cases,
  none-ne-some, Option-cases, ◌==◌, eq_iff, Map, lookup, insert, lookup-insert, or_else,
  HasUniqueKeys, insert-HasUniqueKeys, concat, concat_cancel, strip_prefix, strip_prefix-concat,
  concat_of_strip_prefix,
}
use aitrigram.Storage.Backend.{insert_attributes}
use aitrigram.Storage.ReadOnly.{rebuild_attributes, rebuild_attributes_into}

abbrev pub csi_key : String → String
csi_key k = concat "csi." k

csi_key-== : (i k : String) → csi_key i == csi_key k ≡ i == k
csi_key-== i k = elim (Bool-cases (i == k)) [
  | inl same ↦ ground (arith, eq_iff i k, eq_iff (csi_key i) (csi_key k))
  | inr other ↦ ground (arith, eq_iff i k, eq_iff (csi_key i) (csi_key k), concat_cancel "csi." i k)
]

-- Writing under "csi." neither drops an attribute nor lets a detail hide one.
lookup-insert_attributes :
    (k : String) (attributes details : Map String)
    → HasUniqueKeys attributes
    → lookup (csi_key k) (insert_attributes attributes details)
      ≡ or_else (lookup k attributes) (lookup (csi_key k) details)
unfolding insert_attributes lookup
lookup-insert_attributes k [] details u = refl
lookup-insert_attributes k ((i, v) ∷ attributes) details (fresh, u) = ground (
  arith,
  eq_iff i k,
  csi_key-== i k,
  lookup-insert (csi_key i) (csi_key k) v details,
  lookup-insert_attributes k attributes (insert (csi_key i) v details) u,
)

pub csi_key-ne : (i j : String) → strip_prefix "csi." j ≡ none → csi_key i == j ≡ false
csi_key-ne i j h = elim (Bool-cases (csi_key i == j)) [
  | inl same ↦ absurd (
      none-ne-some (
        sym (strip_prefix-concat "csi." i)
        ∙ ap (strip_prefix "csi.") ((eq_iff (csi_key i) j).0 same)
        ∙ h))
  | inr other ↦ other
]

-- A key that does not begin with "csi." is left alone.
pub lookup-insert_attributes_ne :
    (j : String) (attributes details : Map String)
    → strip_prefix "csi." j ≡ none
    → lookup j (insert_attributes attributes details) ≡ lookup j details
unfolding insert_attributes
lookup-insert_attributes_ne j [] details h = refl
lookup-insert_attributes_ne j ((i, v) ∷ attributes) details h =
    lookup-insert_attributes_ne j attributes (insert (csi_key i) v details) h
    ∙ lookup-insert (csi_key i) j v details
    ∙ rw (csi_key-ne i j h)

insert_attributes-HasUniqueKeys :
    (attributes details : Map String)
    → HasUniqueKeys details
    → HasUniqueKeys (insert_attributes attributes details)
unfolding insert_attributes
insert_attributes-HasUniqueKeys [] details u = u
insert_attributes-HasUniqueKeys ((i, v) ∷ attributes) details u =
    insert_attributes-HasUniqueKeys attributes (insert (csi_key i) v details)
      (insert-HasUniqueKeys (csi_key i) v details u)

-- A foreign entry answers to no attribute.
pub key_ne_of_foreign : (j k : String) → strip_prefix "csi." j ≡ none → j == csi_key k ≡ false
key_ne_of_foreign j k h =
    ground (arith, eq_iff j (csi_key k), eq_iff (csi_key k) j, csi_key-ne k j h)

-- One attribute that is read back, where its key stands nowhere else.
rebuilt :
    (k name j v : String) (out details : Map String)
    → j ≡ csi_key name
    → lookup j details ≡ none
    → or_else (lookup (csi_key k) details) (lookup k (insert name v out))
      ≡ or_else (lookup (csi_key k) ((j, v) ∷ details)) (lookup k out)
unfolding lookup
rebuilt k name j v out details key fresh = ground (
  arith,
  eq_iff name k,
  eq_iff j (csi_key k),
  csi_key-== name k,
  eq_iff (csi_key name) (csi_key k),
  lookup-insert name k v out,
)

or_else-none : (o : Option String) → or_else (or_else o none) none ≡ o
or_else-none none = refl
or_else-none (some v) = refl

lookup-rebuild_attributes_into :
    (k : String) (out details : Map String)
    → HasUniqueKeys details
    → lookup k (rebuild_attributes_into out details)
      ≡ or_else (lookup (csi_key k) details) (lookup k out)
unfolding rebuild_attributes_into lookup
lookup-rebuild_attributes_into k out [] u = refl
lookup-rebuild_attributes_into k out ((j, v) ∷ details) (fresh, u) =
    elim (Option-cases (strip_prefix "csi." j)) [
      | inl foreign ↦
          let other : j == csi_key k ≡ false = key_ne_of_foreign j k foreign in
          rw (foreign, rebuild_attributes_into)
            (rw other (lookup-rebuild_attributes_into k out details u))
      | inr (name, e) ↦
          let key : j ≡ csi_key name = concat_of_strip_prefix "csi." j name e in
          let rest = lookup-rebuild_attributes_into k (insert name v out) details u in
          rw (e, rebuild_attributes_into) (rest ∙ rebuilt k name j v out details key fresh)
    ]

-- What is read back is what was written, attribute by attribute, provided that the other details
-- keep clear of "csi.".
pub lookup-rebuild_attributes :
    (k : String) (attributes details : Map String)
    → HasUniqueKeys attributes
    → HasUniqueKeys details
    → lookup (csi_key k) details ≡ none
    → lookup k (rebuild_attributes (insert_attributes attributes details)) ≡ lookup k attributes
unfolding rebuild_attributes lookup
lookup-rebuild_attributes k attributes details u u' clear =
    lookup-rebuild_attributes_into k [] (insert_attributes attributes details)
      (insert_attributes-HasUniqueKeys attributes details u')
    ∙ ap (λ o. or_else o none) (lookup-insert_attributes k attributes details u)
    ∙ rw clear (or_else-none (lookup k attributes))
