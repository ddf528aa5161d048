-- ===== src/Cf/Property/Merge.antt =====
-- What _merge_property_lists gives.
use recsync.Prelude.{
  [], ◌∷◌, ◌++◌, ◌≡◌, not, ◌&&◌, List, Str, str_eq, arith, append-nil, append_assoc, if◌then◌else◌,
  sym,
}
use recsync.Sets.{set_contains}
use recsync.Cf.Property.{CfProperty, names, keep_unmanaged, merge_property_lists}

-- The old properties that are neither replaced nor managed.
abbrev pub unmanaged : List Str → List Str → List CfProperty → List CfProperty
unmanaged replaced managed [] = []
unmanaged replaced managed (p ∷ ps) =
    let rest = unmanaged replaced managed ps in
    if not (set_contains replaced p.name) && not (set_contains managed p.name)
    then p ∷ rest
    else rest

keep_unmanaged_lem :
    (replaced managed : List Str) (new old : List CfProperty)
    → keep_unmanaged replaced managed new old ≡ new ++ unmanaged replaced managed old
unfolding keep_unmanaged
keep_unmanaged_lem replaced managed new [] = sym (append-nil new)
keep_unmanaged_lem replaced managed new (p ∷ ps) = ground (
  arith,
  keep_unmanaged_lem replaced managed new ps,
  keep_unmanaged_lem replaced managed (new ++ p ∷ []) ps,
  append_assoc new (p ∷ []) (unmanaged replaced managed ps),
)

-- The merged list is the new properties and then, in their order, the old ones whose names are
-- neither among the new names nor managed.
pub merge_property_lists_lem :
    (new old : List CfProperty) (managed : List Str)
    → merge_property_lists new old managed ≡ new ++ unmanaged (names new) managed old
unfolding merge_property_lists
merge_property_lists_lem new old managed = keep_unmanaged_lem (names new) managed new old
