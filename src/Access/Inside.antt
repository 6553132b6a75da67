-- ===== src/Access/Inside.antt =====
-- Which mounts count as inside a group (is_mount_inside_group, resolve_mount_group).
use nav_caster.Base.{
  String, eq_iff, ◌≡◌, ◌≢◌, inl, inr, Bool, true, ◌||◌, some, [], ◌∷◌, arith, Bool-cases,
}
use nav_caster.Base.Dict.{Dict, Distinct, find, has, find-cons_later}
use nav_caster.Access.{
  Policy, AccessGroup, AccessItem, SourceRecord, normalize_access_group_uid, nearest_of,
  nearest_group, source_group, item_group, custom_group, resolve_by_policy, resolve_mount_group,
  source_in, item_of, item_in, nearest_in, is_mount_inside_group,
}

-- The group that item_group returns has the mount among its items.
item_group_found :
    (mount uid : String) (m : Dict (Dict AccessItem))
    → Distinct m
    → item_group mount m ≡ some uid
    → (items : Dict AccessItem) × (find uid m ≡ some items) × (has mount items ≡ true)
unfolding item_group find
item_group_found mount uid [] d h = cc
item_group_found mount uid ((j, items) ∷ m) d h = elim (Bool-cases (has mount items)) [
  | inl e ↦ (items, ground (arith, eq_iff j uid), e)
  | inr e ↦
      let (found, at, e') = item_group_found mount uid m d.1 (rw e at h) in
      (found, find-cons_later uid j found items m d.0 at, e')
]

nearest_group_found :
    (mount uid : String) (m : Dict AccessGroup)
    → Distinct m
    → nearest_group mount m ≡ some uid
    → (g : AccessGroup) × (find uid m ≡ some g) × (nearest_of mount g ≡ true)
unfolding nearest_group find
nearest_group_found mount uid [] d h = cc
nearest_group_found mount uid ((j, g) ∷ m) d h = elim (Bool-cases (nearest_of mount g)) [
  | inl e ↦ (g, ground (arith, eq_iff j uid), e)
  | inr e ↦
      let (found, at, e') = nearest_group_found mount uid m d.1 (rw e at h) in
      (found, find-cons_later uid j found g m d.0 at, e')
]

-- The four direct tests of is_mount_inside_group: a record of the mount's source names the group,
-- the group has an item for the mount, or the mount is the group's nearest mount point.
abbrev pub claims : Policy → String → String → Bool
claims p group mount =
    source_in group mount p.source_record_map
    || source_in group mount p.source_decode_map
    || item_in p group mount
    || nearest_in p group mount

source_in_of :
    (group mount : String) (m : Dict SourceRecord)
    → custom_group (source_group mount m) ≡ some group
    → source_in group mount m ≡ true
unfolding custom_group source_in
source_in_of group mount m h = ground (arith, eq_iff group group)

item_in_of :
    (p : Policy) (group mount : String)
    → Distinct p.access_item_map
    → item_group mount p.access_item_map ≡ some group
    → item_in p group mount ≡ true
unfolding item_in item_of has
item_in_of p group mount d h = ground (arith, item_group_found mount group p.access_item_map d h)

nearest_in_of :
    (p : Policy) (group mount : String)
    → Distinct p.access_group_map
    → nearest_group mount p.access_group_map ≡ some group
    → nearest_in p group mount ≡ true
unfolding nearest_in nearest_of
nearest_in_of p group mount d h =
    ground (arith, nearest_group_found mount group p.access_group_map d h)

resolve_by_policy-claims :
    (p : Policy) (group mount : String)
    → Distinct p.access_item_map
    → Distinct p.access_group_map
    → group ≢ "default"
    → resolve_by_policy p mount ≡ group
    → claims p group mount ≡ true
unfolding resolve_by_policy
resolve_by_policy-claims p group mount di dg ne h =
    ground (arith, item_in_of p group mount di, nearest_in_of p group mount dg)

resolve-claims :
    (p : Policy) (group mount : String)
    → Distinct p.access_item_map
    → Distinct p.access_group_map
    → group ≢ "default"
    → resolve_mount_group p mount ≡ group
    → claims p group mount ≡ true
unfolding resolve_mount_group
resolve-claims p group mount di dg ne h = ground (
  arith,
  source_in_of group mount p.source_record_map,
  source_in_of group mount p.source_decode_map,
  resolve_by_policy-claims p group mount di dg ne,
)

-- For a group other than the default one the last test of is_mount_inside_group, which resolves the
-- mount's group through the first match in two unordered maps, adds nothing: the mount is inside
-- exactly if one of the four direct tests holds. So the answer does not depend on the order in
-- which the maps are walked. The maps' keys are distinct, as those of an unordered_map are.
pub inside-claims :
    (p : Policy) (group mount : String)
    → Distinct p.access_item_map
    → Distinct p.access_group_map
    → group ≢ "default"
    → group ≢ ""
    → is_mount_inside_group p group mount ≡ claims p group mount
unfolding is_mount_inside_group normalize_access_group_uid
inside-claims p group mount di dg ne full = ground (
  arith,
  eq_iff group "",
  eq_iff (resolve_mount_group p mount) group,
  resolve-claims p group mount di dg ne,
)
