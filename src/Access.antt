-- ===== src/Access.antt =====
-- core/context/access_group.h, core/context/access_item.h, core/context/source_record.h and the
-- access checks of core/src/caster_internal.cpp (is_nearest_mpt to check_mount_nearby).
-- The maps are those of `caster_internal` that the checks read. A check returns whether it allows,
-- and what it has written through `reason` ("" for a caller whose string it did not touch).
pub mod Inside
pub mod Rules
pub mod Examples
use nav_caster.Base.{
  String, str_eq, is_empty, Bool, true, false, not, ◌&&◌, Option, none, some, List, [], ◌∷◌,
  if◌then◌else◌,
}
use nav_caster.Base.Dict.{Dict, find, has, is_nil}

-- `caster::core::AccessState`
pub data AccessState : Type 0 where
  default enable disable : AccessState

-- The members of `access_group` that the checks read.
pub record AccessGroup : Type 0 where
  pub nearest_mpt_enable : Bool
  pub nearest_mpt_source_name : String
  pub allow_visible_inside_group : Bool
  pub allow_access_inside_group : Bool
  pub allow_nearby_inside_group : Bool
  pub allow_visible_outside_group : Bool
  pub allow_access_outside_group : Bool
  pub allow_nearby_outside_group : Bool

pub record AccessItem : Type 0 where
  pub mount_point_name : String
  pub allow_visible : AccessState
  pub allow_access : AccessState
  pub allow_nearby : AccessState

pub record SourceRecord : Type 0 where
  pub mountpoint : String
  pub source_group_uid : String

pub record Policy : Type 0 where
  pub source_record_map : Dict SourceRecord
  pub source_decode_map : Dict SourceRecord
  pub access_group_map : Dict AccessGroup
  pub access_item_map : Dict (Dict AccessItem)
  pub alias_rule_map : Dict (List String)

pub record Verdict : Type 0 where
  pub allowed : Bool
  pub reason : String

unfoldable pub allow : Verdict
allow = record { allowed = true; reason = "" }

unfoldable pub deny : String → Verdict
deny r = record { allowed = false; reason = r }

unfoldable pub normalize_access_group_uid : String → String
normalize_access_group_uid uid = if is_empty uid then "default" else uid

unfoldable pub is_privileged_access_group : String → Bool
is_privileged_access_group uid = str_eq uid "SYSTEM"

-- The condition that is_nearest_mpt and resolve_mount_group put to one group.
unfoldable pub nearest_of : String → AccessGroup → Bool
nearest_of mount g =
    g.nearest_mpt_enable
    && not (is_empty g.nearest_mpt_source_name)
    && str_eq g.nearest_mpt_source_name mount

unfoldable pub nearest_group : String → Dict AccessGroup → Option String
unfolding nearest_of
nearest_group mount [] = none
nearest_group mount ((uid, g) ∷ rest) =
    if nearest_of mount g then some uid else nearest_group mount rest

unfoldable pub is_nearest_mpt : Policy → String → Bool
unfolding nearest_group
is_nearest_mpt p mount = elim (nearest_group mount p.access_group_map) [
  | none ↦ false
  | some uid ↦ true
]

unfoldable pub is_alias_mpt : Policy → String → Bool
unfolding has
is_alias_mpt p mount = has mount p.alias_rule_map

-- `find` in one of the two source maps, and the group of what it finds.
unfoldable pub source_group : String → Dict SourceRecord → Option String
unfolding find
source_group mount m = elim (find mount m) [ none ↦ none | some r ↦ some r.source_group_uid ]

unfoldable pub item_group : String → Dict (Dict AccessItem) → Option String
unfolding has
item_group mount [] = none
item_group mount ((uid, items) ∷ rest) = if has mount items then some uid else item_group mount rest

-- The last two loops of resolve_mount_group.
unfoldable pub resolve_by_policy : Policy → String → String
unfolding item_group nearest_group
resolve_by_policy p mount = elim (item_group mount p.access_item_map) [
  | some uid ↦ uid
  | none ↦ elim (nearest_group mount p.access_group_map) [ some uid ↦ uid | none ↦ "default" ]
]

-- `it != end() && it->second.source_group_uid() != "default"` for the iterator of a source map.
unfoldable pub custom_group : Option String → Option String
custom_group none = none
custom_group (some uid) = if str_eq uid "default" then none else some uid

unfoldable pub resolve_mount_group : Policy → String → String
unfolding source_group custom_group resolve_by_policy
resolve_mount_group p mount = elim (custom_group (source_group mount p.source_record_map)) [
  | some uid ↦ uid
  | none ↦ elim (custom_group (source_group mount p.source_decode_map)) [
    | some uid ↦ uid
    | none ↦ resolve_by_policy p mount
  ]
]

unfoldable pub source_in : String → String → Dict SourceRecord → Bool
unfolding source_group
source_in group mount m = elim (source_group mount m) [ none ↦ false | some uid ↦ str_eq uid group ]

unfoldable pub item_of : Policy → String → String → Option AccessItem
unfolding find
item_of p group mount = elim (find group p.access_item_map) [
  | none ↦ none
  | some items ↦ find mount items
]

unfoldable pub item_in : Policy → String → String → Bool
unfolding item_of
item_in p group mount = elim (item_of p group mount) [ none ↦ false | some item ↦ true ]

unfoldable pub nearest_in : Policy → String → String → Bool
unfolding find
nearest_in p group mount = elim (find group p.access_group_map) [
  | none ↦ false
  | some g ↦ g.nearest_mpt_enable && str_eq g.nearest_mpt_source_name mount
]

unfoldable pub is_mount_inside_group : Policy → String → String → Bool
is_mount_inside_group p group_uid mount =
    let group = normalize_access_group_uid group_uid in
    if source_in group mount p.source_record_map
    then true
    else if source_in group mount p.source_decode_map
    then true
    else if item_in p group mount
    then true
    else if nearest_in p group mount
    then true
    else str_eq (resolve_mount_group p mount) group

unfoldable pub check_nearest_mount_login : Policy → String → String → Verdict
unfolding is_privileged_access_group allow deny
check_nearest_mount_login p group_uid mount =
    let group = normalize_access_group_uid group_uid in
    if is_nil p.access_group_map
    then deny "Access group policy not loaded"
    else if is_privileged_access_group group
    then record { allowed = is_nearest_mpt p mount; reason = "" }
    else elim (find group p.access_group_map) [
      | none ↦ deny "Access group not found"
      | some g ↦
          if not g.nearest_mpt_enable
          then deny "Nearest mount point disabled by group policy"
          else if not (str_eq g.nearest_mpt_source_name mount)
          then deny "Nearest mount point not configured for group"
          else allow
    ]

-- `allowed` chosen by `inside_group`, with the reason of a denial.
unfoldable pub group_verdict : Bool → Bool → Bool → String → String → Verdict
unfolding allow deny
group_verdict inside in_flag out_flag in_reason out_reason =
    if inside
    then (if in_flag then allow else deny in_reason)
    else (if out_flag then allow else deny out_reason)

-- An item's state decides unless it is the default.
unfoldable pub item_verdict : Option AccessState → String → Verdict → Verdict
unfolding allow deny
item_verdict none r otherwise = otherwise
item_verdict (some enable) r otherwise = allow
item_verdict (some disable) r otherwise = deny r
item_verdict (some default) r otherwise = otherwise

unfoldable pub check_mount_visible : Policy → String → String → Verdict
unfolding is_privileged_access_group allow deny
check_mount_visible p group_uid mount =
    let group = normalize_access_group_uid group_uid in
    if is_nil p.access_group_map && is_nil p.access_item_map
    then allow
    else if is_privileged_access_group group
    then allow
    else elim (find group p.access_group_map) [
      | none ↦ deny "Access group not found"
      | some g ↦
          item_verdict
            (elim (item_of p group mount) [ none ↦ none | some item ↦ some item.allow_visible ])
            "Mount point visible disabled by item policy"
            (group_verdict (is_mount_inside_group p group mount) g.allow_visible_inside_group
              g.allow_visible_outside_group "Mount point visible disabled inside group"
              "Mount point visible disabled outside group")
    ]

unfoldable pub check_mount_access : Policy → String → String → Verdict
unfolding is_privileged_access_group allow deny
check_mount_access p group_uid mount =
    let group = normalize_access_group_uid group_uid in
    if is_nil p.access_group_map && is_nil p.access_item_map
    then allow
    else if is_privileged_access_group group
    then allow
    else elim (find group p.access_group_map) [
      | none ↦ deny "Access group not found"
      | some g ↦
          item_verdict
            (elim (item_of p group mount) [ none ↦ none | some item ↦ some item.allow_access ])
            "Mount point access disabled by item policy"
            (group_verdict (is_mount_inside_group p group mount) g.allow_access_inside_group
              g.allow_access_outside_group "Mount point access disabled inside group"
              "Mount point access disabled outside group")
    ]

unfoldable pub check_mount_nearby : Policy → String → String → Verdict
unfolding is_privileged_access_group allow deny
check_mount_nearby p group_uid mount =
    let group = normalize_access_group_uid group_uid in
    if is_nil p.access_group_map && is_nil p.access_item_map
    then allow
    else if is_privileged_access_group group
    then allow
    else elim (find group p.access_group_map) [
      | none ↦ deny "Access group not found"
      | some g ↦
          if not g.nearest_mpt_enable
          then deny "Nearest mount point disabled by group policy"
          else item_verdict
              (elim (item_of p group mount) [ none ↦ none | some item ↦ some item.allow_nearby ])
              "Mount point nearby disabled by item policy"
              (group_verdict (is_mount_inside_group p group mount) g.allow_nearby_inside_group
                g.allow_nearby_outside_group "Mount point nearby disabled inside group"
                "Mount point nearby disabled outside group")
    ]
