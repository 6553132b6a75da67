-- ===== src/Access/Examples.antt =====
-- The access rules at concrete policies.
use nav_caster.Base.{◌≡◌, refl, ◌↔◌, true, false, [], ◌∷◌}
use nav_caster.Base.Dict.{has}
use nav_caster.Access.{
  Policy, AccessGroup, default, enable, disable, check_mount_visible, check_mount_access,
  check_mount_nearby, is_mount_inside_group,
}
use nav_caster.Access.Rules.{Rule, visible_iff, access_iff, nearby_iff}
use nav_caster.Access.Inside.{claims, inside-claims}

abbrev survey : AccessGroup
survey = record {
  nearest_mpt_enable = true;
  nearest_mpt_source_name = "NEAR";
  allow_visible_inside_group = true;
  allow_access_inside_group = true;
  allow_nearby_inside_group = true;
  allow_visible_outside_group = false;
  allow_access_outside_group = false;
  allow_nearby_outside_group = false;
}

abbrev policy : Policy
policy = record {
  source_record_map = [];
  source_decode_map = [];
  access_group_map = ("survey", survey) ∷ [];
  access_item_map =
      (
        "survey",
        (
          "BASE1",
          record {
            mount_point_name = "BASE1";
            allow_visible = default;
            allow_access = disable;
            allow_nearby = enable;
          },
        )
            ∷ [],
      )
      ∷ [];
  alias_rule_map = [];
}

visible_iff_example :
    ((check_mount_visible policy "survey" "BASE1").allowed ≡ true)
    ↔ Rule policy "survey" "BASE1"
        (λ g. true)
        (λ i. i.allow_visible)
        (λ g. g.allow_visible_inside_group)
        (λ g. g.allow_visible_outside_group)
visible_iff_example = visible_iff policy "survey" "BASE1"

access_iff_example :
    ((check_mount_access policy "survey" "BASE1").allowed ≡ true)
    ↔ Rule policy "survey" "BASE1"
        (λ g. true)
        (λ i. i.allow_access)
        (λ g. g.allow_access_inside_group)
        (λ g. g.allow_access_outside_group)
access_iff_example = access_iff policy "survey" "BASE1"

nearby_iff_example :
    ((check_mount_nearby policy "survey" "BASE1").allowed ≡ true)
    ↔ Rule policy "survey" "BASE1"
        (λ g. g.nearest_mpt_enable)
        (λ i. i.allow_nearby)
        (λ g. g.allow_nearby_inside_group)
        (λ g. g.allow_nearby_outside_group)
nearby_iff_example = nearby_iff policy "survey" "BASE1"

inside-claims_example :
    is_mount_inside_group policy "survey" "BASE1" ≡ claims policy "survey" "BASE1"
unfolding has
inside-claims_example =
    inside-claims policy "survey" "BASE1" (refl, tt) (refl, tt) (λ e. cc e) (λ e. cc e)
