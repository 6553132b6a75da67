-- ===== src/Access/Rules.antt =====
-- The access rules as a relation, beside the checks of core/src/caster_internal.cpp.
use nav_caster.Base.{
  not, String, eq_iff, ◌≡◌, refl, ◌↔◌, ◌⊎◌, inl, inr, Bool, true, false, ◌&&◌, Option, none, some,
  arith, if◌then◌else◌,
}
use nav_caster.Base.Dict.{find, is_nil}
use nav_caster.Access.{
  Policy, Verdict, AccessState, AccessGroup, AccessItem, default, enable,
  normalize_access_group_uid, item_of, item_verdict, group_verdict, is_mount_inside_group, allow,
  deny, check_mount_visible, check_mount_access, check_mount_nearby,
}

module _ (state : AccessItem → AccessState) (inside_flag outside_flag : AccessGroup → Bool) where
  -- A group grants the mount: by an enabled item, or, where no item decides, by its own flag for
  -- mounts inside or outside of the group.
  abbrev pub Grants : Option AccessItem → Bool → AccessGroup → Type 0
  Grants o inside g =
      ((item : AccessItem) × (o ≡ some item) × (state item ≡ enable))
      ⊎ (((o ≡ none) ⊎ ((item : AccessItem) × (o ≡ some item) × (state item ≡ default)))
          × ((if inside then inside_flag g else outside_flag g) ≡ true))

  verdict_iff :
      (o : Option AccessItem) (inside : Bool) (g : AccessGroup) (r in_r out_r : String)
      → ((item_verdict
            (elim o [ none ↦ none | some item ↦ some (state item) ])
            r
            (group_verdict inside (inside_flag g) (outside_flag g) in_r out_r)).allowed
          ≡ true)
        ↔ Grants o inside g
  unfolding item_verdict group_verdict
  verdict_iff o inside g r in_r out_r = (λ h. ground arith, λ h. ground arith)

always : {A G : Type 0} → A ↔ G → A ↔ ((true ≡ true) × G)
always e = (λ a. (refl, e.0 a), λ h. e.1 h.1)

guarded :
    (b : Bool) (r : String) (v : Verdict) {G : Type 0}
    → (v.allowed ≡ true) ↔ G
    → ((if not b then deny r else v).allowed ≡ true) ↔ ((b ≡ true) × G)
unfolding deny
guarded true r v e = always e
guarded false r v e = (λ h. cc, λ h. cc (h.0))

-- The tests that stand before the group's own decision, in each of the checks.
gate_iff :
    (unloaded system : Bool) {S : Type 0} (o : Option AccessGroup) (r : String)
    (V : AccessGroup → Verdict) (G : AccessGroup → Type 0)
    → (system ≡ true) ↔ S
    → ((g : AccessGroup) → ((V g).allowed ≡ true) ↔ G g)
    → ((if unloaded
          then allow
          else if system
          then allow
          else elim o [ none ↦ deny r | some g ↦ V g ]).allowed
        ≡ true)
      ↔ (((unloaded ≡ true) ⊎ S) ⊎ ((g : AccessGroup) × (o ≡ some g) × G g))
unfolding allow deny
gate_iff true system o r V G s v = (λ h. inl (inl refl), λ h. refl)
gate_iff false true o r V G s v = (λ h. inl (inr (s.0 refl)), λ h. refl)
gate_iff false false none r V G s v =
    (λ h. cc, λ h. elim h [ inl (inl e) ↦ cc | inl (inr q) ↦ cc (s.1 q) | inr (g, e, w) ↦ cc ])
gate_iff false false (some g) r V G s v = (
  λ h. inr (g, refl, (v g).0 h),
  λ h. elim h [ inl (inl e) ↦ cc | inl (inr q) ↦ cc (s.1 q) | inr (g', e, w) ↦ cc ((v g').1 w) ],
)

module _ (p : Policy) (group_uid mount : String) where
  -- Exempt are all callers while no policy is loaded, and the system group. Any other group must
  -- be known, meet what the check requires of it, and grant the mount.
  abbrev pub Rule :
      (AccessGroup → Bool)
      → (AccessItem → AccessState)
      → (AccessGroup → Bool)
      → (AccessGroup → Bool)
      → Type 0
  Rule required state inside_flag outside_flag =
      let group = normalize_access_group_uid group_uid in
      (((is_nil p.access_group_map && is_nil p.access_item_map) ≡ true) ⊎ (group ≡ "SYSTEM"))
      ⊎ ((g : AccessGroup) × (find group p.access_group_map ≡ some g)
          × ((required g ≡ true)
              × Grants state inside_flag outside_flag (item_of p group mount)
                  (is_mount_inside_group p group mount) g))

  -- check_mount_visible allows a mount exactly when the rule for visibility does.
  pub visible_iff :
      ((check_mount_visible p group_uid mount).allowed ≡ true)
      ↔ Rule
          (λ g. true)
          (λ i. i.allow_visible)
          (λ g. g.allow_visible_inside_group)
          (λ g. g.allow_visible_outside_group)
  unfolding check_mount_visible
  visible_iff = gate_iff _ _ _ _ _ _ (eq_iff _ _) λ g. always (
      verdict_iff (λ i. i.allow_visible) (λ g. g.allow_visible_inside_group)
        (λ g. g.allow_visible_outside_group) _ _ g _ _ _)

  -- check_mount_access allows a mount exactly when the rule for access does.
  pub access_iff :
      ((check_mount_access p group_uid mount).allowed ≡ true)
      ↔ Rule
          (λ g. true)
          (λ i. i.allow_access)
          (λ g. g.allow_access_inside_group)
          (λ g. g.allow_access_outside_group)
  unfolding check_mount_access
  access_iff = gate_iff _ _ _ _ _ _ (eq_iff _ _) λ g. always (
      verdict_iff (λ i. i.allow_access) (λ g. g.allow_access_inside_group)
        (λ g. g.allow_access_outside_group) _ _ g _ _ _)

  -- check_mount_nearby allows a mount exactly when the rule for nearby mounts does, which also
  -- requires the group to have its nearest mount point enabled.
  pub nearby_iff :
      ((check_mount_nearby p group_uid mount).allowed ≡ true)
      ↔ Rule
          (λ g. g.nearest_mpt_enable)
          (λ i. i.allow_nearby)
          (λ g. g.allow_nearby_inside_group)
          (λ g. g.allow_nearby_outside_group)
  unfolding check_mount_nearby
  nearby_iff = gate_iff _ _ _ _ _ _ (eq_iff _ _) λ g. guarded g.nearest_mpt_enable _ _ (
      verdict_iff (λ i. i.allow_nearby) (λ g. g.allow_nearby_inside_group)
        (λ g. g.allow_nearby_outside_group) _ _ g _ _ _)
