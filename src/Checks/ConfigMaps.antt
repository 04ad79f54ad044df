-- ===== src/Checks/ConfigMaps.antt =====
-- What `compareConfigMap` decides.
use horreum_operator.Common.{
  String, ◌≡◌, refl, ◌↔◌, true, [], ◌∷◌, Dict, lookup, length, arith, string_eq, inl, inr,
  Option-cases, eq_iff,
}
use horreum_operator.Common.Maps.{HasDistinctKeys, Sub, IsSameMap, Sub-iff-IsSameMap}
use horreum_operator.Common.Int.{nat_beq_iff}
use horreum_operator.Objects.{ConfigMap, config_map_object}
use horreum_operator.Checks.Compare.{same_entries, compare_config_map}

same_entries_iff : (m1 m2 : Dict String String) → (same_entries m1 m2 ≡ true) ↔ Sub m1 m2
unfolding same_entries
same_entries_iff [] m2 = (λ _. tt, λ _. refl)
same_entries_iff ((key, v) ∷ m1) m2 = elim (Option-cases (lookup key m2)) [
  | inl e ↦ ground (arith, same_entries_iff m1 m2)
  | inr (w, e) ↦ ground (arith, same_entries_iff m1 m2, eq_iff v w)
]

-- Two config maps compare as equal exactly when their data have the same number of entries and every
-- entry of the first is found in the second.
compare_config_map_iff :
    (cm1 cm2 : ConfigMap)
    → (compare_config_map (config_map_object cm1) (config_map_object cm2) ≡ true)
      ↔ ((length cm1.data_map ≡ length cm2.data_map) × Sub cm1.data_map cm2.data_map)
unfolding compare_config_map
compare_config_map_iff cm1 cm2 = ground (
  arith,
  same_entries_iff cm1.data_map cm2.data_map,
  nat_beq_iff (length cm1.data_map) (length cm2.data_map),
)

-- Two config maps without repeated keys compare as equal exactly when every key has the same value in
-- the data of both, or is in neither. Binary data are not looked at.
pub compare_config_map-IsSameMap :
    (cm1 cm2 : ConfigMap)
    → HasDistinctKeys cm1.data_map
    → HasDistinctKeys cm2.data_map
    → (compare_config_map (config_map_object cm1) (config_map_object cm2) ≡ true)
      ↔ IsSameMap cm1.data_map cm2.data_map
compare_config_map-IsSameMap cm1 cm2 h1 h2 =
    let (inclusion, inclusion_back) = compare_config_map_iff cm1 cm2 in
    let (same, same_back) = Sub-iff-IsSameMap cm1.data_map cm2.data_map h1 h2 in
    (λ e. same (inclusion e), λ e. inclusion_back (same_back e))
