-- ===== src/Policy/Kind.antt =====
-- src/policy.hpp: the enumeration of the policies.
-- `Policy::Enum::Type`
pub data Kind : Type 0 where
  invalid all epall epff eplfs eplus epmfs eprand erofs ff lfs lus mfs newest rand : Kind
