-- ===== src/Builder.antt =====
-- The form in which users write policies: the catalog of criteria of packages/core/src/criteria, and the
-- conversions between its values and rules in packages/app/src/components/policy-builder/conversions.ts and
-- packages/wallet/src/lib/policy-conversions.ts.
pub mod Catalog
pub mod Conversions
