-- ===== src/Registry.antt =====
-- packages/domain/services/operation_registry.py: the table of GIS operations.
mod Spec
mod Table
pub use Spec.{OperationSpec}
unfoldable pub use Table.{operation_specs}
