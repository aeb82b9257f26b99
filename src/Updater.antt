-- ===== src/Updater.antt =====
-- The dependency updater of management/dependency_updater: what it reads out of requirements, workflows and
-- image references, which versions it chooses, and what a run writes. `decimal` gives the value of a
-- decimal digit of Unicode, which `\d` matches and `int` reads; the limit of 4300 digits that `int` has
-- is left out.
pub mod Scan
pub mod Tags
pub mod Choice
pub mod Images
pub mod Registry
pub mod Lookups
pub mod Requirements
pub mod Sync
pub mod Workflows
pub mod Containers
pub mod Run
pub mod Cli
