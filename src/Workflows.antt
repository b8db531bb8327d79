-- ===== src/Workflows.antt =====
-- workflows.py: the controller and the local cache are brought together, and print batches built.
pub mod PrintJob
pub mod Remote
pub mod Absences
pub mod Creation
pub mod Deletion
pub mod Printing
pub mod Params
