-- ===== src/Tests.antt =====
-- The theorems at concrete inputs.
mod Disk
mod Laws
mod Scans
mod Systems
mod Calms
mod Processes
mod Deliveries
mod SyncDeliveries
mod Jams
mod Rounds
mod Programs
mod Sessions
mod Uploads
mod Moves
mod Tempfiles
mod Settings
mod Startup
mod Watching
