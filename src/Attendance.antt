-- ===== src/Attendance.antt =====
-- backend/app/services/attendance_service.py: heartbeat sightings, the daily evaluation, manual
-- overrides of one attendance record for each student, course and day, and the export of a day.
pub mod Records
pub mod Guards
pub mod Sightings
pub mod Evaluation
pub mod Override
pub mod Interplay
pub mod Export
pub mod Listing
mod Tests
