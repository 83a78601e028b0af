-- ===== src/Templates.antt =====
-- Face templates of students: the enrollment route of backend/app/api/v1/students.py with its
-- gates, and the quality threshold of backend/app/services/enrollment_quality.py.
pub mod Store
pub mod Rotation
pub mod Gates
pub mod Enroll
mod Tests
