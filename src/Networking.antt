-- ===== src/Networking.antt =====
-- backend/internal/networking: port validation, network exposures and public SSH ports.
pub mod Exposure
pub mod SshAllocation
pub mod SshAllocator
pub mod Requests
pub mod AllocatorEngine
pub mod ExposureManager
